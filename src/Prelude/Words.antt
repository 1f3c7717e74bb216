-- ===== src/Prelude/Words.antt =====
-- Machine words written out byte by byte, for the encoders of the wire formats.
use Prim.Native.Nat.{ℕ, zero, suc, ◌+◌, ◌*◌, ◌/◌, ◌%◌, ◌^◌, ◌<◌}
use mathlib.Core.Path.{◌≡◌, refl, ap}
use mathlib.Core.List.{[], ◌∷◌, ◌++◌}
use native.Mathlib.Omega.{arith}
use ebpf_probe.Prelude.Lists.{length, length-append}
use ebpf_probe.Prelude.Go.{Bytes}

-- The low `k` bytes of `n`, the least significant first.
unfoldable pub little_endian : ℕ → ℕ → Bytes
little_endian zero n = []
little_endian (suc k) n = (n % 256) ∷ little_endian k (n / 256)

-- The low `k` bytes of `n`, the most significant first.
unfoldable pub big_endian : ℕ → ℕ → Bytes
big_endian zero n = []
big_endian (suc k) n = big_endian k (n / 256) ++ n % 256 ∷ []

pub length-little_endian : (k n : ℕ) → length (little_endian k n) ≡ k
unfolding little_endian
length-little_endian zero n = refl
length-little_endian (suc k) n = ap suc (length-little_endian k (n / 256))

pub length-big_endian : (k n : ℕ) → length (big_endian k n) ≡ k
unfolding big_endian
length-big_endian zero n = refl
length-big_endian (suc k) n =
    omega
      (arith, length-append (big_endian k (n / 256)) (n % 256 ∷ []), length-big_endian k (n / 256))

-- A word put together again from its bytes.
pub word16 : (w : ℕ) → w < 2 ^ 16 → w / 256 % 256 * 256 + w % 256 ≡ w
word16 w h = omega arith

pub word32 :
    (w : ℕ)
    → w < 2 ^ 32
    → w / 256 / 256 / 256 % 256 * 2 ^ 24
        + w / 256 / 256 % 256 * 2 ^ 16
        + w / 256 % 256 * 256
        + w % 256
      ≡ w
word32 w h = omega arith
