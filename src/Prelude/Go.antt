-- ===== src/Prelude/Go.antt =====
-- What a Go function returns: a value, an error value, or a run-time panic; and the accesses to
-- byte slices that panic when they are out of range. A slice's capacity is taken to be its length.
use Prim.Native.Nat.{ℕ, zero, suc, ◌+◌, ◌-◌, ◌*◌, ◌/◌, ◌%◌, ◌^◌, ◌<◌}
use mathlib.Core.Path.{◌≡◌, refl}
use mathlib.Core.Logic.{◌≢◌}
use mathlib.Core.Bool.{Bool, true, false, ◌&&◌}
use mathlib.Core.List.{List, [], ◌∷◌}
use native.Mathlib.Omega.{arith}
use ebpf_probe.Prelude.Tests.{ltb, leb, ◌==◌, if◌then◌else◌}
use ebpf_probe.Prelude.Lists.{length, get_or, take, drop, All}

pub data Outcome {ℓ κ} (E : Type ℓ) (A : Type κ) : Type (ℓ ⊔ κ) where
  ok : A → Outcome E A
  err : E → Outcome E A
  panic : Outcome E A

infixl 5 ◌>>=◌ ◌>>◌
abbrev pub ◌>>=◌ {ℓ κ μ} :
    {E : Type ℓ} {A : Type κ} {B : Type μ} → Outcome E A → (A → Outcome E B) → Outcome E B
ok a >>= f = f a
err e >>= f = err e
panic >>= f = panic

abbrev pub ◌>>◌ {ℓ κ} : {E : Type ℓ} {B : Type κ} → Outcome E (Unit {0}) → Outcome E B → Outcome E B
m >> k = m >>= λ _. k

-- A chain ends in an error or a panic only if one of its parts does.
pub >>=-ne-err {ℓ κ μ} :
    {E : Type ℓ} {A : Type κ} {B : Type μ} (m : Outcome E A) (k : A → Outcome E B) {e : E}
    → m ≢ err e
    → ((a : A) → m ≡ ok a → k a ≢ err e)
    → (m >>= k) ≢ err e
>>=-ne-err (ok a) k h next = next a refl
>>=-ne-err (err x) k h next = λ eq. h (cc)
>>=-ne-err panic k h next = cc

pub >>=-ne-panic {ℓ κ μ} :
    {E : Type ℓ} {A : Type κ} {B : Type μ} (m : Outcome E A) (k : A → Outcome E B)
    → m ≢ panic
    → ((a : A) → m ≡ ok a → k a ≢ panic)
    → (m >>= k) ≢ panic
>>=-ne-panic (ok a) k h next = next a refl
>>=-ne-panic (err x) k h next = cc
>>=-ne-panic panic k h next = λ eq. h refl

pub ok-ne-panic {ℓ κ} : {E : Type ℓ} {A : Type κ} (a : A) → ◌≢◌ {A = Outcome E A} (ok a) panic
ok-ne-panic a = cc

-- `if cond { return nil, e }`
abbrev pub fail_if {ℓ} : {E : Type ℓ} → Bool → E → Outcome E (Unit {0})
fail_if true e = err e
fail_if false e = ok tt

abbrev pub Bytes : Type 0
Bytes = List ℕ

abbrev pub IsByte : ℕ → Type 0
IsByte b = b < 256

abbrev pub AreBytes : Bytes → Type 0
AreBytes = All IsByte

module _ {ℓ} {E : Type ℓ} where
  -- `data[i]`
  abbrev pub index : Bytes → ℕ → Outcome E ℕ
  index bytes i = if ltb i (length bytes) then ok (get_or bytes i 0) else panic

  -- `data[lo:hi]`
  abbrev pub slice : Bytes → ℕ → ℕ → Outcome E Bytes
  slice bytes lo hi =
      if leb lo hi && leb hi (length bytes) then ok (take (hi - lo) (drop lo bytes)) else panic

  -- `data[lo:]`
  abbrev pub slice_from : Bytes → ℕ → Outcome E Bytes
  slice_from bytes lo = if leb lo (length bytes) then ok (drop lo bytes) else panic

  -- `binary.BigEndian.Uint16(data[i:i+2])`
  abbrev pub be16 : Bytes → ℕ → Outcome E ℕ
  be16 bytes i =
      if leb (i + 2) (length bytes)
      then ok (get_or bytes i 0 * 256 + get_or bytes (i + 1) 0)
      else panic

  -- `binary.BigEndian.Uint32(data[i:i+4])`
  abbrev pub be32 : Bytes → ℕ → Outcome E ℕ
  be32 bytes i =
      if leb (i + 4) (length bytes)
      then ok (
          get_or bytes i 0 * 2 ^ 24
          + get_or bytes (i + 1) 0 * 2 ^ 16
          + get_or bytes (i + 2) 0 * 256
          + get_or bytes (i + 3) 0)
      else panic

  -- `binary.BigEndian.Uint64(data[i:i+8])`
  abbrev pub be64 : Bytes → ℕ → Outcome E ℕ
  be64 bytes i =
      if leb (i + 8) (length bytes)
      then ok (
          get_or bytes i 0 * 2 ^ 56
          + get_or bytes (i + 1) 0 * 2 ^ 48
          + get_or bytes (i + 2) 0 * 2 ^ 40
          + get_or bytes (i + 3) 0 * 2 ^ 32
          + get_or bytes (i + 4) 0 * 2 ^ 24
          + get_or bytes (i + 5) 0 * 2 ^ 16
          + get_or bytes (i + 6) 0 * 256
          + get_or bytes (i + 7) 0)
      else panic

  -- `binary.LittleEndian.Uint16(data[i:i+2])`
  abbrev pub le16 : Bytes → ℕ → Outcome E ℕ
  le16 bytes i =
      if leb (i + 2) (length bytes)
      then ok (get_or bytes i 0 + get_or bytes (i + 1) 0 * 256)
      else panic

  -- `binary.LittleEndian.Uint32(data[i:i+4])`
  abbrev pub le32 : Bytes → ℕ → Outcome E ℕ
  le32 bytes i =
      if leb (i + 4) (length bytes)
      then ok (
          get_or bytes i 0
          + get_or bytes (i + 1) 0 * 256
          + get_or bytes (i + 2) 0 * 2 ^ 16
          + get_or bytes (i + 3) 0 * 2 ^ 24)
      else panic

-- `b & (1 << k) != 0`
abbrev pub bit : ℕ → ℕ → Bool
bit b k = (b / 2 ^ k) % 2 == 1

pub get_or-IsByte : (bytes : Bytes) (i : ℕ) → AreBytes bytes → get_or bytes i 0 < 256
get_or-IsByte [] i h = omega arith
get_or-IsByte (b ∷ bytes) zero h = h.0
get_or-IsByte (b ∷ bytes) (suc i) h = get_or-IsByte bytes i h.1
