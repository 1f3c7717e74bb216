-- ===== src/Prelude/Signed.antt =====
-- Two's complement integers: `int16(w)`, `int32(w)` and `int64(w)` of an unsigned word, and back.
use Prim.Native.Nat.{ℕ, ◌+◌, ◌-◌, ◌<◌}
use mathlib.Core.Path.{◌≡◌}
use native.Mathlib.Omega.{arith}
use ebpf_probe.Prelude.Decimal.{ℤ, pos, negsuc}
use ebpf_probe.Prelude.Tests.{ltb, if◌then◌else◌}

-- The integer that a word of a type with `half` negative values stands for.
unfoldable pub signed : ℕ → ℕ → ℤ
signed half w = if ltb w half then pos w else negsuc (half + half - 1 - w)

unfoldable pub unsigned : ℕ → ℤ → ℕ
unsigned half (pos n) = n
unsigned half (negsuc n) = half + half - 1 - n

abbrev pub IsInRange : ℕ → ℤ → Type 0
IsInRange half (pos n) = n < half
IsInRange half (negsuc n) = n < half

pub signed-unsigned : (half : ℕ) (z : ℤ) → IsInRange half z → signed half (unsigned half z) ≡ z
unfolding signed unsigned
signed-unsigned half (pos n) h = ground arith
signed-unsigned half (negsuc n) h = ground arith

pub unsigned_bound : (half : ℕ) (z : ℤ) → IsInRange half z → unsigned half z < half + half
unfolding unsigned
unsigned_bound half (pos n) h = omega arith
unsigned_bound half (negsuc n) h = omega arith
