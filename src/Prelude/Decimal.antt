-- ===== src/Prelude/Decimal.antt =====
-- `fmt.Sprintf("%d", n)` for n ≥ 0 and `strconv.Atoi`, and that the second reads the first.
use Prim.Native.Nat.{ℕ, zero, suc, ◌+◌, ◌-◌, ◌*◌, ◌/◌, ◌%◌, ◌^◌, ◌≤◌, ◌<◌}
use mathlib.Core.Path.{◌≡◌}
use mathlib.Core.Bool.{Bool, true, false, ◌&&◌}
use mathlib.Core.List.{[], ◌∷◌}
use mathlib.Core.Option.{Option, none, some}
use native.Mathlib.Omega.{arith}
use native.Mathlib.Nat.{le_refl}
use mathlib.Core.Logic.{inl, inr}
use ebpf_probe.Prelude.Tests.{lt→ltb, Bool-cases, ltb→lt, ltb, leb, ◌==◌, if◌then◌else◌}
use ebpf_probe.Prelude.Go.{Bytes}

-- The digits of `n` in front of `out`; `n` rounds are enough, since each divides by ten.
unfoldable pub digits : ℕ → ℕ → Bytes → Bytes
digits zero n out = (b'0' + n % 10) ∷ out
digits (suc f) n out =
    let more = digits f (n / 10) ((b'0' + n % 10) ∷ out) in
    if ltb n 10 then (b'0' + n) ∷ out else more

unfoldable pub format_int : ℕ → Bytes
unfolding digits
format_int n = digits n n []

unfoldable pub is_digit : ℕ → Bool
is_digit c = leb b'0' c && leb c b'9'

-- The value of a run of digits behind `n`.
unfoldable pub scan : Bytes → ℕ → Option ℕ
unfolding is_digit
scan [] n = some n
scan (c ∷ s) n = if is_digit c then scan s (n * 10 + (c - b'0')) else none

-- An `int`: a natural number, or minus (n + 1).
pub data ℤ : Type 0 where
  pos : ℕ → ℤ
  negsuc : ℕ → ℤ

-- The 64-bit range check of `strconv.Atoi`; `negate` is the sign.
unfoldable pub in_range : Bool → Option ℕ → Option ℤ
in_range negate none = none
in_range false (some n) = if ltb n (2 ^ 63) then some (pos n) else none
in_range true (some zero) = some (pos 0)
in_range true (some (suc n)) = if ltb n (2 ^ 63) then some (negsuc n) else none

unfoldable pub unsigned : Bool → Bytes → Option ℤ
unfolding scan in_range
unsigned negate [] = none
unsigned negate (c ∷ s) = in_range negate (scan (c ∷ s) 0)

-- `strconv.Atoi(s)`; `none` is any error.
unfoldable pub atoi : Bytes → Option ℤ
unfolding unsigned
atoi [] = none
atoi (c ∷ s) =
    if c == b'-'
    then unsigned true s
    else if c == b'+'
    then unsigned false s
    else unsigned false (c ∷ s)

pub scan-digits : (f n : ℕ) (out : Bytes) → n ≤ f → scan (digits f n out) 0 ≡ scan out n
unfolding scan digits
scan-digits zero n out h = ground arith
scan-digits (suc f) n out h = ground (arith, scan-digits f (n / 10) ((b'0' + n % 10) ∷ out))

-- The first byte that is printed is a digit.
abbrev pub StartsWithDigit : Bytes → Type 0
StartsWithDigit [] = ⊥
StartsWithDigit (c ∷ s) = (b'0' ≤ c) × (c ≤ b'9')

pub digits_start : (f n : ℕ) (out : Bytes) → StartsWithDigit (digits f n out)
unfolding digits
digits_start zero n out = omega arith
digits_start (suc f) n out = elim (Bool-cases (ltb n 10)) [
  | inl small ↦ rw small (omega (arith, ltb→lt n 10 small))
  | inr large ↦ rw large (digits_start f (n / 10) ((b'0' + n % 10) ∷ out))
]

atoi_of_digit :
    (s : Bytes) (n : ℕ) → StartsWithDigit s → scan s 0 ≡ some n → n < 2 ^ 63 → atoi s ≡ some (pos n)
unfolding atoi
atoi_of_digit [] n h e lt = absurd h
atoi_of_digit (c ∷ s) n h e lt = ground arith

-- An `int` that is printed is read back.
pub atoi-format_int : (n : ℕ) → n < 2 ^ 63 → atoi (format_int n) ≡ some (pos n)
unfolding format_int scan
atoi-format_int n h =
    atoi_of_digit (digits n n []) n (digits_start n n []) (scan-digits n n [] (le_refl n)) h

unsigned_of_digit :
    (s : Bytes) (n : ℕ)
    → StartsWithDigit s
    → scan s 0 ≡ some (suc n)
    → n < 2 ^ 63
    → unsigned true s ≡ some (negsuc n)
unfolding unsigned
unsigned_of_digit [] n h e lt = absurd h
unsigned_of_digit (c ∷ s) n h e lt = rw e (rw (lt→ltb n (2 ^ 63) lt))

-- A negative number down to -2^63 is read back, too.
pub atoi-format_int_neg : (n : ℕ) → n < 2 ^ 63 → atoi (b'-' ∷ format_int (suc n)) ≡ some (negsuc n)
unfolding atoi format_int
atoi-format_int_neg n h =
    unsigned_of_digit (digits (suc n) (suc n) []) n (digits_start (suc n) (suc n) [])
      (scan-digits (suc n) (suc n) [] (le_refl (suc n))) h
