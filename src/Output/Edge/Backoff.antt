-- ===== src/Output/Edge/Backoff.antt =====
-- The sleep between two attempts of the edge client.
use native.Mathlib.Nat.{pow-suc, pow-le-pow_right}
use Prim.Native.Nat.{min}
use ebpf_probe.Prelude.{
  ℕ, zero, suc, ◌+◌, ◌-◌, ◌*◌, ◌%◌, ◌^◌, ◌≤◌, ◌<◌, ◌≡◌, refl, ap, ◌∙◌, arith, signed,
}
use ebpf_probe.Output.Edge.{doubled, sleep_of, backoff, second_ns}

-- Past 2^55 the doubled second is a multiple of 2^64.
wrapped : (q : ℕ) → (2 ^ 55 * q % 2 ^ 64) * second_ns % 2 ^ 64 ≡ 0
wrapped q = omega arith

pow_shift : (k : ℕ) → 2 ^ (k + 55) ≡ 2 ^ 55 * 2 ^ k
pow_shift zero = omega arith
pow_shift (suc k) =
    ap (λ (i : ℕ). 2 ^ i) {y = suc (k + 55)} (omega arith)
    ∙ omega (arith, pow-suc 2 (k + 55), pow-suc 2 k, pow_shift k)

pow_split : (n : ℕ) → 55 ≤ n → 2 ^ n ≡ 2 ^ 55 * 2 ^ (n - 55)
pow_split n h = ap (λ (k : ℕ). 2 ^ k) {y = n - 55 + 55} (omega (arith, h)) ∙ pow_shift (n - 55)

-- From the first to the 34th retry the sleep doubles from one second, up to sixty seconds.
pub backoff_doubles :
    (n : ℕ) → 0 < n → n ≤ 34 → backoff n ≡ min (2 ^ (n - 1) * second_ns) (60 * second_ns)
unfolding backoff doubled sleep_of signed
backoff_doubles n some few =
    let small = pow-le-pow_right {n = 2} (omega arith) {i = n - 1} {j = 33} (omega (arith, few)) in
    ground (arith, small)

-- From the 56th retry on, the doubled duration has wrapped around to zero: nothing is slept.
pub backoff_wraps : (n : ℕ) → 56 ≤ n → backoff n ≡ 0
unfolding backoff doubled sleep_of signed
backoff_wraps n late =
    rw (pow_split (n - 1) (omega (arith, late))) (rw (wrapped (2 ^ (n - 1 - 55))) refl)
