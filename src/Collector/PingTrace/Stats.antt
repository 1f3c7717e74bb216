-- ===== src/Collector/PingTrace/Stats.antt =====
-- The statistics of the round-trip times.
use native.Mathlib.Nat.{le-div_iff_mul-le, div-le_of_le-mul, mod-eq_of_lt}
use ebpf_probe.Prelude.{
  ℕ, ◌+◌, ◌*◌, ◌/◌, ◌%◌, ◌^◌, ◌≤◌, ◌<◌, ◌≡◌, ap, ◌∙◌, List, [], ◌∷◌, length, ltb, All,
  if◌then◌else◌, signed, arith,
}
use ebpf_probe.Prelude.Decimal.{pos}
use ebpf_probe.Collector.PingTrace.{RttStats, stats_loop, quotient, rtt_stats}

abbrev pub sum : List ℕ → ℕ
sum [] = 0
sum (r ∷ l) = r + sum l

sum_lower : (m : ℕ) (l : List ℕ) → All (λ r. m ≤ r) l → length l * m ≤ sum l
sum_lower m [] h = omega arith
sum_lower m (r ∷ l) h = let ih = sum_lower m l h.1 in omega arith

sum_upper : (m : ℕ) (l : List ℕ) → All (λ r. r ≤ m) l → sum l ≤ length l * m
sum_upper m [] h = omega arith
sum_upper m (r ∷ l) h = let ih = sum_upper m l h.1 in omega arith

-- What one round of the statistics leaves.
abbrev after : ℕ → RttStats → RttStats
after r s = record {
  total = (s.total + r) % 2 ^ 64;
  min_rtt = if ltb r s.min_rtt then r else s.min_rtt;
  max_rtt = if ltb s.max_rtt r then r else s.max_rtt;
}

total-stats_loop :
    (l : List ℕ) (s : RttStats)
    → s.total + sum l < 2 ^ 64
    → (stats_loop l s).total ≡ s.total + sum l
unfolding stats_loop
total-stats_loop [] s h = omega arith
total-stats_loop (r ∷ l) s h =
    let now : (s.total + r) % 2 ^ 64 ≡ s.total + r = mod-eq_of_lt (omega arith) in
    total-stats_loop l (after r s) (omega arith) ∙ omega arith

min-stats_loop :
    (l : List ℕ) (s : RttStats)
    → ((stats_loop l s).min_rtt ≤ s.min_rtt) × All (λ r. (stats_loop l s).min_rtt ≤ r) l
unfolding stats_loop
min-stats_loop [] s = (omega arith, tt)
min-stats_loop (r ∷ l) s =
    let ih = min-stats_loop l (after r s) in (ground arith, (ground arith, ih.1))

max-stats_loop :
    (l : List ℕ) (s : RttStats)
    → (s.max_rtt ≤ (stats_loop l s).max_rtt) × All (λ r. r ≤ (stats_loop l s).max_rtt) l
unfolding stats_loop
max-stats_loop [] s = (omega arith, tt)
max-stats_loop (r ∷ l) s =
    let ih = max-stats_loop l (after r s) in (ground arith, (ground arith, ih.1))

quotient-signed : (n k : ℕ) → n < 2 ^ 63 → quotient (signed (2 ^ 63) n) k ≡ pos (n / k)
unfolding quotient signed
quotient-signed n k h = ground arith

-- For round-trip times of which there is one at least, and whose sum is below 2^63 nanoseconds: the
-- average is their sum by their number, rounded down; no time is below the minimum or above the
-- maximum; and the average lies between the two.
pub rtt_stats_range :
    (first : ℕ) (rtts : List ℕ)
    → sum (first ∷ rtts) < 2 ^ 63
    → let l = first ∷ rtts in
      let mean = sum l / length l in
      let s = rtt_stats l in
      (s.0 ≡ pos mean)
      × ((s.1.0 ≤ mean) × (mean ≤ s.1.1))
      × (All (λ r. s.1.0 ≤ r) l × All (λ r. r ≤ s.1.1) l)
unfolding rtt_stats
rtt_stats_range first rtts h =
    let l : List ℕ = first ∷ rtts in
    let start : RttStats = record { total = 0; min_rtt = first; max_rtt = first } in
    let n = length l in
    let low = (min-stats_loop l start).1 in
    let high = (max-stats_loop l start).1 in
    let total : (stats_loop l start).total ≡ sum l =
      total-stats_loop l start (omega arith) ∙ omega arith in
    (
      ap (λ t. quotient (signed (2 ^ 63) t) n) total ∙ quotient-signed (sum l) n h,
      (
        (le-div_iff_mul-le (omega arith)).1
            (let low_sum = sum_lower (stats_loop l start).min_rtt l low in omega arith),
        div-le_of_le-mul n (sum_upper (stats_loop l start).max_rtt l high),
      ),
      (low, high),
    )
