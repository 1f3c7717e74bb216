-- ===== src/Perf/TopN.antt =====
-- The ranking loops sort: GetTopCPU and GetTopAlloc return the greatest entries, in falling order.
use mathlib.Core.List.{Perm}
use mathlib.Core.List.Perm
use Prim.Native.Nat.{min}
use ebpf_probe.Prelude.{
  ℕ, zero, suc, ◌≤◌, ◌≡◌, refl, ap, ◌∙◌, true, false, List, [], ◌∷◌, ◌++◌, length, take, drop,
  arith, ltb, ltb→lt, Bool-cases, inl, inr, if◌then◌else◌, length-take,
}
use ebpf_probe.Perf.{Samples, Allocs, select_max, rank, top, get_top_cpu, get_top_alloc}

module _ {ℓ} {A : Type ℓ} (key : A → ℕ) where
  -- No entry is above `b`.
  abbrev pub Below : ℕ → List A → Type 0
  Below b [] = Unit {0}
  Below b (x ∷ l) = (key x ≤ b) × Below b l

  -- Falling order.
  abbrev pub Falls : List A → Type 0
  Falls [] = Unit {0}
  Falls (x ∷ l) = Below (key x) l × Falls l

  select_max_end : (x : A) → select_max key x [] ≡ (x, [])
  unfolding select_max
  select_max_end x = refl

  select_max_swap :
      (x y : A) (l : List A)
      → ltb (key x) (key y) ≡ true
      → select_max key x (y ∷ l) ≡ ((select_max key y l).0, x ∷ (select_max key y l).1)
  unfolding select_max
  select_max_swap x y l up = rw up refl

  select_max_stay :
      (x y : A) (l : List A)
      → ltb (key x) (key y) ≡ false
      → select_max key x (y ∷ l) ≡ ((select_max key x l).0, y ∷ (select_max key x l).1)
  unfolding select_max
  select_max_stay x y l stay = rw stay refl

  -- The entry that the inner loop leaves at `i` is the greatest from there on.
  select_max-Below :
      (x : A) (l : List A)
      → (key x ≤ key (select_max key x l).0)
        × Below (key (select_max key x l).0) (select_max key x l).1
  select_max-Below x [] = rw (select_max_end x) (omega arith, tt)
  select_max-Below x (y ∷ l) = elim (Bool-cases (ltb (key x) (key y))) [
    | inl up ↦ rw (select_max_swap x y l up) (
        let ih = select_max-Below y l in
        let lt = ltb→lt (key x) (key y) up in (omega (arith, ih.0), (omega (arith, ih.0), ih.1)))
    | inr stay ↦
        rw (select_max_stay x y l stay)
          (let ih = select_max-Below x l in (ih.0, (ground (arith, ih.0), ih.1)))
  ]

  -- It only moves entries.
  select_max-Perm :
      (x : A) (l : List A) → Perm ((select_max key x l).0 ∷ (select_max key x l).1) (x ∷ l)
  select_max-Perm x [] = rw (select_max_end x) (Perm.refl (x ∷ []))
  select_max-Perm x (y ∷ l) = elim (Bool-cases (ltb (key x) (key y))) [
    | inl up ↦ rw (select_max_swap x y l up) (
        Perm.trans (Perm.swap x (select_max key y l).0 (select_max key y l).1)
          (Perm.cons x (select_max-Perm y l)))
    | inr stay ↦ rw (select_max_stay x y l stay) (
        Perm.trans (Perm.swap y (select_max key x l).0 (select_max key x l).1)
          (Perm.trans (Perm.cons y (select_max-Perm x l)) (Perm.swap x y l)))
  ]

  select_max_bounded :
      (c : ℕ) (x : A) (l : List A)
      → key x ≤ c
      → Below c l
      → (key (select_max key x l).0 ≤ c) × Below c (select_max key x l).1
  select_max_bounded c x [] hx hl = rw (select_max_end x) (hx, tt)
  select_max_bounded c x (y ∷ l) hx hl = elim (Bool-cases (ltb (key x) (key y))) [
    | inl up ↦
        rw (select_max_swap x y l up)
          (let ih = select_max_bounded c y l hl.0 hl.1 in (ih.0, (hx, ih.1)))
    | inr stay ↦
        rw (select_max_stay x y l stay)
          (let ih = select_max_bounded c x l hx hl.1 in (ih.0, (hl.0, ih.1)))
  ]

  length-select_max : (x : A) (l : List A) → length (select_max key x l).1 ≡ length l
  length-select_max x [] = rw (select_max_end x) refl
  length-select_max x (y ∷ l) = elim (Bool-cases (ltb (key x) (key y))) [
    | inl up ↦ rw (select_max_swap x y l up) (ap suc (length-select_max y l))
    | inr stay ↦ rw (select_max_stay x y l stay) (ap suc (length-select_max x l))
  ]

  rank_bounded : (c n : ℕ) (l : List A) → Below c l → Below c (rank key n l)
  unfolding rank
  rank_bounded c zero l h = h
  rank_bounded c (suc n) [] h = tt
  rank_bounded c (suc n) (x ∷ l) h =
      let bounds = select_max_bounded c x l h.0 h.1 in (bounds.0, rank_bounded c n _ bounds.1)

  rank-Falls : (n : ℕ) (l : List A) → length l ≤ n → Falls (rank key n l)
  unfolding rank
  rank-Falls zero [] h = tt
  rank-Falls zero (x ∷ l) h = absurd (omega (arith, h))
  rank-Falls (suc n) [] h = tt
  rank-Falls (suc n) (x ∷ l) h = (
    rank_bounded _ n _ (select_max-Below x l).1,
    rank-Falls n (select_max key x l).1 (omega (arith, length-select_max x l)),
  )

  rank-Perm : (n : ℕ) (l : List A) → Perm (rank key n l) l
  unfolding rank
  rank-Perm zero l = Perm.refl l
  rank-Perm (suc n) [] = Perm.nil
  rank-Perm (suc n) (x ∷ l) =
      Perm.trans (Perm.cons _ (rank-Perm n (select_max key x l).1)) (select_max-Perm x l)

  length-rank : (n : ℕ) (l : List A) → length (rank key n l) ≡ length l
  unfolding rank
  length-rank zero l = refl
  length-rank (suc n) [] = refl
  length-rank (suc n) (x ∷ l) =
      ap suc (length-rank n (select_max key x l).1 ∙ length-select_max x l)

  take-drop : (n : ℕ) (l : List A) → take n l ++ drop n l ≡ l
  take-drop zero l = refl
  take-drop (suc n) [] = refl
  take-drop (suc n) (x ∷ l) = ap (◌∷◌ x) (take-drop n l)

  -- `chosen` are the `n` greatest entries of `l`, or all of them if there are fewer, greatest first:
  -- with some `rest` behind them they are all the entries of `l`, in falling order.
  abbrev pub IsTop : ℕ → List A → List A → Type ℓ
  IsTop n l chosen =
      (length chosen ≡ min n (length l))
      × (rest : List A) × Perm (chosen ++ rest) l
      × Falls (chosen ++ rest)

  top-IsTop : (n : ℕ) (l : List A) → IsTop n l (top key n l)
  unfolding top
  top-IsTop n l =
      let k = if ltb (length l) n then length l else n in
      let ranked = rank key (length l) l in
      (
        length-take k ranked ∙ ground (arith, length-rank (length l) l),
        drop k ranked,
        rw (take-drop k ranked) (rank-Perm (length l) l),
        rw (take-drop k ranked) (rank-Falls (length l) l (omega arith)),
      )

-- For every n ≥ 0, GetTopCPU returns the n processes of the greatest CPU time, or all of them if
-- there are fewer, greatest first: with the others in some order behind them they are the samples,
-- each once, in falling order.
pub get_top_cpu-IsTop :
    (n : ℕ) (samples : Samples) → IsTop (λ p. p.total_ns) n samples (get_top_cpu n samples)
unfolding get_top_cpu
get_top_cpu-IsTop n samples = top-IsTop (λ p. p.total_ns) n samples

-- For every n ≥ 0, GetTopAlloc returns the n processes that hold the most bytes, or all of them if
-- there are fewer, greatest first: with the others in some order behind them they are the
-- processes known, each once, in falling order.
pub get_top_alloc-IsTop :
    (n : ℕ) (allocs : Allocs) → IsTop (λ a. a.bytes) n allocs (get_top_alloc n allocs)
unfolding get_top_alloc
get_top_alloc-IsTop n allocs = top-IsTop (λ a. a.bytes) n allocs
