-- ===== src/Prelude/Cursor.antt =====
-- Reading at an offset into a byte slice, by what stands there.
use Prim.Native.Nat.{ℕ, zero, suc, ◌+◌, ◌-◌, ◌^◌, ◌<◌}
use mathlib.Core.Path.{◌≡◌, refl, sym, ap, ◌∙◌}
use mathlib.Core.List.{[], ◌∷◌, ◌++◌}
use native.Mathlib.Omega.{arith}
use ebpf_probe.Prelude.Tests.{le→leb}
use ebpf_probe.Prelude.Lists.{
  length, get_or, take, drop, drop-drop, drop-append, take-append, length-append,
}
use ebpf_probe.Prelude.Go.{ok, Bytes, index, slice, be16, be32, be64}
use ebpf_probe.Prelude.Words.{big_endian, length-big_endian}

-- From `o` on, `d` is `s`.
abbrev pub At : Bytes → ℕ → Bytes → Type 0
At d o s = (drop o d ≡ s) × (o + length s ≡ length d)

pub At-start : (d : Bytes) → At d 0 d
At-start d = (refl, omega arith)

get_or-drop : (o i : ℕ) (d : Bytes) → get_or (drop o d) i 0 ≡ get_or d (o + i) 0
get_or-drop zero i d = ap (λ (k : ℕ). get_or d k 0) (omega arith)
get_or-drop (suc o) i [] = refl
get_or-drop (suc o) i (x ∷ d) =
    get_or-drop o i d ∙ ap (λ (k : ℕ). get_or (x ∷ d) k 0) {x = suc (o + i)} (omega arith)

get_or-At : (d : Bytes) (o i : ℕ) (s : Bytes) → At d o s → get_or d (o + i) 0 ≡ get_or s i 0
get_or-At d o i s h = sym (get_or-drop o i d) ∙ ap (λ t. get_or t i 0) h.0

get_or-At_first : (d : Bytes) (o : ℕ) (s : Bytes) → At d o s → get_or d o 0 ≡ get_or s 0 0
get_or-At_first d o s h =
    ap (λ (k : ℕ). get_or d k 0) {y = o + 0} (omega arith) ∙ get_or-At d o 0 s h

-- The cursor behind a part of known content.
pub At-append : (d : Bytes) (o : ℕ) (x s : Bytes) → At d o (x ++ s) → At d (o + length x) s
At-append d o x s h = (
  drop-drop o (length x) d ∙ (ap (drop (length x)) h.0 ∙ drop-append x s),
  omega (arith, h.1, length-append x s),
)

-- Behind one byte.
pub At-cons : (d : Bytes) (o b : ℕ) (s : Bytes) → At d o (b ∷ s) → At d (o + 1) s
At-cons d o b s h = At-append d o (b ∷ []) s h

-- Behind a word of `k` bytes.
pub At-big_endian :
    (d : Bytes) (o k n : ℕ) (s : Bytes) → At d o (big_endian k n ++ s) → At d (o + k) s
At-big_endian d o k n s h =
    let next = At-append d o (big_endian k n) s h in rw (length-big_endian k n) at next

module _ {ℓ} {E : Type ℓ} where
  pub index-At : (d : Bytes) (o b : ℕ) (s : Bytes) → At d o (b ∷ s) → index {E = E} d o ≡ ok b
  index-At d o b s h = ground (arith, get_or-At_first d o (b ∷ s) h, h.1)

  pub be16-At :
      (d : Bytes) (o n : ℕ) (s : Bytes)
      → n < 2 ^ 16
      → At d o (big_endian 2 n ++ s)
      → be16 {E = E} d o ≡ ok n
  unfolding big_endian
  be16-At d o n s small h =
      let t = big_endian 2 n ++ s in
      ground (arith, get_or-At_first d o t h, get_or-At d o 1 t h, h.1)

  pub be32-At :
      (d : Bytes) (o n : ℕ) (s : Bytes)
      → n < 2 ^ 32
      → At d o (big_endian 4 n ++ s)
      → be32 {E = E} d o ≡ ok n
  unfolding big_endian
  be32-At d o n s small h =
      let t = big_endian 4 n ++ s in
      ground (
        arith,
        get_or-At_first d o t h,
        get_or-At d o 1 t h,
        get_or-At d o 2 t h,
        get_or-At d o 3 t h,
        h.1,
      )

  pub be64-At :
      (d : Bytes) (o n : ℕ) (s : Bytes)
      → n < 2 ^ 64
      → At d o (big_endian 8 n ++ s)
      → be64 {E = E} d o ≡ ok n
  unfolding big_endian
  be64-At d o n s small h =
      let t = big_endian 8 n ++ s in
      ground (
        arith,
        get_or-At_first d o t h,
        get_or-At d o 1 t h,
        get_or-At d o 2 t h,
        get_or-At d o 3 t h,
        get_or-At d o 4 t h,
        get_or-At d o 5 t h,
        get_or-At d o 6 t h,
        get_or-At d o 7 t h,
        h.1,
      )

  pub slice-At :
      (d : Bytes) (o : ℕ) (x s : Bytes) → At d o (x ++ s) → slice {E = E} d o (o + length x) ≡ ok x
  slice-At d o x s h =
      let taken : take (o + length x - o) (drop o d) ≡ x =
        ap (λ (k : ℕ). take k (drop o d)) {y = length x} (omega arith)
        ∙ (ap (take (length x)) h.0 ∙ take-append x s) in
      rw (le→leb o (o + length x) (omega arith)) (
        rw (le→leb (o + length x) (length d) (omega (arith, h.1, length-append x s))) (ap ok taken))
