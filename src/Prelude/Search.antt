-- ===== src/Prelude/Search.antt =====
-- Go strings as byte lists: searching, cutting and splitting.
use Prim.Native.Nat.{ℕ, suc, ◌-◌}
use mathlib.Core.Path.{◌≡◌, refl, ap, ◌∙◌}
use mathlib.Core.Logic.{◌≢◌}
use mathlib.Core.Bool.{Bool, true, ◌&&◌, ◌||◌}
use mathlib.Core.List.{List, [], ◌∷◌, ◌++◌}
use mathlib.Core.Option.{Option, none, some}
use native.Mathlib.Omega.{arith}
use ebpf_probe.Prelude.Tests.{leb, ◌==◌, if◌then◌else◌}
use ebpf_probe.Prelude.Lists.{length, take, drop, All, length-append, drop-append, take-append}
use ebpf_probe.Prelude.Go.{Bytes}
use ebpf_probe.Prelude.Text.{bytes_eq, has_prefix, bytes_eq_refl}

-- `strings.Contains(s, part)`
unfoldable pub contains : Bytes → Bytes → Bool
unfolding has_prefix
contains [] part = has_prefix [] part
contains (c ∷ s) part = has_prefix (c ∷ s) part || contains s part

-- `strings.HasSuffix(s, suffix)`
unfoldable pub has_suffix : Bytes → Bytes → Bool
unfolding bytes_eq
has_suffix s suffix =
    leb (length suffix) (length s) && bytes_eq (drop (length s - length suffix) s) suffix

-- `strings.TrimSuffix(s, suffix)`
unfoldable pub trim_suffix : Bytes → Bytes → Bytes
unfolding has_suffix
trim_suffix s suffix = if has_suffix s suffix then take (length s - length suffix) s else s

-- `strings.TrimPrefix(s, prefix)`
unfoldable pub trim_prefix : Bytes → Bytes → Bytes
unfolding has_prefix
trim_prefix s prefix = if has_prefix s prefix then drop (length prefix) s else s

abbrev pub later_by_one : Option ℕ → Option ℕ
later_by_one none = none
later_by_one (some i) = some (suc i)

-- `strings.Index(s, part)`; none is -1.
unfoldable pub index_of : Bytes → Bytes → Option ℕ
unfolding has_prefix
index_of [] part = if has_prefix [] part then some 0 else none
index_of (c ∷ s) part = if has_prefix (c ∷ s) part then some 0 else later_by_one (index_of s part)

abbrev pub onto_first : ℕ → List Bytes → List Bytes
onto_first c [] = (c ∷ []) ∷ []
onto_first c (w ∷ words) = (c ∷ w) ∷ words

-- `strings.Split(s, sep)` for a separator of one byte.
unfoldable pub split : ℕ → Bytes → List Bytes
split sep [] = [] ∷ []
split sep (c ∷ s) = let rest = split sep s in if c == sep then [] ∷ rest else onto_first c rest

pub split-free : (sep : ℕ) (s : Bytes) → All (λ c. c ≢ sep) s → split sep s ≡ s ∷ []
unfolding split
split-free sep [] h = refl
split-free sep (c ∷ s) h = ground (arith, split-free sep s h.1)

-- A text without the separator, in front of one.
pub split-append :
    (sep : ℕ) (s rest : Bytes)
    → All (λ c. c ≢ sep) s
    → split sep (s ++ sep ∷ rest) ≡ s ∷ split sep rest
unfolding split
split-append sep [] rest h = ground arith
split-append sep (c ∷ s) rest h = ground (arith, split-append sep s rest h.1)

-- A part that begins with a byte that the text before it does not have.
pub index_of-append :
    (s : Bytes) (c : ℕ) (part rest : Bytes)
    → All (λ b. b ≢ c) s
    → has_prefix (c ∷ part ++ rest) (c ∷ part) ≡ true
    → index_of (s ++ (c ∷ part ++ rest)) (c ∷ part) ≡ some (length s)
unfolding index_of
index_of-append [] c part rest h p = rw p refl
index_of-append (b ∷ s) c part rest h p = ground (arith, index_of-append s c part rest h.1 p)

length_before : (s suffix : Bytes) → length (s ++ suffix) - length suffix ≡ length s
length_before s suffix = omega (arith, length-append s suffix)

drop_before :
    (s suffix : Bytes) → drop (length (s ++ suffix) - length suffix) (s ++ suffix) ≡ suffix
drop_before s suffix =
    ap (λ (k : ℕ). drop k (s ++ suffix)) (length_before s suffix) ∙ drop-append s suffix

take_before : (s suffix : Bytes) → take (length (s ++ suffix) - length suffix) (s ++ suffix) ≡ s
take_before s suffix =
    ap (λ (k : ℕ). take k (s ++ suffix)) (length_before s suffix) ∙ take-append s suffix

pub has_suffix-append : (s suffix : Bytes) → has_suffix (s ++ suffix) suffix ≡ true
unfolding has_suffix
has_suffix-append s suffix =
    rw (drop_before s suffix) (ground (arith, length-append s suffix, bytes_eq_refl suffix))

pub trim_suffix-append : (s suffix : Bytes) → trim_suffix (s ++ suffix) suffix ≡ s
unfolding trim_suffix
trim_suffix-append s suffix = rw (has_suffix-append s suffix) (take_before s suffix)

pub contains_prefix : (s t part : Bytes) → contains t part ≡ true → contains (s ++ t) part ≡ true
unfolding contains
contains_prefix [] t part h = h
contains_prefix (c ∷ s) t part h = ground (arith, contains_prefix s t part h)
