-- ===== src/K8s/Enricher/Cached.antt =====
-- The cache of the pods: what it holds as the enricher runs, and what the events get from it.
use mathlib.Core.Option.{some-injective}
use ebpf_probe.Prelude.{ℕ, ◌≡◌, ap, sym, ◌∙◌, ◌⊎◌, inl, inr, Option, none, some, List, ◌∷◌, Bytes}
use ebpf_probe.K8s.Client.{PodInfo, K8sClient, get_pod_by_pid}
use ebpf_probe.K8s.Enricher.{Lru, format_pid, cached, or_client, look_up}

abbrev pub view : (L : Lru) → L.State → Bytes → Option PodInfo
view L s key = (L.get s key).0

-- The documented behaviour of a cache that may forget entries when one is added.
pub record IsLawful (L : Lru) : Type 0 where
  pub get_keeps : (s : L.State) (key other : Bytes) → view L (L.get s key).1 other ≡ view L s other
  pub add_same : (s : L.State) (key : Bytes) (p : PodInfo) → view L (L.add s key p) key ≡ some p
  pub add_other :
      (s : L.State) (key : Bytes) (p : PodInfo) (other : Bytes)
      → (key ≡ other)
        ⊎ ((view L (L.add s key p) other ≡ none) ⊎ (view L (L.add s key p) other ≡ view L s other))
  pub remove_same : (s : L.State) (key : Bytes) → view L (L.remove s key) key ≡ none
  pub remove_other :
      (s : L.State) (key other : Bytes)
      → (view L (L.remove s key) other ≡ none) ⊎ (view L (L.remove s key) other ≡ view L s other)
  pub purge_all : (s : L.State) (key : Bytes) → view L (L.purge s) key ≡ none

-- A pod that the client answered with, for a process with this key.
pub data Came (key : Bytes) (p : PodInfo) : List (ℕ × PodInfo) → Type 0 where
  came :
      (pid : ℕ) (answers : List (ℕ × PodInfo))
      → format_pid pid ≡ key
      → Came key p ((pid, p) ∷ answers)
  earlier :
      (a : ℕ × PodInfo) (answers : List (ℕ × PodInfo))
      → Came key p answers
      → Came key p (a ∷ answers)

abbrev pub note : ℕ → Option PodInfo → List (ℕ × PodInfo) → List (ℕ × PodInfo)
note pid none answers = answers
note pid (some p) answers = (pid, p) ∷ answers

pub earlier_note :
    (pid : ℕ) (o : Option PodInfo) (answers : List (ℕ × PodInfo)) {key : Bytes} {p : PodInfo}
    → Came key p answers
    → Came key p (note pid o answers)
earlier_note pid none answers c = c
earlier_note pid (some q) answers c = earlier (pid, q) answers c

cons-Came :
    {key : Bytes} {p q : PodInfo} (pid : ℕ) (answers : List (ℕ × PodInfo))
    → format_pid pid ≡ key
    → q ≡ p
    → Came key p ((pid, q) ∷ answers)
cons-Came {key} {p} {q} pid answers same e = rw e (came pid answers same)

module _ (L : Lru) where
  abbrev pub IsKnown : L.State → List (ℕ × PodInfo) → Type 0
  IsKnown s answers = (key : Bytes) (p : PodInfo) → view L s key ≡ some p → Came key p answers

  -- A cache whose every entry stood in another, or is forgotten.
  pub part-IsKnown :
      (s t : L.State) (answers : List (ℕ × PodInfo))
      → IsKnown s answers
      → ((key : Bytes) → (view L t key ≡ none) ⊎ (view L t key ≡ view L s key))
      → IsKnown t answers
  part-IsKnown s t answers k part key p e = elim (part key) [
    | inl gone ↦ cc
    | inr same ↦ k key p (sym same ∙ e)
  ]

  module _ (laws : IsLawful L) where
    get-IsKnown :
        (s : L.State) (k : Bytes) (answers : List (ℕ × PodInfo))
        → IsKnown s answers
        → IsKnown (L.get s k).1 answers
    get-IsKnown s k answers known key p e = known key p (sym (laws.get_keeps s k key) ∙ e)

    cached-IsKnown :
        (s : L.State) (pid : ℕ) (o : Option PodInfo) (answers : List (ℕ × PodInfo))
        → IsKnown s answers
        → IsKnown (cached L pid o s) (note pid o answers)
    cached-IsKnown s pid none answers known = known
    cached-IsKnown s pid (some q) answers known = λ key p e.
        elim (laws.add_other s (format_pid pid) q key) [
          | inl same ↦ cons-Came pid answers same (
              some-injective q p (
                sym (laws.add_same s (format_pid pid) q)
                ∙ (ap (λ k. view L (L.add s (format_pid pid) q) k) same ∙ e)))
          | inr (inl gone) ↦ cc
          | inr (inr kept) ↦ earlier (pid, q) answers (known key p (sym kept ∙ e))
        ]

    or_client-IsKnown :
        {Address Condition : Type 0} (pid : ℕ) (c : K8sClient Address Condition)
        (found : Option PodInfo × L.State) (answers : List (ℕ × PodInfo))
        → IsKnown found.1 answers
        → IsKnown (or_client L pid c found).1 (note pid (get_pod_by_pid c pid) answers)
    or_client-IsKnown pid c (some p, s) answers known =
        λ key q e. earlier_note pid (get_pod_by_pid c pid) answers (known key q e)
    or_client-IsKnown pid c (none, s) answers known =
        cached-IsKnown s pid (get_pod_by_pid c pid) answers known

    pub look_up-IsKnown :
        {Address Condition : Type 0} (pid : ℕ) (c : K8sClient Address Condition) (s : L.State)
        (answers : List (ℕ × PodInfo))
        → IsKnown s answers
        → IsKnown (look_up L pid c s).1 (note pid (get_pod_by_pid c pid) answers)
    unfolding look_up
    look_up-IsKnown pid c s answers known =
        or_client-IsKnown pid c (L.get s (format_pid pid)) answers
          (get-IsKnown s (format_pid pid) answers known)
