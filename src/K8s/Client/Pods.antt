-- ===== src/K8s/Client/Pods.antt =====
-- What the look-ups of pods find.
use ebpf_probe.Prelude.{
  ℕ, ◌≡◌, refl, Bool, true, false, not, ◌&&◌, Option, none, some, List, [], ◌∷◌, Bytes, bytes_eq,
  codes, if◌then◌else◌,
}
use ebpf_probe.K8s.Client.{
  ContainerInfo, PodInfo, Pod, Informer, K8sClient, first_container, or_next, pod_loop,
  get_pod_by_pid,
}

-- A pod that runs on the node and has a container.
abbrev pub has_status : List ContainerInfo → Bool
has_status [] = false
has_status (status ∷ statuses) = true

unfoldable pub is_candidate : Bytes → Pod → Bool
unfolding bytes_eq
is_candidate node p =
    bytes_eq p.node_name node && (bytes_eq p.phase (codes "Running") && has_status p.statuses)

-- The first element that satisfies a test.
abbrev pub find : (Pod → Bool) → List Pod → Option Pod
find test [] = none
find test (p ∷ pods) = if test p then some p else find test pods

abbrev pub info_of? : Option Pod → Option PodInfo
info_of? none = none
info_of? (some p) = first_container p p.statuses

abbrev pub stored : {A : Type 0} → Option (Informer A) → List A
stored none = []
stored (some i) = i.store

one_pod :
    (a b : Bool) (p : Pod) (statuses : List ContainerInfo) (later : Option PodInfo)
    (rest : Option Pod)
    → p.statuses ≡ statuses
    → later ≡ info_of? rest
    → (if not a then later else if not b then later else or_next (first_container p statuses) later)
      ≡ info_of? (if a && (b && has_status statuses) then some p else rest)
one_pod false b p statuses later rest same h = h
one_pod true false p statuses later rest same h = h
one_pod true true p [] later rest same h = h
one_pod true true p (status ∷ statuses) later rest same h = rw same refl

pod_loop-find :
    (node : Bytes) (pods : List Pod) → pod_loop node pods ≡ info_of? (find (is_candidate node) pods)
unfolding pod_loop is_candidate
pod_loop-find node [] = refl
pod_loop-find node (p ∷ pods) =
    one_pod (bytes_eq p.node_name node) (bytes_eq p.phase (codes "Running")) p p.statuses
      (pod_loop node pods) (find (is_candidate node) pods) refl (pod_loop-find node pods)

module _ {Address Condition : Type 0} where
  -- Whatever the process number, the look-up answers with the first pod of the store that runs on
  -- the client's node and has a container, and with the first container of that pod.
  pub get_pod_by_pid-find :
      (c : K8sClient Address Condition) (pid : ℕ)
      → get_pod_by_pid c pid ≡ info_of? (find (is_candidate c.node_name) (stored c.pod_informer))
  unfolding get_pod_by_pid
  get_pod_by_pid-find c pid = in_informer c.pod_informer
    where
      in_informer :
          (i : Option (Informer Pod))
          → elim i [ none ↦ none | some j ↦ pod_loop c.node_name j.store ]
            ≡ info_of? (find (is_candidate c.node_name) (stored i))
      in_informer none = refl
      in_informer (some i) = pod_loop-find c.node_name i.store
