-- ===== src/K8s/Client.antt =====
-- client.go: K8sClient. The informers are the library's: what their stores and indexes answer is a
-- record, and so is whether they synchronise in time. Making the clientset from a configuration and
-- waiting with a timeout are left out.
pub mod Pods
mod Tests
use mathlib.Core.List.{filter}
use ebpf_probe.Prelude.{
  ℕ, Bool, true, false, not, Option, none, some, List, [], ◌∷◌, Outcome, ok, err, panic, Bytes,
  bytes_eq, codes, length, map, if◌then◌else◌,
}

abbrev pub Labels : Type 0
Labels = List (Bytes × Bytes)

pub record ContainerInfo : Type 0 where
  pub name : Bytes
  pub image : Bytes
  pub container_id : Bytes

pub record PodInfo : Type 0 where
  pub name : Bytes
  pub namespace : Bytes
  pub node_name : Bytes
  pub uid : Bytes
  pub labels : Labels
  pub containers : List ContainerInfo

-- The fields of the library's pods and nodes that the code reads.
pub record Pod : Type 0 where
  pub name : Bytes
  pub namespace : Bytes
  pub node_name : Bytes
  pub uid : Bytes
  pub labels : Labels
  pub phase : Bytes
  pub statuses : List ContainerInfo

-- The addresses and the conditions are of any type.
pub record NodeInfo (Address Condition : Type 0) : Type 0 where
  pub name : Bytes
  pub labels : Labels
  pub addresses : List Address
  pub conditions : List Condition

-- An informer: its store, and what its index of a name has under a key, or none for an error.
pub record Informer (A : Type 0) : Type 0 where
  pub store : List A
  pub by_index : Bytes → Bytes → Option (List A)

pub record K8sClient (Address Condition : Type 0) : Type 0 where
  pub node_name : Bytes
  pub pod_informer : Option (Informer Pod)
  pub node_informer : Option (Informer (NodeInfo Address Condition))
  pub running : Bool
  pub stop_closed : Bool

unfoldable pub info_of : Pod → List ContainerInfo → PodInfo
info_of p containers = record {
  name = p.name;
  namespace = p.namespace;
  node_name = p.node_name;
  uid = p.uid;
  labels = p.labels;
  containers = containers;
}

-- The loop over the statuses, which ends at the first.
abbrev pub first_container : Pod → List ContainerInfo → Option PodInfo
first_container p [] = none
first_container p (status ∷ statuses) = some (info_of p (status ∷ []))

abbrev pub or_next : Option PodInfo → Option PodInfo → Option PodInfo
or_next none later = later
or_next (some info) later = some info

unfoldable pub pod_loop : Bytes → List Pod → Option PodInfo
unfolding bytes_eq info_of
pod_loop node [] = none
pod_loop node (p ∷ pods) =
    let later = pod_loop node pods in
    if not (bytes_eq p.node_name node)
    then later
    else if not (bytes_eq p.phase (codes "Running"))
    then later
    else or_next (first_container p p.statuses) later

-- `objs[0]`, when there is one.
abbrev pub first_pod : Option (List Pod) → Option PodInfo
first_pod none = none
first_pod (some []) = none
first_pod (some (p ∷ pods)) = some (info_of p [])

abbrev pub all_pods : Option (List Pod) → List PodInfo
all_pods none = []
all_pods (some pods) = map (λ p. info_of p []) pods

-- What the API and the informers do when the client starts.
pub record Cluster (Address Condition : Type 0) : Type 0 where
  pub pods : Informer Pod
  pub pods_synced : Bool
  pub nodes : Informer (NodeInfo Address Condition)
  pub nodes_synced : Bool

module _ {Address Condition : Type 0} where
  abbrev pub first_node :
      Option (List (NodeInfo Address Condition)) → Option (NodeInfo Address Condition)
  first_node none = none
  first_node (some []) = none
  first_node (some (n ∷ nodes)) = some n

  -- The informers stay set when one of them does not synchronise; false is an error.
  unfoldable pub start :
      Cluster Address Condition → K8sClient Address Condition → K8sClient Address Condition × Bool
  start env c =
      if c.running
      then (c, true)
      else if not env.pods_synced
      then (record c { pod_informer = some env.pods }, false)
      else if not env.nodes_synced
      then (record c { pod_informer = some env.pods; node_informer = some env.nodes }, false)
      else (
        record c { pod_informer = some env.pods; node_informer = some env.nodes; running = true },
        true,
      )

  -- Closing a closed channel panics.
  unfoldable pub stop : K8sClient Address Condition → Outcome ⊥ (K8sClient Address Condition)
  stop c =
      if not c.running
      then ok c
      else if c.stop_closed
      then panic
      else ok (record c { stop_closed = true; running = false })

  unfoldable pub get_pod_by_pid : K8sClient Address Condition → ℕ → Option PodInfo
  unfolding pod_loop
  get_pod_by_pid c pid = elim (c.pod_informer) [
    | none ↦ none
    | some i ↦ pod_loop c.node_name i.store
  ]

  unfoldable pub get_pod_by_uid : K8sClient Address Condition → Bytes → Option PodInfo
  unfolding info_of
  get_pod_by_uid c uid = elim (c.pod_informer) [
    | none ↦ none
    | some i ↦ first_pod (i.by_index (codes "uid") uid)
  ]

  unfoldable pub get_pods_by_node : K8sClient Address Condition → Bytes → List PodInfo
  unfolding info_of
  get_pods_by_node c node = elim (c.pod_informer) [
    | none ↦ []
    | some i ↦ all_pods (i.by_index (codes "node") node)
  ]

  unfoldable pub get_node_info : K8sClient Address Condition → Option (NodeInfo Address Condition)
  get_node_info c = elim (c.node_informer) [
    | none ↦ none
    | some i ↦ first_node (i.by_index (codes "name") c.node_name)
  ]

  unfoldable pub get_pod_count : K8sClient Address Condition → ℕ
  get_pod_count c = elim (c.pod_informer) [ none ↦ 0 | some i ↦ length i.store ]
