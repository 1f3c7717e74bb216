-- ===== src/K8s/Client/Tests.antt =====
-- Runs of the client on concrete stores.
use ebpf_probe.Prelude.{ℕ, ◌≡◌, refl, none, some, List, [], ◌∷◌, Bytes, codes, true, false}
use ebpf_probe.K8s.Client.{ContainerInfo, Pod, Informer, K8sClient, get_pod_by_pid}
use ebpf_probe.K8s.Client.Pods.{is_candidate, find, info_of?, stored, get_pod_by_pid-find}

abbrev nginx : ContainerInfo
nginx = record { name = codes "nginx"; image = codes "nginx:1"; container_id = codes "c1" }

abbrev pod : Bytes → Bytes → Bytes → List ContainerInfo → Pod
pod name node phase statuses = record {
  name = name;
  namespace = codes "shop";
  node_name = node;
  uid = codes "u1";
  labels = [];
  phase = phase;
  statuses = statuses;
}

abbrev pods : Informer Pod
pods = record {
  store =
      pod (codes "a") (codes "n2") (codes "Running") (nginx ∷ [])
      ∷ pod (codes "b") (codes "n1") (codes "Pending") (nginx ∷ [])
      ∷ pod (codes "c") (codes "n1") (codes "Running") []
      ∷ pod (codes "d") (codes "n1") (codes "Running") (nginx ∷ [])
      ∷ [];
  by_index = λ name key. none;
}

abbrev client : K8sClient ℕ ℕ
client = record {
  node_name = codes "n1";
  pod_informer = some pods;
  node_informer = none;
  running = true;
  stop_closed = false;
}

get_pod_by_pid-find_example :
    get_pod_by_pid client 7 ≡ info_of? (find (is_candidate (codes "n1")) (stored (some pods)))
get_pod_by_pid-find_example = get_pod_by_pid-find client 7

found_d :
    get_pod_by_pid client 7
    ≡ some (record {
      name = codes "d";
      namespace = codes "shop";
      node_name = codes "n1";
      uid = codes "u1";
      labels = [];
      containers = nginx ∷ [];
    })
unfolding get_pod_by_pid
found_d = refl
