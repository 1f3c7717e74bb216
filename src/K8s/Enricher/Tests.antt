-- ===== src/K8s/Enricher/Tests.antt =====
-- A cache that is a list, and runs of the enricher with it.
use ebpf_probe.Prelude.{
  ℕ, ◌≡◌, refl, ap, ◌↔◌, inl, inr, true, false, Option, none, some, List, [], ◌∷◌, Bytes, bytes_eq,
  bytes_eq_refl, bytes_eq_sound, codes, length, if◌then◌else◌, Bool-cases,
}
use ebpf_probe.K8s.Client.{PodInfo, Pod, K8sClient, get_pod_by_pid}
use ebpf_probe.K8s.Enricher.{
  Lru, EnrichedEvent, EventEnricher, format_pid, with_pod, look_up, enrich, enriched_with,
  invalidate_cache, start,
}
use ebpf_probe.K8s.Enricher.Cached.{IsLawful}
use ebpf_probe.K8s.Enricher.Keys.{code_point, format_pid_iff}
use ebpf_probe.K8s.Enricher.Reached.{Reach, created, started}
use ebpf_probe.K8s.Enricher.Answers.{IsAnswer, enrich-IsAnswer, enrich_again, invalidate-enrich}

abbrev Entries : Type 0
Entries = List (Bytes × PodInfo)

abbrev entry : Entries → Bytes → Option PodInfo
entry [] key = none
entry ((k, p) ∷ s) key = if bytes_eq k key then some p else entry s key

abbrev without : Entries → Bytes → Entries
without [] key = []
without ((k, p) ∷ s) key = if bytes_eq k key then without s key else (k, p) ∷ without s key

abbrev listed : Lru
listed = record {
  State = Entries;
  get = λ s key. (entry s key, s);
  add = λ s key p. (key, p) ∷ s;
  remove = without;
  purge = λ s. [];
  len = length;
}

without_same : (s : Entries) (key : Bytes) → entry (without s key) key ≡ none
without_same [] key = refl
without_same ((k, p) ∷ s) key = elim (Bool-cases (bytes_eq k key)) [
  | inl same ↦ rw same (without_same s key)
  | inr other ↦ rw (other, other) (without_same s key)
]

without_other :
    (s : Entries) (key other : Bytes)
    → bytes_eq key other ≡ false
    → entry (without s key) other ≡ entry s other
without_other [] key other h = refl
without_other ((k, p) ∷ s) key other h = elim (Bool-cases (bytes_eq k key)) [
  | inl same ↦ rw (same, bytes_eq_sound k key same, h) (without_other s key other h)
  | inr apart ↦
      rw apart (ap (λ o. if bytes_eq k other then some p else o) (without_other s key other h))
]

listed-IsLawful : IsLawful listed
listed-IsLawful = record {
  get_keeps = λ s key other. refl;
  add_same = λ s key p. rw (bytes_eq_refl key) refl;
  add_other = λ s key p other. elim (Bool-cases (bytes_eq key other)) [
    | inl same ↦ inl (bytes_eq_sound key other same)
    | inr apart ↦ inr (inr (rw apart refl))
  ];
  remove_same = without_same;
  remove_other = λ s key other. elim (Bool-cases (bytes_eq key other)) [
    | inl same ↦ inl (rw (← bytes_eq_sound key other same) (without_same s key))
    | inr apart ↦ inr (without_other s key other apart)
  ];
  purge_all = λ s key. refl;
}

abbrev web : Pod
web = record {
  name = codes "web-0";
  namespace = codes "shop";
  node_name = codes "n1";
  uid = codes "u1";
  labels = [];
  phase = codes "Running";
  statuses =
      record { name = codes "nginx"; image = codes "nginx:1"; container_id = codes "c1" } ∷ [];
}

abbrev client_of : List Pod → K8sClient ℕ ℕ
client_of pods = record {
  node_name = codes "n1";
  pod_informer = some (record { store = pods; by_index = λ name key. none });
  node_informer = none;
  running = true;
  stop_closed = false;
}

abbrev request : EnrichedEvent
request = record {
  timestamp_ns = 1;
  pid = 42;
  event_type = codes "http";
  protocol = codes "HTTP";
  src_ip = codes "10.0.0.1";
  dst_ip = codes "10.0.0.2";
  src_port = 4000;
  dst_port = 80;
  bytes = 9;
  latency_ns = 7;
  comm = codes "nginx";
  payload = [];
  pod_name = [];
  pod_namespace = [];
  pod_uid = [];
  node_name = [];
  labels = [];
  container_name = [];
}

abbrev new_enricher : EventEnricher listed ℕ ℕ
new_enricher = record {
  client = some (client_of (web ∷ []));
  pod_cache = [];
  running = false;
  stop_closed = false;
}

abbrev running_enricher : EventEnricher listed ℕ ℕ
running_enricher = record new_enricher { running = true }

started_enricher : start listed new_enricher ≡ running_enricher
unfolding start
started_enricher = refl

running-Reach : Reach listed ℕ ℕ running_enricher []
running-Reach =
    rw (← started_enricher)
      (started new_enricher [] (created (some (client_of (web ∷ []))) [] (λ key. refl)))

enrich-IsAnswer_example :
    IsAnswer listed listed-IsLawful 42
      (client_of (web ∷ []))
      []
      request
      (enrich listed 42 (some request) running_enricher).0
enrich-IsAnswer_example =
    enrich-IsAnswer listed listed-IsLawful running_enricher [] 42 request (client_of (web ∷ []))
      running-Reach refl refl

abbrev web_info : PodInfo
web_info = record {
  name = codes "web-0";
  namespace = codes "shop";
  node_name = codes "n1";
  uid = codes "u1";
  labels = [];
  containers = web.statuses;
}

web_found : (look_up listed 42 (client_of (web ∷ [])) []).0 ≡ some web_info
unfolding look_up
web_found = refl

-- The pod is gone, and the event still gets it.
enrich_again_example :
    (enrich listed 42
      (some request)
      (record ((enrich listed 42 (some request) running_enricher).1) {
        client = some (client_of []);
      })).0
    ≡ some (with_pod web_info request)
enrich_again_example =
    enrich_again listed listed-IsLawful 42 request request running_enricher (client_of (web ∷ []))
      (client_of []) web_info refl refl web_found

format_pid_iff_example :
    (format_pid 0x110000 ≡ format_pid 0x110001) ↔ (code_point 0x110000 ≡ code_point 0x110001)
format_pid_iff_example = format_pid_iff 0x110000 0x110001

shared_key : format_pid 0x110000 ≡ format_pid 0x110001
shared_key = format_pid_iff_example.1 refl

invalidate-enrich_example :
    (enrich listed 42 (some request) (invalidate_cache listed 42 running_enricher)).0
    ≡ some (enriched_with (get_pod_by_pid (client_of (web ∷ [])) 42) (codes "n1") request)
invalidate-enrich_example =
    invalidate-enrich listed listed-IsLawful 42 request running_enricher (client_of (web ∷ [])) refl
      refl
