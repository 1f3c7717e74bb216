-- ===== src/K8s/Enricher.antt =====
-- enricher.go: events with the pod of their process. The cache is the library's
-- (golang-lru): a record of its operations. The events keep their fields; the loop that would clean
-- the cache does nothing and is left out.
pub mod Keys
pub mod Cached
pub mod Reached
pub mod Answers
mod Tests
use ebpf_probe.Prelude.{
  ℕ, ◌+◌, ◌/◌, ◌%◌, Bool, true, false, not, ◌&&◌, ◌||◌, Option, none, some, List, [], ◌∷◌, Outcome,
  ok, panic, Bytes, ltb, leb, if◌then◌else◌,
}
use ebpf_probe.K8s.Client.{Labels, ContainerInfo, PodInfo, K8sClient, get_pod_by_pid}

-- The cache: a look-up also notes that its entry was used.
pub record Lru : Type 1 where
  pub State : Type 0
  pub get : State → Bytes → Option PodInfo × State
  pub add : State → Bytes → PodInfo → State
  pub remove : State → Bytes → State
  pub purge : State → State
  pub len : State → ℕ

pub record EnrichedEvent : Type 0 where
  pub timestamp_ns : ℕ
  pub pid : ℕ
  pub event_type : Bytes
  pub protocol : Bytes
  pub src_ip : Bytes
  pub dst_ip : Bytes
  pub src_port : ℕ
  pub dst_port : ℕ
  pub bytes : ℕ
  pub latency_ns : ℕ
  pub comm : Bytes
  pub payload : Bytes
  pub pod_name : Bytes
  pub pod_namespace : Bytes
  pub pod_uid : Bytes
  pub node_name : Bytes
  pub labels : Labels
  pub container_name : Bytes

-- `string(rune(pid))`: UTF-8, with U+FFFD for what is no code point. The conversion to a rune of 32
-- bits makes the numbers from 2^31 on negative, which are no code points either.
unfoldable pub format_pid : ℕ → Bytes
format_pid n =
    if ltb n 0x80
    then n ∷ []
    else if ltb n 0x800
    then (0xc0 + n / 64) ∷ (0x80 + n % 64) ∷ []
    else if (leb 0xd800 n && leb n 0xdfff) || ltb 0x10ffff n
    then 0xef ∷ 0xbf ∷ 0xbd ∷ []
    else if ltb n 0x10000
    then (0xe0 + n / 4096) ∷ (0x80 + n / 64 % 64) ∷ (0x80 + n % 64) ∷ []
    else (0xf0 + n / 262144) ∷ (0x80 + n / 4096 % 64) ∷ (0x80 + n / 64 % 64) ∷ (0x80 + n % 64) ∷ []

abbrev pub container_of : List ContainerInfo → Bytes → Bytes
container_of [] old = old
container_of (c ∷ containers) old = c.name

unfoldable pub with_pod : PodInfo → EnrichedEvent → EnrichedEvent
with_pod p ev = record ev {
  pod_name = p.name;
  pod_namespace = p.namespace;
  pod_uid = p.uid;
  node_name = p.node_name;
  labels = p.labels;
  container_name = container_of p.containers ev.container_name;
}

abbrev pub enriched_with : Option PodInfo → Bytes → EnrichedEvent → EnrichedEvent
enriched_with none node ev = record ev { node_name = node }
enriched_with (some p) node ev = with_pod p ev

pub record EventEnricher (L : Lru) (Address Condition : Type 0) : Type 0 where
  pub client : Option (K8sClient Address Condition)
  pub pod_cache : L.State
  pub running : Bool
  pub stop_closed : Bool

abbrev pub cached : (L : Lru) → ℕ → Option PodInfo → L.State → L.State
cached L pid none s = s
cached L pid (some p) s = L.add s (format_pid pid) p

module _ (L : Lru) {Address Condition : Type 0} where
  unfoldable pub start : EventEnricher L Address Condition → EventEnricher L Address Condition
  start e = if e.running then e else record e { running = true }

  -- Closing a closed channel panics.
  unfoldable pub stop :
      EventEnricher L Address Condition → Outcome ⊥ (EventEnricher L Address Condition)
  stop e =
      if not e.running
      then ok e
      else if e.stop_closed
      then panic
      else ok (record e { stop_closed = true; running = false })

  -- The pod, from the cache or else from the client, and the cache afterwards.
  abbrev pub or_client :
      ℕ → K8sClient Address Condition → Option PodInfo × L.State → Option PodInfo × L.State
  or_client pid c (some p, s) = (some p, s)
  or_client pid c (none, s) = (get_pod_by_pid c pid, cached L pid (get_pod_by_pid c pid) s)

  unfoldable pub look_up : ℕ → K8sClient Address Condition → L.State → Option PodInfo × L.State
  unfolding get_pod_by_pid format_pid
  look_up pid c s = or_client pid c (L.get s (format_pid pid))

  abbrev pub enrich_with :
      ℕ
      → Option (K8sClient Address Condition)
      → EnrichedEvent
      → EventEnricher L Address Condition
      → EnrichedEvent × EventEnricher L Address Condition
  enrich_with pid none ev e = (ev, e)
  enrich_with pid (some c) ev e =
      let found = look_up pid c e.pod_cache in
      (enriched_with found.0 c.node_name ev, record e { pod_cache = found.1 })

  -- None is a nil event.
  unfoldable pub enrich :
      ℕ
      → Option EnrichedEvent
      → EventEnricher L Address Condition
      → Option EnrichedEvent × EventEnricher L Address Condition
  unfolding look_up with_pod
  enrich pid none e = (none, e)
  enrich pid (some ev) e =
      if not e.running
      then (some ev, e)
      else let r = enrich_with pid e.client ev e in (some r.0, r.1)

  unfoldable pub invalidate_cache :
      ℕ → EventEnricher L Address Condition → EventEnricher L Address Condition
  unfolding format_pid
  invalidate_cache pid e = record e { pod_cache = L.remove e.pod_cache (format_pid pid) }

  unfoldable pub invalidate_all_cache :
      EventEnricher L Address Condition → EventEnricher L Address Condition
  invalidate_all_cache e = record e { pod_cache = L.purge e.pod_cache }
