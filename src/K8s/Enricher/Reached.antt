-- ===== src/K8s/Enricher/Reached.antt =====
-- The enricher as it runs: what the events get from the cache.
use ebpf_probe.Prelude.{
  ℕ, ◌≡◌, refl, inl, inr, true, false, Option, none, some, List, [], ok, Bytes, Bool-cases, arith,
}
use ebpf_probe.K8s.Client.{PodInfo, K8sClient, get_pod_by_pid}
use ebpf_probe.K8s.Enricher.{
  Lru, EnrichedEvent, EventEnricher, format_pid, enriched_with, look_up, enrich, start, stop,
  invalidate_cache, invalidate_all_cache,
}
use ebpf_probe.K8s.Enricher.Cached.{
  view, IsLawful, note, earlier_note, IsKnown, part-IsKnown, look_up-IsKnown,
}

module _ (L : Lru) (Address Condition : Type 0) where
  abbrev pub answer : ℕ → Option (K8sClient Address Condition) → Option PodInfo
  answer pid none = none
  answer pid (some c) = get_pod_by_pid c pid

  -- The enricher after some calls, and the pods that the client had for their processes. What the
  -- informers hold changes at any time.
  pub data Reach : EventEnricher L Address Condition → List (ℕ × PodInfo) → Type 0 where
    created :
        (c : Option (K8sClient Address Condition)) (s : L.State)
        → ((key : Bytes) → view L s key ≡ none)
        → Reach (record { client = c; pod_cache = s; running = false; stop_closed = false }) []
    changed :
        (e : EventEnricher L Address Condition) (answers : List (ℕ × PodInfo))
        (c : K8sClient Address Condition)
        → Reach e answers
        → Reach (record e { client = some c }) answers
    started :
        (e : EventEnricher L Address Condition) (answers : List (ℕ × PodInfo))
        → Reach e answers
        → Reach (start L e) answers
    stopped :
        (e e' : EventEnricher L Address Condition) (answers : List (ℕ × PodInfo))
        → stop L e ≡ ok e'
        → Reach e answers
        → Reach e' answers
    enriched :
        (e : EventEnricher L Address Condition) (answers : List (ℕ × PodInfo)) (pid : ℕ)
        (ev : Option EnrichedEvent)
        → Reach e answers
        → Reach (enrich L pid ev e).1 (note pid (answer pid e.client) answers)
    invalidated :
        (e : EventEnricher L Address Condition) (answers : List (ℕ × PodInfo)) (pid : ℕ)
        → Reach e answers
        → Reach (invalidate_cache L pid e) answers
    purged :
        (e : EventEnricher L Address Condition) (answers : List (ℕ × PodInfo))
        → Reach e answers
        → Reach (invalidate_all_cache L e) answers

module _ (L : Lru) {Address Condition : Type 0} where
  stop_cache :
      (e e' : EventEnricher L Address Condition) → stop L e ≡ ok e' → e.pod_cache ≡ e'.pod_cache
  unfolding stop
  stop_cache e e' h = ground arith

  start_cache : (e : EventEnricher L Address Condition) → (start L e).pod_cache ≡ e.pod_cache
  unfolding start
  start_cache e = ground arith

  pub enrich_off :
      (pid : ℕ) (ev : EnrichedEvent) (e : EventEnricher L Address Condition)
      → e.running ≡ false
      → enrich L pid (some ev) e ≡ (some ev, e)
  unfolding enrich
  enrich_off pid ev e off = rw off refl

  pub enrich_alone :
      (pid : ℕ) (ev : EnrichedEvent) (e : EventEnricher L Address Condition)
      → e.client ≡ none
      → enrich L pid (some ev) e ≡ (some ev, e)
  unfolding enrich
  enrich_alone pid ev e h = elim (Bool-cases e.running) [
    | inl on ↦ rw (on, h) refl
    | inr off ↦ rw off refl
  ]

  -- A running enricher with a client uses the cache and then the client.
  pub enrich-look_up :
      (pid : ℕ) (ev : EnrichedEvent) (e : EventEnricher L Address Condition)
      (c : K8sClient Address Condition)
      → e.running ≡ true
      → e.client ≡ some c
      → enrich L pid (some ev) e ≡ (
        some (enriched_with (look_up L pid c e.pod_cache).0 c.node_name ev),
        record e { pod_cache = (look_up L pid c e.pod_cache).1 },
      )
  unfolding enrich
  enrich-look_up pid ev e c on h = rw (on, h) refl

  module _ (laws : IsLawful L) where
    enrich-IsKnown :
        (pid : ℕ) (o : Option EnrichedEvent) (e : EventEnricher L Address Condition)
        (answers : List (ℕ × PodInfo))
        → IsKnown L e.pod_cache answers
        → IsKnown L
            (enrich L pid o e).1.pod_cache
            (note pid (answer L Address Condition pid e.client) answers)
    unfolding enrich
    enrich-IsKnown pid none e answers known = λ key p h.
        earlier_note pid (answer L Address Condition pid e.client) answers (known key p h)
    enrich-IsKnown pid (some ev) e answers known = by_client e.client refl
      where
        kept :
            enrich L pid (some ev) e ≡ (some ev, e)
            → IsKnown L
                (enrich L pid (some ev) e).1.pod_cache
                (note pid (answer L Address Condition pid e.client) answers)
        kept same = rw same (λ key p h.
            earlier_note pid (answer L Address Condition pid e.client) answers (known key p h))

        by_client :
            (c : Option (K8sClient Address Condition))
            → e.client ≡ c
            → IsKnown L
                (enrich L pid (some ev) e).1.pod_cache
                (note pid (answer L Address Condition pid e.client) answers)
        by_client none h = kept (enrich_alone pid ev e h)
        by_client (some c) h = elim (Bool-cases e.running) [
          | inl on ↦
              rw (enrich-look_up pid ev e c on h, h)
                (look_up-IsKnown L laws pid c e.pod_cache answers known)
          | inr off ↦ kept (enrich_off pid ev e off)
        ]

    invalidate_cache-IsKnown :
        (pid : ℕ) (e : EventEnricher L Address Condition) (answers : List (ℕ × PodInfo))
        → IsKnown L e.pod_cache answers
        → IsKnown L (invalidate_cache L pid e).pod_cache answers
    unfolding invalidate_cache
    invalidate_cache-IsKnown pid e answers known =
        part-IsKnown L e.pod_cache (L.remove e.pod_cache (format_pid pid)) answers known
          (laws.remove_other e.pod_cache (format_pid pid))

    invalidate_all_cache-IsKnown :
        (e : EventEnricher L Address Condition) (answers : List (ℕ × PodInfo))
        → IsKnown L e.pod_cache answers
        → IsKnown L (invalidate_all_cache L e).pod_cache answers
    unfolding invalidate_all_cache
    invalidate_all_cache-IsKnown e answers known =
        part-IsKnown L e.pod_cache (L.purge e.pod_cache) answers known
          (λ key. inl (laws.purge_all e.pod_cache key))

    -- Every pod in the cache is one that the client had at some call, for a process with this key.
    pub Reach-IsKnown :
        (e : EventEnricher L Address Condition) (answers : List (ℕ × PodInfo))
        → Reach L Address Condition e answers
        → IsKnown L e.pod_cache answers
    Reach-IsKnown _ _ (created c s empty) = λ key p h. empty_key (empty key) h
      where
        empty_key : {A : Type 0} {o : Option PodInfo} {p : PodInfo} → o ≡ none → o ≡ some p → A
        empty_key a b = cc
    Reach-IsKnown _ _ (changed e answers c r) = Reach-IsKnown e answers r
    Reach-IsKnown _ _ (started e answers r) = rw (start_cache e) (Reach-IsKnown e answers r)
    Reach-IsKnown _ _ (stopped e e' answers h r) =
        rw (← stop_cache e e' h) (Reach-IsKnown e answers r)
    Reach-IsKnown _ _ (enriched e answers pid ev r) =
        enrich-IsKnown pid ev e answers (Reach-IsKnown e answers r)
    Reach-IsKnown _ _ (invalidated e answers pid r) =
        invalidate_cache-IsKnown pid e answers (Reach-IsKnown e answers r)
    Reach-IsKnown _ _ (purged e answers r) =
        invalidate_all_cache-IsKnown e answers (Reach-IsKnown e answers r)
