-- ===== src/K8s/Enricher/Answers.antt =====
-- What a call of Enrich returns, after any calls before it.
use ebpf_probe.Prelude.{ℕ, ◌≡◌, refl, ap, ◌∙◌, ◌⊎◌, inl, inr, true, Option, none, some, List}
use ebpf_probe.K8s.Client.{PodInfo, K8sClient, get_pod_by_pid}
use ebpf_probe.K8s.Enricher.{
  Lru, EnrichedEvent, EventEnricher, format_pid, with_pod, enriched_with, or_client, look_up,
  enrich, invalidate_cache,
}
use ebpf_probe.K8s.Enricher.Cached.{view, IsLawful, Came, came, note, earlier_note, IsKnown}
use ebpf_probe.K8s.Enricher.Reached.{Reach, enrich-look_up, Reach-IsKnown}

note-Came :
    (pid : ℕ) (o : Option PodInfo) (answers : List (ℕ × PodInfo)) (p : PodInfo)
    → o ≡ some p
    → Came (format_pid pid) p (note pid o answers)
note-Came pid o answers p h = rw h (came pid answers refl)

module _ (L : Lru) (laws : IsLawful L) {Address Condition : Type 0} where
  found_client :
      (pid : ℕ) (c : K8sClient Address Condition) (found : Option PodInfo × L.State) (p : PodInfo)
      → (or_client L pid c found).0 ≡ some p
      → (found.0 ≡ some p) ⊎ (get_pod_by_pid c pid ≡ some p)
  found_client pid c (some q, s) p h = inl h
  found_client pid c (none, s) p h = inr h

  look_up-Came :
      (pid : ℕ) (c : K8sClient Address Condition) (s : L.State) (answers : List (ℕ × PodInfo))
      → IsKnown L s answers
      → (p : PodInfo) → (look_up L pid c s).0 ≡ some p
      → Came (format_pid pid) p (note pid (get_pod_by_pid c pid) answers)
  unfolding look_up
  look_up-Came pid c s answers known p h =
      elim (found_client pid c (L.get s (format_pid pid)) p h) [
        | inl hit ↦ earlier_note pid (get_pod_by_pid c pid) answers (known (format_pid pid) p hit)
        | inr asked ↦ note-Came pid (get_pod_by_pid c pid) answers p asked
      ]

  abbrev pub IsAnswer :
      ℕ
      → K8sClient Address Condition
      → List (ℕ × PodInfo)
      → EnrichedEvent
      → Option EnrichedEvent
      → Type 0
  IsAnswer pid c answers ev out =
      (o : Option PodInfo) × (out ≡ some (enriched_with o c.node_name ev))
      × ((p : PodInfo)
          → o ≡ some p
          → Came (format_pid pid) p (note pid (get_pod_by_pid c pid) answers))

  -- The event that a running enricher with a client returns is the event that it was given with the
  -- fields of a pod, or with the name of the client's node alone; the pod is one that the client has
  -- now, or had at an earlier call, for a process with the same key. The calls before are any calls
  -- on a cache that was empty at first, and the informers' stores change between them.
  pub enrich-IsAnswer :
      (e : EventEnricher L Address Condition) (answers : List (ℕ × PodInfo)) (pid : ℕ)
      (ev : EnrichedEvent) (c : K8sClient Address Condition)
      → Reach L Address Condition e answers
      → e.running ≡ true
      → e.client ≡ some c
      → IsAnswer pid c answers ev (enrich L pid (some ev) e).0
  enrich-IsAnswer e answers pid ev c reach on h = (
    (look_up L pid c e.pod_cache).0,
    ap (λ r. r.0) (enrich-look_up L pid ev e c on h),
    look_up-Came pid c e.pod_cache answers (Reach-IsKnown L laws e answers reach),
  )

  hit_client :
      (pid : ℕ) (c : K8sClient Address Condition) (found : Option PodInfo × L.State) (p : PodInfo)
      → found.0 ≡ some p
      → (or_client L pid c found).0 ≡ some p
  hit_client pid c (some q, s) p h = h
  hit_client pid c (none, s) p h = cc

  -- A pod once found stays in the cache.
  kept_client :
      (pid : ℕ) (c : K8sClient Address Condition) (found : Option PodInfo × L.State) (p : PodInfo)
      → (found.0 ≡ some p → view L found.1 (format_pid pid) ≡ some p)
      → (or_client L pid c found).0 ≡ some p
      → view L (or_client L pid c found).1 (format_pid pid) ≡ some p
  kept_client pid c (some q, s) p k h = k h
  kept_client pid c (none, s) p k h = rw h (laws.add_same s (format_pid pid) p)

  look_up_again :
      (pid : ℕ) (c c' : K8sClient Address Condition) (s : L.State) (p : PodInfo)
      → (look_up L pid c s).0 ≡ some p
      → (look_up L pid c' (look_up L pid c s).1).0 ≡ some p
  unfolding look_up
  look_up_again pid c c' s p h =
      hit_client pid c' (L.get (look_up L pid c s).1 (format_pid pid)) p (
        kept_client pid c (L.get s (format_pid pid)) p
          (λ hit. laws.get_keeps s (format_pid pid) (format_pid pid) ∙ hit) h)

  -- After a call that returned an event with a pod, the next call for the process returns that pod
  -- again, whatever the client has by then.
  pub enrich_again :
      (pid : ℕ) (ev ev' : EnrichedEvent) (e : EventEnricher L Address Condition)
      (c c' : K8sClient Address Condition) (p : PodInfo)
      → e.running ≡ true
      → e.client ≡ some c
      → (look_up L pid c e.pod_cache).0 ≡ some p
      → (enrich L pid (some ev') (record ((enrich L pid (some ev) e).1) { client = some c' })).0
        ≡ some (with_pod p ev')
  unfolding with_pod
  enrich_again pid ev ev' e c c' p on h found = rw (enrich-look_up L pid ev e c on h) (
      ap (λ r. r.0)
        (enrich-look_up L pid ev'
          (record e { client = some c'; pod_cache = (look_up L pid c e.pod_cache).1 }) c' on refl)
      ∙ ap (λ o. some (enriched_with o c'.node_name ev'))
          (look_up_again pid c c' e.pod_cache p found))

  miss_client :
      (pid : ℕ) (c : K8sClient Address Condition) (found : Option PodInfo × L.State)
      → found.0 ≡ none
      → (or_client L pid c found).0 ≡ get_pod_by_pid c pid
  miss_client pid c (some q, s) h = cc
  miss_client pid c (none, s) h = refl

  look_up_removed :
      (pid : ℕ) (c : K8sClient Address Condition) (s : L.State)
      → (look_up L pid c (L.remove s (format_pid pid))).0 ≡ get_pod_by_pid c pid
  unfolding look_up
  look_up_removed pid c s =
      miss_client pid c (L.get (L.remove s (format_pid pid)) (format_pid pid))
        (laws.remove_same s (format_pid pid))

  -- Right after InvalidateCache for a process, a running enricher with a client gives its events the
  -- pod that the client has for it now, or the name of the node alone.
  pub invalidate-enrich :
      (pid : ℕ) (ev : EnrichedEvent) (e : EventEnricher L Address Condition)
      (c : K8sClient Address Condition)
      → e.running ≡ true
      → e.client ≡ some c
      → (enrich L pid (some ev) (invalidate_cache L pid e)).0
        ≡ some (enriched_with (get_pod_by_pid c pid) c.node_name ev)
  unfolding invalidate_cache
  invalidate-enrich pid ev e c on h =
      ap (λ r. r.0)
        (enrich-look_up L pid ev (record e { pod_cache = L.remove e.pod_cache (format_pid pid) }) c
          on h)
      ∙ ap (λ o. some (enriched_with o c.node_name ev)) (look_up_removed pid c e.pod_cache)
