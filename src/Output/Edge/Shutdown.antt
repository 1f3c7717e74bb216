-- ===== src/Output/Edge/Shutdown.antt =====
-- Start, Stop and Close of the edge client.
use ebpf_probe.Prelude.{
  ℕ, ◌+◌, ◌<◌, ◌≡◌, ◌≢◌, refl, ap, sym, ◌∙◌, Bool, true, false, List, [], ◌∷◌, ◌++◌, append-nil,
  Outcome, ok, panic, if◌then◌else◌, ltb, arith,
}
use ebpf_probe.Output.Edge.{
  Attempt, post_error, status, EdgeClient, Report, requeued, max_retries, backoff, flush,
  flush_batch, send, retry,
}
use ebpf_probe.Output.Edge.Delivery.{
  Call, run, gone, all_gone, all_given, run_conserves, flush_batch-Conserves,
}

-- A client with its stop channel and its ticker, which Start makes.
pub record Opened {ℓ} (E : Type ℓ) : Type ℓ where
  pub client : EdgeClient E
  pub has_timer : Bool
  pub stop_closed : Bool

not_over : (n : ℕ) → n < max_retries → ltb max_retries (n + 1) ≡ false
not_over n few = ground arith

module _ {ℓ} {E : Type ℓ} where
  abbrev pub opened : EdgeClient E → Opened E
  opened c = record { client = c; has_timer = false; stop_closed = false }

  unfoldable pub start : Opened E → Opened E
  start o = record o { has_timer = true }

  abbrev pub with_client : Opened E → EdgeClient E × Report E → Opened E × Report E
  with_client o r = (record o { client = r.0; stop_closed = true }, r.1)

  -- Closing a closed channel panics, and so does stopping a ticker that is nil.
  unfoldable pub stop : Attempt → Opened E → Outcome ⊥ (Opened E × Report E)
  unfolding flush
  stop a o =
      if o.stop_closed
      then panic
      else if o.has_timer
      then ok (with_client o (flush a o.client))
      else panic

  -- The error of Close is always nil.
  unfoldable pub close : Attempt → Opened E → Outcome ⊥ (Opened E × Report E)
  unfolding stop
  close a o = stop a o

  flush_batch-empty :
      (events : List E) (c : EdgeClient E)
      → c.batch ≡ events
      → (flush_batch (status 200) events c).0.batch ≡ []
  unfolding flush_batch send
  flush_batch-empty [] c same = same
  flush_batch-empty (e ∷ events) c same = refl

  flush-gone :
      (c : EdgeClient E)
      → ((flush (status 200) c).0.batch ≡ []) × (gone (flush (status 200) c).1 ≡ c.batch)
  unfolding flush
  flush-gone c = (
    flush_batch-empty c.batch c refl,
    sym (append-nil (gone (flush_batch (status 200) c.batch c).1))
        ∙ (ap (λ l. gone (flush_batch (status 200) c.batch c).1 ++ l)
              (sym (flush_batch-empty c.batch c refl))
            ∙ flush_batch-Conserves (status 200) c.batch c refl),
  )

  close-flush :
      (a : Attempt) (c : EdgeClient E)
      → close a (start (opened c)) ≡ ok (with_client (start (opened c)) (flush a c))
  unfolding close start
  close-flush a c = refl

  close_again : (a : Attempt) (o : Opened E) → o.stop_closed ≡ true → close a o ≡ panic
  unfolding close
  close_again a o closed = rw closed refl

  flush_batch-requeued :
      (events : List E) (c : EdgeClient E)
      → events ≢ []
      → c.retry_count < max_retries
      → flush_batch post_error events c ≡ (
        record c { batch = events; retry_count = c.retry_count + 1 },
        requeued (backoff (c.retry_count + 1)) events,
      )
  unfolding flush_batch send retry
  flush_batch-requeued [] c occupied few = absurd (occupied refl)
  flush_batch-requeued (e ∷ events) c occupied few = rw (not_over c.retry_count few) refl

  -- The client that Start and some calls leave, when it is closed with an attempt that succeeds.
  abbrev pub closed_after : EdgeClient E → List (Call E × Attempt) → Opened E × Report E
  closed_after c calls =
      with_client (start (opened (run calls c).0)) (flush (status 200) (run calls c).0)

  -- A started client that is closed after any calls, when the server answers the last post with 200:
  -- Close does not panic, the batch is empty, and the events that left the client, in the order of
  -- the reports and then with the report of Close, are the first batch and the events given.
  pub close_empties :
      (c : EdgeClient E) (calls : List (Call E × Attempt))
      → (close (status 200) (start (opened (run calls c).0)) ≡ ok (closed_after c calls))
        × (((closed_after c calls).0.client.batch ≡ [])
            × (all_gone (run calls c).1 ++ gone (closed_after c calls).1
                ≡ c.batch ++ all_given calls))
  close_empties c calls =
      let left = flush-gone (run calls c).0 in
      (
        close-flush (status 200) (run calls c).0,
        (left.0, ap (λ l. all_gone (run calls c).1 ++ l) (left.1) ∙ run_conserves calls c),
      )

  -- When the post of Close fails on events that are still in the batch, and the retries are not used
  -- up, the events go back to the batch, and a second Close makes the probe panic.
  pub close_strands :
      (c : EdgeClient E)
      → c.batch ≢ []
      → c.retry_count < max_retries
      → (stranded : Opened E × Report E) × ((close post_error (start (opened c)) ≡ ok stranded)
          × ((stranded.0.client.batch ≡ c.batch) × (close post_error stranded.0 ≡ panic)))
  unfolding flush
  close_strands c occupied few = (
    with_client (start (opened c)) (flush post_error c),
    (
      close-flush post_error c,
      (
        ap (λ r. r.0.batch) (flush_batch-requeued c.batch c occupied few),
        close_again post_error (with_client (start (opened c)) (flush post_error c)).0 refl,
      ),
    ),
  )
