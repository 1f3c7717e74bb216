-- ===== src/Output/Edge/Delivery.antt =====
-- What becomes of the events given to the edge client.
use ebpf_probe.Prelude.{
  ◌+◌, ◌≤◌, ◌<◌, ◌≡◌, refl, ap, sym, ◌∙◌, All, List, [], ◌∷◌, ◌++◌, append_assoc, append-nil,
  length, arith, ltb, leb, ◌==◌, inl, inr, Bool-cases,
}
use ebpf_probe.Output.Edge.{
  Attempt, marshal_error, post_error, status, EdgeClient, Report, idle, delivered, marshal_lost,
  requeued, dropped, max_retries, retry, send, flush_batch, flush, write_event, write_batch,
}

-- A call of the client: WriteEvent, WriteBatch, or Flush by the ticker.
pub data Call {ℓ} (E : Type ℓ) : Type ℓ where
  write_one : E → Call E
  write_many : List E → Call E
  tick : Call E

module _ {ℓ} {E : Type ℓ} where
  -- The events that have left the client with a report, for good or for bad.
  abbrev pub gone : Report E → List E
  gone idle = []
  gone (delivered es) = es
  gone (marshal_lost es) = es
  gone (requeued ns es) = []
  gone (dropped es) = es

  abbrev pub all_gone : List (Report E) → List E
  all_gone [] = []
  all_gone (r ∷ reports) = gone r ++ all_gone reports

  abbrev pub given : Call E → List E
  given (write_one e) = e ∷ []
  given (write_many es) = es
  given tick = []

  abbrev pub all_given : List (Call E × Attempt) → List E
  all_given [] = []
  all_given (c ∷ calls) = given c.0 ++ all_given calls

  unfoldable pub call : Call E → Attempt → EdgeClient E → EdgeClient E × Report E
  call (write_one e) a c = write_event a e c
  call (write_many es) a c = write_batch a es c
  call tick a c = flush a c

  -- The calls one after the other: the client at the end and the reports in order.
  unfoldable pub run : List (Call E × Attempt) → EdgeClient E → EdgeClient E × List (Report E)
  run [] c = (c, [])
  run (x ∷ calls) c =
      let now = call x.0 x.1 c in let later = run calls now.0 in (later.0, now.1 ∷ later.1)

  -- A call takes events from the front of the queue only.
  abbrev pub Conserves : EdgeClient E × Report E → List E → Type ℓ
  Conserves r queue = gone r.1 ++ (r.0).batch ≡ queue

  retry-Conserves : (es : List E) (c : EdgeClient E) → c.batch ≡ [] → Conserves (retry es c) es
  unfolding retry
  retry-Conserves es c empty = elim (Bool-cases (ltb max_retries (c.retry_count + 1))) [
    | inl over ↦ rw over (rw empty (append-nil es))
    | inr more ↦ rw more (rw empty refl)
  ]

  send-Conserves :
      (a : Attempt) (es : List E) (c : EdgeClient E) → c.batch ≡ [] → Conserves (send a es c) es
  unfolding send
  send-Conserves marshal_error es c empty = rw empty (append-nil es)
  send-Conserves post_error es c empty = retry-Conserves es c empty
  send-Conserves (status code) es c empty = elim (Bool-cases (code == 200)) [
    | inl fine ↦ rw fine (rw empty (append-nil es))
    | inr bad ↦ rw bad (retry-Conserves es c empty)
  ]

  pub flush_batch-Conserves :
      (a : Attempt) (es : List E) (c : EdgeClient E)
      → c.batch ≡ es
      → Conserves (flush_batch a es c) es
  unfolding flush_batch
  flush_batch-Conserves a [] c same = same
  flush_batch-Conserves a (e ∷ es) c same = send-Conserves a (e ∷ es) (record c { batch = [] }) refl

  call-Conserves :
      (x : Call E) (a : Attempt) (c : EdgeClient E) → Conserves (call x a c) (c.batch ++ given x)
  unfolding call write_event write_batch flush
  call-Conserves (write_one e) a c =
      elim (Bool-cases (leb c.batch_size (length (c.batch ++ e ∷ [])))) [
        | inl full ↦
            rw full (flush_batch-Conserves a _ (record c { batch = c.batch ++ e ∷ [] }) refl)
        | inr room ↦ rw room refl
      ]
  call-Conserves (write_many es) a c =
      flush_batch-Conserves a _ (record c { batch = c.batch ++ es }) refl
  call-Conserves tick a c = flush_batch-Conserves a c.batch c refl ∙ sym (append-nil c.batch)

  -- For calls one after the other, whatever the attempts do, the events that left the client, in the order of the reports, and
  -- then the batch are the first batch and the events given, in order: none is lost without a
  -- report, none leaves twice, and none overtakes another.
  pub run_conserves :
      (calls : List (Call E × Attempt)) (c : EdgeClient E)
      → all_gone (run calls c).1 ++ (run calls c).0.batch ≡ c.batch ++ all_given calls
  unfolding run
  run_conserves [] c = sym (append-nil c.batch)
  run_conserves (x ∷ calls) c =
      let now = call x.0 x.1 c in
      append_assoc (gone now.1) _ _
      ∙ (ap (λ l. gone now.1 ++ l) (run_conserves calls now.0)
          ∙ (sym (append_assoc (gone now.1) _ _)
              ∙ (ap (λ l. l ++ all_given calls) (call-Conserves x.0 x.1 c)
                  ∙ append_assoc c.batch (given x.0) (all_given calls))))

  abbrev pub IsKept : Report E → Type 0
  IsKept (dropped es) = ⊥
  IsKept _ = Unit {0}

  -- A call counts at most one retry, and drops nothing as long as the count is below the maximum.
  abbrev pub Retries : EdgeClient E → EdgeClient E × Report E → Type 0
  Retries c r = ((r.0).retry_count ≤ c.retry_count + 1) × (c.retry_count < max_retries → IsKept r.1)

  retry-Retries : (es : List E) (c : EdgeClient E) → Retries c (retry es c)
  unfolding retry
  retry-Retries es c = elim (Bool-cases (ltb max_retries (c.retry_count + 1))) [
    | inl over ↦ rw over (omega arith, λ few. absurd (ground (arith, over, few)))
    | inr more ↦ rw more (omega arith, λ few. tt)
  ]

  send-Retries : (a : Attempt) (es : List E) (c : EdgeClient E) → Retries c (send a es c)
  unfolding send
  send-Retries marshal_error es c = (omega arith, λ few. tt)
  send-Retries post_error es c = retry-Retries es c
  send-Retries (status code) es c = elim (Bool-cases (code == 200)) [
    | inl fine ↦ rw fine (omega arith, λ few. tt)
    | inr bad ↦ rw bad (retry-Retries es c)
  ]

  flush_batch-Retries :
      (a : Attempt) (es : List E) (c : EdgeClient E) → Retries c (flush_batch a es c)
  unfolding flush_batch
  flush_batch-Retries a [] c = (omega arith, λ few. tt)
  flush_batch-Retries a (e ∷ es) c = send-Retries a (e ∷ es) (record c { batch = [] })

  call-Retries : (x : Call E) (a : Attempt) (c : EdgeClient E) → Retries c (call x a c)
  unfolding call write_event write_batch flush
  call-Retries (write_one e) a c =
      elim (Bool-cases (leb c.batch_size (length (c.batch ++ e ∷ [])))) [
        | inl full ↦ rw full (flush_batch-Retries a _ (record c { batch = c.batch ++ e ∷ [] }))
        | inr room ↦ rw room (omega arith, λ few. tt)
      ]
  call-Retries (write_many es) a c = flush_batch-Retries a _ (record c { batch = c.batch ++ es })
  call-Retries tick a c = flush_batch-Retries a c.batch c

  -- As long as the retries counted and the calls made are together at most 100, no call drops.
  pub run_keeps :
      (calls : List (Call E × Attempt)) (c : EdgeClient E)
      → c.retry_count + length calls ≤ max_retries
      → All IsKept (run calls c).1
  unfolding run
  run_keeps [] c h = tt
  run_keeps (x ∷ calls) c h =
      let step = call-Retries x.0 x.1 c in
      let now = call x.0 x.1 c in
      (step.1 (omega (arith, h)), run_keeps calls now.0 (omega (arith, h, step.0)))
