-- ===== src/Output/ClickHouse/Rows.antt =====
-- The events that the writer takes, in order, and the size of its batch.
use ebpf_probe.Prelude.{
  ℕ, ◌<◌, ◌≡◌, refl, ap, sym, ◌∙◌, Bool, true, false, List, [], ◌∷◌, ◌++◌, append_assoc, append-nil,
  length, leb, arith, inl, inr, Bool-cases,
}
use ebpf_probe.Output.Multi.{Writer}
use ebpf_probe.Output.Multi.Isolation.{Call, perform, run_calls}
use ebpf_probe.Output.ClickHouse.{
  DbAnswer, begin_error, prepare_error, runs, FlushReport, idle, refused, executed, Connected,
  execute, flush_events, flush, with_events, write_event, write_batch, insert_row, close_with,
  close, click_house_writer,
}

module _ {E : Type 0} where
  -- The events that a flush took from the batch.
  abbrev pub taken : List (FlushReport E) → List E
  taken [] = []
  taken (idle ∷ reports) = taken reports
  taken (refused events ∷ reports) = events ++ taken reports
  taken (executed events inserted committed ∷ reports) = events ++ taken reports

  module _ {Args : Type 0} where
    abbrev pub events_of : Call E Args → List E
    events_of (Call.write_event e) = e ∷ []
    events_of (Call.write_batch events) = events
    events_of _ = []

    abbrev pub all_events : List (Call E Args) → List E
    all_events [] = []
    all_events (call ∷ calls) = events_of call ++ all_events calls

  -- What has been taken, and then what waits.
  abbrev pub queue : Connected E → List E
  queue s = taken s.reports ++ s.writer.batch

  pub taken-append :
      (reports : List (FlushReport E)) (r : FlushReport E)
      → taken (reports ++ r ∷ []) ≡ taken reports ++ taken (r ∷ [])
  taken-append [] r = refl
  taken-append (idle ∷ reports) r = taken-append reports r
  taken-append (refused events ∷ reports) r =
      ap (λ l. events ++ l) (taken-append reports r)
      ∙ sym (append_assoc events (taken reports) (taken (r ∷ [])))
  taken-append (executed events inserted committed ∷ reports) r =
      ap (λ l. events ++ l) (taken-append reports r)
      ∙ sym (append_assoc events (taken reports) (taken (r ∷ [])))

  pub taken-execute : (a : DbAnswer E) (events : List E) → taken (execute a events ∷ []) ≡ events
  unfolding execute
  taken-execute begin_error events = append-nil events
  taken-execute prepare_error events = append-nil events
  taken-execute (runs accepts commits) events = append-nil events

  queue-flush_events :
      (batch : List E) (s : Connected E)
      → s.writer.batch ≡ batch
      → queue (flush_events batch s).0 ≡ queue s
  unfolding flush_events
  queue-flush_events [] s same = refl
  queue-flush_events (e ∷ events) s same =
      let report = execute (s.answers s.flushes) (e ∷ events) in
      append-nil (taken (s.reports ++ report ∷ []))
      ∙ (taken-append s.reports report
          ∙ ap (λ l. taken s.reports ++ l)
              (taken-execute (s.answers s.flushes) (e ∷ events) ∙ sym same))

  queue-flush : (s : Connected E) → queue (flush s).0 ≡ queue s
  unfolding flush
  queue-flush s = queue-flush_events s.writer.batch s refl

  queue-with_events :
      (events : List E) (s : Connected E) → queue (with_events events s) ≡ queue s ++ events
  unfolding with_events
  queue-with_events events s = sym (append_assoc (taken s.reports) s.writer.batch events)

  queue-write_event : (e : E) (s : Connected E) → queue (write_event e s).0 ≡ queue s ++ e ∷ []
  unfolding write_event with_events
  queue-write_event e s =
      elim (Bool-cases (leb s.writer.batch_size (length (s.writer.batch ++ e ∷ [])))) [
        | inl full ↦ rw full (queue-flush (with_events (e ∷ []) s) ∙ queue-with_events (e ∷ []) s)
        | inr room ↦ rw room (queue-with_events (e ∷ []) s)
      ]

  queue-write_batch :
      (events : List E) (s : Connected E) → queue (write_batch events s).0 ≡ queue s ++ events
  unfolding write_batch
  queue-write_batch events s = queue-flush (with_events events s) ∙ queue-with_events events s

  -- The batch is below its size, which does not change.
  abbrev pub IsBelow : ℕ → Connected E → Type 0
  IsBelow size s = (s.writer.batch_size ≡ size) × (length s.writer.batch < size)

  flush-IsBelow :
      (size : ℕ) (s : Connected E)
      → 0 < size
      → s.writer.batch_size ≡ size
      → IsBelow size (flush s).0
  unfolding flush
  flush-IsBelow size s pos same = flush_batch s.writer.batch s pos same refl
    where
      flush_batch :
          (batch : List E) (s : Connected E)
          → 0 < size
          → s.writer.batch_size ≡ size
          → s.writer.batch ≡ batch
          → IsBelow size (flush_events batch s).0
      flush_batch [] s pos same empty = (same, rw empty pos)
      flush_batch (e ∷ events) s pos same eq = (same, pos)

  queue-close_with : (b : Bool) (s : Connected E) → queue (close_with b s).0 ≡ queue s
  queue-close_with true s = refl
  queue-close_with false s = queue-flush s

  close_with-IsBelow :
      (size : ℕ) (b : Bool) (s : Connected E) → IsBelow size s → IsBelow size (close_with b s).0
  close_with-IsBelow size true s h = h
  close_with-IsBelow size false s h = flush-IsBelow size s (omega arith) h.0

  module _ {Args : Type 0} where
    abbrev pub chw : Writer E Args (Connected E)
    chw = click_house_writer

    queue-perform :
        (call : Call E Args) (s : Connected E)
        → queue (perform chw call s).0 ≡ queue s ++ events_of call
    unfolding perform click_house_writer insert_row close
    queue-perform (Call.write_event e) s = queue-write_event e s
    queue-perform (Call.write_batch events) s = queue-write_batch events s
    queue-perform (Call.write_metrics a) s = sym (append-nil (queue s))
    queue-perform (Call.write_process_event a) s = sym (append-nil (queue s))
    queue-perform (Call.write_file_event a) s = sym (append-nil (queue s))
    queue-perform (Call.write_syscall_event a) s = sym (append-nil (queue s))
    queue-perform Call.close s = queue-close_with s.stop_closed s ∙ sym (append-nil (queue s))
    queue-perform Call.flush s = queue-flush s ∙ sym (append-nil (queue s))

    pub queue-run_calls :
        (calls : List (Call E Args)) (s : Connected E)
        → queue (run_calls chw calls s).0 ≡ queue s ++ all_events calls
    unfolding run_calls
    queue-run_calls [] s = sym (append-nil (queue s))
    queue-run_calls (call ∷ calls) s =
        queue-run_calls calls (perform chw call s).0
        ∙ (ap (λ l. l ++ all_events calls) (queue-perform call s)
            ∙ append_assoc (queue s) (events_of call) (all_events calls))

    perform-IsBelow :
        (size : ℕ) (call : Call E Args) (s : Connected E)
        → IsBelow size s
        → IsBelow size (perform chw call s).0
    unfolding perform click_house_writer insert_row close write_event write_batch with_events
    perform-IsBelow size (Call.write_event e) s h =
        elim (Bool-cases (leb s.writer.batch_size (length (s.writer.batch ++ e ∷ [])))) [
          | inl full ↦ rw full (flush-IsBelow size (with_events (e ∷ []) s) (omega arith) h.0)
          | inr room ↦ rw room (h.0, ground arith)
        ]
    perform-IsBelow size (Call.write_batch events) s h =
        flush-IsBelow size (with_events events s) (omega arith) h.0
    perform-IsBelow size (Call.write_metrics a) s h = h
    perform-IsBelow size (Call.write_process_event a) s h = h
    perform-IsBelow size (Call.write_file_event a) s h = h
    perform-IsBelow size (Call.write_syscall_event a) s h = h
    perform-IsBelow size Call.close s h = close_with-IsBelow size s.stop_closed s h
    perform-IsBelow size Call.flush s h = flush-IsBelow size s (omega arith) h.0

    run_calls-IsBelow :
        (size : ℕ) (calls : List (Call E Args)) (s : Connected E)
        → IsBelow size s
        → IsBelow size (run_calls chw calls s).0
    unfolding run_calls
    run_calls-IsBelow size [] s h = h
    run_calls-IsBelow size (call ∷ calls) s h =
        run_calls-IsBelow size calls (perform chw call s).0 (perform-IsBelow size call s h)

    -- For any calls of the writer's interface, one after the other, of which none panics (as a second
    -- Close does), and whatever the database answers: the events that the flushes took and then the batch are those that were there and
    -- those written since, in order, and the batch stays below its size.
    pub click_house_keeps :
        (size : ℕ) (calls : List (Call E Args)) (s : Connected E)
        → IsBelow size s
        → (run_calls chw calls s).0.crashed ≡ false
        → (queue (run_calls chw calls s).0 ≡ queue s ++ all_events calls)
          × IsBelow size (run_calls chw calls s).0
    click_house_keeps size calls s h alive =
        (queue-run_calls calls s, run_calls-IsBelow size calls s h)
