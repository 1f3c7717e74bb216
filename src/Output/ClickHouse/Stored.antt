-- ===== src/Output/ClickHouse/Stored.antt =====
-- What reaches the database when it works.
use ebpf_probe.Prelude.{
  ℕ, ◌≡◌, refl, ap, sym, ◌∙◌, Bool, true, false, List, [], ◌∷◌, ◌++◌, append_assoc, append-nil,
  length, leb, if◌then◌else◌, inl, inr, Bool-cases,
}
use ebpf_probe.Output.Multi.Isolation.{Call, perform, run_calls}
use ebpf_probe.Output.ClickHouse.{
  runs, FlushReport, idle, refused, executed, Connected, insert_each, execute, flush_events, flush,
  with_events, write_event, write_batch, insert_row, close_with, close, click_house_writer,
}
use ebpf_probe.Output.ClickHouse.Rows.{
  taken, all_events, queue, chw, taken-append, taken-execute, queue-run_calls,
}

module _ {E : Type 0} where
  -- The rows in the database.
  abbrev pub rows : List (FlushReport E) → List E
  rows [] = []
  rows (idle ∷ reports) = rows reports
  rows (refused events ∷ reports) = rows reports
  rows (executed events inserted committed ∷ reports) =
      if committed then inserted ++ rows reports else rows reports

  -- Every flush finds a database that accepts everything.
  abbrev pub Works : Connected E → Type 0
  Works s = (n : ℕ) → s.answers n ≡ runs (λ e. true) true

  insert_all : (events : List E) → insert_each (λ e. true) events ≡ events
  unfolding insert_each
  insert_all [] = refl
  insert_all (e ∷ events) = ap (λ l. e ∷ l) (insert_all events)

  rows-append :
      (reports : List (FlushReport E)) (r : FlushReport E)
      → rows (reports ++ r ∷ []) ≡ rows reports ++ rows (r ∷ [])
  rows-append [] r = refl
  rows-append (idle ∷ reports) r = rows-append reports r
  rows-append (refused events ∷ reports) r = rows-append reports r
  rows-append (executed events inserted true ∷ reports) r =
      ap (λ l. inserted ++ l) (rows-append reports r)
      ∙ sym (append_assoc inserted (rows reports) (rows (r ∷ [])))
  rows-append (executed events inserted false ∷ reports) r = rows-append reports r

  rows-execute : (events : List E) → rows (execute (runs (λ e. true) true) events ∷ []) ≡ events
  unfolding execute
  rows-execute events = append-nil (insert_each (λ e. true) events) ∙ insert_all events

  -- The rows are the events taken.
  abbrev IsStored : Connected E → Type 0
  IsStored s = Works s × (rows s.reports ≡ taken s.reports)

  flush_events-IsStored :
      (batch : List E) (s : Connected E) → IsStored s → IsStored (flush_events batch s).0
  unfolding flush_events
  flush_events-IsStored [] s h = h
  flush_events-IsStored (e ∷ events) s h =
      let report = execute (runs (λ e. true) true) (e ∷ events) in
      (
        h.0,
        rw (h.0 s.flushes) (
            rows-append s.reports report
            ∙ (ap (λ l. l ++ rows (report ∷ [])) h.1
                ∙ (ap (λ l. taken s.reports ++ l)
                      (rows-execute (e ∷ events)
                        ∙ sym (taken-execute (runs (λ e. true) true) (e ∷ events)))
                    ∙ sym (taken-append s.reports report)))),
      )

  close_with-IsStored : (b : Bool) (s : Connected E) → IsStored s → IsStored (close_with b s).0
  unfolding flush
  close_with-IsStored true s h = h
  close_with-IsStored false s h = flush_events-IsStored s.writer.batch s h

  module _ {Args : Type 0} where
    perform-IsStored :
        (call : Call E Args) (s : Connected E) → IsStored s → IsStored (perform chw call s).0
    unfolding perform click_house_writer insert_row close write_event write_batch with_events flush
    perform-IsStored (Call.write_event e) s h =
        elim (Bool-cases (leb s.writer.batch_size (length (s.writer.batch ++ e ∷ [])))) [
          | inl full ↦
              rw full (flush_events-IsStored (s.writer.batch ++ e ∷ []) (with_events (e ∷ []) s) h)
          | inr room ↦ rw room h
        ]
    perform-IsStored (Call.write_batch events) s h =
        flush_events-IsStored (s.writer.batch ++ events) (with_events events s) h
    perform-IsStored (Call.write_metrics a) s h = h
    perform-IsStored (Call.write_process_event a) s h = h
    perform-IsStored (Call.write_file_event a) s h = h
    perform-IsStored (Call.write_syscall_event a) s h = h
    perform-IsStored Call.close s h = close_with-IsStored s.stop_closed s h
    perform-IsStored Call.flush s h = flush_events-IsStored s.writer.batch s h

    run_calls-IsStored :
        (calls : List (Call E Args)) (s : Connected E)
        → IsStored s
        → IsStored (run_calls chw calls s).0
    unfolding run_calls
    run_calls-IsStored [] s h = h
    run_calls-IsStored (call ∷ calls) s h =
        run_calls-IsStored calls (perform chw call s).0 (perform-IsStored call s h)

    -- If every flush finds a database that accepts everything, then after any calls on a new writer
    -- the rows in the database and then the batch are the events written, in order.
    pub click_house_stores :
        (calls : List (Call E Args)) (s : Connected E)
        → Works s
        → s.reports ≡ []
        → s.writer.batch ≡ []
        → (let r = (run_calls chw calls s).0 in rows r.reports ++ r.writer.batch) ≡ all_events calls
    click_house_stores calls s works fresh empty =
        let r = (run_calls chw calls s).0 in
        let stored = run_calls-IsStored calls s (works, rw fresh refl) in
        ap (λ l. l ++ r.writer.batch) stored.1
        ∙ (queue-run_calls calls s
            ∙ ap (λ q. q ++ all_events calls) {x = queue s} {y = []} (rw fresh empty))
