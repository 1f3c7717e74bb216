-- ===== src/Collector/Trace/Stored.antt =====
-- The log collector in front of the ClickHouse writer.
use ebpf_probe.Prelude.{
  ◌≡◌, refl, ap, sym, ◌∙◌, false, List, [], ◌∷◌, ◌++◌, ok, Bytes, take, map, any,
}
use ebpf_probe.Output.Multi.{Writer}
use ebpf_probe.Output.Multi.Isolation.{Call, run_calls, perform}
use ebpf_probe.Output.ClickHouse.{Connected}
use ebpf_probe.Output.ClickHouse.Rows.{chw, all_events}
use ebpf_probe.Output.ClickHouse.Stored.{rows, Works, click_house_stores}
use ebpf_probe.Collector.Trace.{Event, LogEvent, Turn, log_event, process_log}
use ebpf_probe.Collector.Trace.Loop.{samples, write_each, is_long, process_events-log}

-- The events of the samples read before the loop ends.
abbrev pub log_events : Bytes → List (Turn LogEvent) → List Event
log_events probe_id turns =
    map (λ ev. log_event probe_id (take ev.data_len ev.payload)) (samples turns)

module _ (Args : Type 0) where
  abbrev writes : List Event → List (Call Event Args)
  writes events = map Call.write_event events

  write_each-run_calls :
      {S : Type 0} (w : Writer Event Args S) (events : List Event) (s : S)
      → (run_calls w (writes events) s).0 ≡ write_each w events s
  unfolding run_calls perform
  write_each-run_calls w [] s = refl
  write_each-run_calls w (ev ∷ events) s = write_each-run_calls w events (w.write_event ev s).0

  all_events-writes : (events : List Event) → all_events {Args = Args} (writes events) ≡ events
  all_events-writes [] = refl
  all_events-writes (ev ∷ events) = ap (λ r. ev ∷ r) (all_events-writes events)

  stored_events :
      (events : List Event) (s : Connected Event)
      → Works s
      → s.reports ≡ []
      → s.writer.batch ≡ []
      → (let r = write_each (chw {Args = Args}) events s in rows r.reports ++ r.writer.batch)
        ≡ events
  stored_events events s works fresh empty =
      ap (λ r. rows r.reports ++ r.writer.batch) (sym (write_each-run_calls chw events s))
      ∙ (click_house_stores (writes events) s works fresh empty ∙ all_events-writes events)

  -- When no sample announces more data than its array holds, and every flush finds a database that
  -- accepts everything, then the log collector in front of a new ClickHouse writer does not panic,
  -- and the rows in the database and then the batch are the events of the samples read, in order.
  pub process_log-stores :
      (probe_id : Bytes) (turns : List (Turn LogEvent)) (s : Connected Event)
      → any is_long (samples turns) ≡ false
      → Works s
      → s.reports ≡ []
      → s.writer.batch ≡ []
      → (process_log probe_id (chw {Args = Args}) false turns s
          ≡ ok (write_each (chw {Args = Args}) (log_events probe_id turns) s))
        × ((let r = write_each (chw {Args = Args}) (log_events probe_id turns) s in
              rows r.reports ++ r.writer.batch)
            ≡ log_events probe_id turns)
  process_log-stores probe_id turns s short works fresh empty = (
    process_events-log chw probe_id turns s ∙ rw short refl,
    stored_events (log_events probe_id turns) s works fresh empty,
  )
