-- ===== src/Collector/Trace/Written.antt =====
-- The loops of the collectors with the writer that main gives them, a MultiWriter.
use ebpf_probe.Prelude.{
  ◌≡◌, refl, ap, sym, ◌∙◌, false, List, [], ◌∷◌, ok, panic, Bytes, take, map, any, if◌then◌else◌,
}
use ebpf_probe.Output.Multi.{Writer, multi_writer, for_each}
use ebpf_probe.Collector.Trace.{Event, LogEvent, Turn, log_event, process_log}
use ebpf_probe.Collector.Trace.Loop.{samples, write_each, is_long, process_events-log}

module _ {Args S : Type 0} (w : Writer Event Args S) where
  write_each-for_each :
      (ev : Event) (events : List Event) (writers : List S)
      → map (write_each w events) (for_each (w.write_event ev) writers)
        ≡ map (write_each w (ev ∷ events)) writers
  unfolding for_each
  write_each-for_each ev events [] = refl
  write_each-for_each ev events (s ∷ writers) =
      ap (λ r. write_each w events (w.write_event ev s).0 ∷ r)
        (write_each-for_each ev events writers)

  write_each_none : (writers : List S) → map (write_each w []) writers ≡ writers
  write_each_none [] = refl
  write_each_none (s ∷ writers) = ap (λ r. s ∷ r) (write_each_none writers)

  write_each-multi_writer :
      (events : List Event) (writers : List S)
      → write_each (multi_writer w) events writers ≡ map (write_each w events) writers
  unfolding multi_writer
  write_each-multi_writer [] writers = sym (write_each_none writers)
  write_each-multi_writer (ev ∷ events) writers =
      write_each-multi_writer events (for_each (w.write_event ev) writers)
      ∙ write_each-for_each ev events writers

  -- Behind a MultiWriter, each writer gets the event of every sample that the log collector reads
  -- before its loop ends, in the order of the samples, whatever the other writers answer; unless one
  -- of the samples announces more data than its array holds, when the probe panics.
  pub process_log-multi_writer :
      (probe_id : Bytes) (turns : List (Turn LogEvent)) (writers : List S)
      → process_log probe_id (multi_writer w) false turns writers ≡ (
          if any is_long (samples turns)
          then panic
          else ok (
              map
                (write_each w
                  (map (λ ev. log_event probe_id (take ev.data_len ev.payload)) (samples turns)))
                writers))
  process_log-multi_writer probe_id turns writers =
      process_events-log (multi_writer w) probe_id turns writers
      ∙ ap (λ r. if any is_long (samples turns) then panic else ok r)
          (write_each-multi_writer
            (map (λ ev. log_event probe_id (take ev.data_len ev.payload)) (samples turns)) writers)
