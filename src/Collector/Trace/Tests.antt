-- ===== src/Collector/Trace/Tests.antt =====
-- Runs of the collectors that read a ring buffer.
use ebpf_probe.Prelude.{
  ℕ, ◌≡◌, refl, true, false, ◌&&◌, ◌||◌, List, [], ◌∷◌, ◌++◌, ok, panic, codes, take, map, any,
  some, if◌then◌else◌,
}
use ebpf_probe.Kernel.{Capabilities, System, checked, with_hooks, detect_capabilities}
use ebpf_probe.Kernel.Hooks.{is_listed}
use ebpf_probe.Output.Multi.{Writer, multi_writer}
use ebpf_probe.Output.ClickHouse.{Connected, runs}
use ebpf_probe.Output.ClickHouse.Rows.{chw}
use ebpf_probe.Output.ClickHouse.Stored.{rows}
use ebpf_probe.Collector.Trace.Stored.{log_events, process_log-stores}
use ebpf_probe.Collector.Trace.Written.{process_log-multi_writer}
use ebpf_probe.Collector.Trace.{
  Event, TlsEvent, LogEvent, log_event, log_output, Turn, sample, closed, failed, process_events,
  process_log,
}
use ebpf_probe.Collector.Trace.Loop.{samples, write_each, is_long}
use ebpf_probe.Collector.Trace.Life.{
  TraceCollector, Loader, new_collector, init_http2, init_log, init_tls, loads, start, stop,
  init-hooks, restart_dead,
}

-- A writer that keeps what it gets, and answers every event with an error.
abbrev keeper : Writer Event ℕ (List Event)
keeper = record {
  write_event = λ ev s. (s ++ ev ∷ [], false);
  write_batch = λ events s. (s ++ events, true);
  write_metrics = λ a s. (s, true);
  write_process_event = λ a s. (s, true);
  write_file_event = λ a s. (s, true);
  write_syscall_event = λ a s. (s, true);
  close = λ s. (s, true);
  flush = λ s. s;
}

abbrev line : ℕ → LogEvent
line n = record {
  timestamp_ns = 5;
  type = 1;
  pid = 7;
  ppid = 1;
  fd = 1;
  data_len = n;
  comm = codes "sh";
  payload = codes "hello";
}

abbrev lines : List (Turn LogEvent)
lines = (false, sample (line 2)) ∷ (false, failed) ∷ (false, sample (line 5)) ∷ (false, closed) ∷ []

two_lines :
    process_log (codes "p") keeper false lines []
    ≡ ok (log_event (codes "p") (codes "he") ∷ log_event (codes "p") (codes "hello") ∷ [])
unfolding process_log
two_lines = refl

long_line : process_log (codes "p") keeper false ((false, sample (line 6)) ∷ []) [] ≡ panic
unfolding process_log
long_line = refl

abbrev handshake : TlsEvent
handshake = record {
  timestamp_ns = 5;
  type = 1;
  pid = 7;
  ppid = 1;
  src_ip = 1;
  dst_ip = 2;
  src_port = 4000;
  dst_port = 443;
  ssl_version = 3;
  event_type = 0;
  data_len = 0;
  latency_ns = 9;
  comm = codes "curl";
  sni = codes "example.org";
  payload = [];
}

abbrev tls_turns : List (Turn TlsEvent)
tls_turns = (false, sample handshake) ∷ (true, sample handshake) ∷ []

abbrev started : TraceCollector
started = record new_collector { running = true }

abbrev stopped : TraceCollector
stopped = record new_collector { stop_closed = true }

stop_started : stop started ≡ ok stopped
unfolding stop
stop_started = refl

restart_dead_example :
    ((start true stopped).1 ≡ true)
    × (((start true stopped).0.running ≡ true)
        × ((process_events
                (log_output (codes "p"))
                keeper
                (start true stopped).0.stop_closed
                lines
                []
              ≡ ok [])
            × (stop (start true stopped).0 ≡ panic)))
restart_dead_example =
    restart_dead started stopped (log_output (codes "p")) keeper lines [] refl stop_started

abbrev bare : System
bare = record {
  uname = some (codes "6.1.0");
  exists = λ path. false;
  read_file = λ path. some (codes "bpf_trace_run1");
  tc_runs = false;
  scan = λ text. text ∷ [];
}

abbrev bare_cap : Capabilities
bare_cap = with_hooks (checked bare (codes "6.1.0"))

bare_found : detect_capabilities bare ≡ some bare_cap
unfolding detect_capabilities
bare_found = refl

abbrev loader : Loader
loader = record { memlock_removed = true; objects_loaded = true; reader_made = true }

init-hooks_example :
    ((init_http2 bare_cap loader new_collector).1
      ≡ is_listed (codes "kprobe") bare_cap.available_hooks && loads loader)
    × (((init_log bare_cap loader new_collector).1
          ≡ is_listed (codes "tracepoint") bare_cap.available_hooks && loads loader)
        × ((init_tls (λ path. true) bare_cap loader new_collector).1
            ≡ (is_listed (codes "kprobe") bare_cap.available_hooks
                || is_listed (codes "tracepoint") bare_cap.available_hooks)
              && loads loader))
init-hooks_example = init-hooks bare bare_cap (λ path. true) loader new_collector bare_found

process_log-multi_writer_example :
    process_log (codes "p") (multi_writer keeper) false lines ([] ∷ [] ∷ []) ≡ (
      if any is_long (samples lines)
      then panic
      else ok (
          map
            (write_each keeper
              (map (λ ev. log_event (codes "p") (take ev.data_len ev.payload)) (samples lines)))
            ([] ∷ [] ∷ [])))
process_log-multi_writer_example = process_log-multi_writer keeper (codes "p") lines ([] ∷ [] ∷ [])

-- A database that accepts everything.
abbrev database : Connected Event
database = record {
  writer = record { batch = []; batch_size = 2 };
  answers = λ n. runs (λ e. true) true;
  accepts = λ n. true;
  closes = true;
  stop_closed = false;
  crashed = false;
  flushes = 0;
  statements = 0;
  reports = [];
}

process_log-stores_example :
    (process_log (codes "p") (chw {Args = ℕ}) false lines database
      ≡ ok (write_each (chw {Args = ℕ}) (log_events (codes "p") lines) database))
    × ((let r = write_each (chw {Args = ℕ}) (log_events (codes "p") lines) database in
          rows r.reports ++ r.writer.batch)
        ≡ log_events (codes "p") lines)
process_log-stores_example =
    process_log-stores ℕ (codes "p") lines database refl (λ n. refl) refl refl
