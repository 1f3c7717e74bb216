-- ===== src/Output/ClickHouse/Tests.antt =====
-- clickhouse.go: a run on numbers for events, and each theorem at a concrete input.
use ebpf_probe.Prelude.{ℕ, ◌≡◌, refl, true, false, List, [], ◌∷◌, ◌++◌, arith}
use ebpf_probe.Output.Multi.Isolation.{Call, write_event, write_batch, run_calls}
use ebpf_probe.Output.ClickHouse.{DbAnswer, begin_error, runs, Connected, click_house_writer}
use ebpf_probe.Output.ClickHouse.Rows.{chw, queue, all_events, IsBelow, click_house_keeps}
use ebpf_probe.Output.ClickHouse.Stored.{rows}

abbrev connected : DbAnswer ℕ → Connected ℕ
connected answer = record {
  writer = record { batch = []; batch_size = 2 };
  answers = λ n. answer;
  accepts = λ n. true;
  closes = true;
  stop_closed = false;
  crashed = false;
  flushes = 0;
  statements = 0;
  reports = [];
}

abbrev calls : List (Call ℕ ℕ)
calls = write_event 1 ∷ write_batch (2 ∷ 3 ∷ []) ∷ write_event 4 ∷ []

calls_stored :
    rows (run_calls chw calls (connected (runs (λ e. true) true))).0.reports ≡ 1 ∷ 2 ∷ 3 ∷ []
unfolding run_calls click_house_writer
calls_stored = refl

calls_fine : (run_calls chw calls (connected begin_error)).0.crashed ≡ false
unfolding run_calls click_house_writer
calls_fine = refl

click_house_keeps_example :
    (queue (run_calls chw calls (connected begin_error)).0
      ≡ queue (connected begin_error) ++ all_events calls)
    × IsBelow 2 (run_calls chw calls (connected begin_error)).0
click_house_keeps_example =
    click_house_keeps 2 calls (connected begin_error) (refl, omega arith) calls_fine
