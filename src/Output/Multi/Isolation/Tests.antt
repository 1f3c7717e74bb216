-- ===== src/Output/Multi/Isolation/Tests.antt =====
-- multi.go: the theorem for writers that count bytes and fail when they are full.
use ebpf_probe.Prelude.{ℕ, ◌+◌, ◌≡◌, Bool, true, false, List, [], ◌∷◌, map, leb, if◌then◌else◌}
use ebpf_probe.Output.Multi.{Writer, multi_writer}
use ebpf_probe.Output.Multi.Isolation.{Call, write_event, run_calls, alone, run_calls-multi_writer}

-- Up to ten events fit; a flush empties the writer.
abbrev count_event : ℕ → ℕ × Bool
count_event n = if leb 10 n then (n, false) else (n + 1, true)

abbrev counter : Writer ℕ ℕ ℕ
counter = record {
  write_event = λ ev n. count_event n;
  write_batch = λ events n. count_event n;
  write_metrics = λ a n. count_event n;
  write_process_event = λ a n. count_event n;
  write_file_event = λ a n. count_event n;
  write_syscall_event = λ a n. count_event n;
  close = λ n. (0, true);
  flush = λ n. 0;
}

abbrev calls : List (Call ℕ ℕ)
calls = write_event 7 ∷ write_event 8 ∷ []

run_calls-multi_writer_example :
    run_calls (multi_writer counter) calls (9 ∷ 3 ∷ [])
    ≡ (map (alone counter calls) (9 ∷ 3 ∷ []), map (λ call. true) calls)
run_calls-multi_writer_example = run_calls-multi_writer counter calls (9 ∷ 3 ∷ [])
