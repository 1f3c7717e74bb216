-- ===== src/Collector/PingTrace/Tests.antt =====
-- pingtrace.go: a run on concrete answers, and each theorem at a concrete input.
use ebpf_probe.Prelude.{ℕ, zero, suc, ◌≡◌, ◌≤◌, refl, true, some, List, [], ◌∷◌, length, codes}
use ebpf_probe.Collector.PingTrace.{
  Answer, not_sent, silent, replied, time_exceeded, echo_reply, empty_trace, trace_loop, trace_path,
}
use ebpf_probe.Collector.PingTrace.Path.{rounds, path_of, hops_of, rtts_of, trace_path-rounds}

-- A router, a hop that keeps silent, and the destination.
abbrev answers : ℕ → Answer
answers zero = not_sent
answers (suc zero) = replied (codes "a") 300 time_exceeded
answers (suc (suc zero)) = silent
answers (suc (suc (suc n))) = replied (codes "b") 500 echo_reply

answers_rtts : (trace_loop 5 1 answers empty_trace).rtts ≡ 300 ∷ 500 ∷ []
unfolding trace_loop
answers_rtts = refl

trace_path-rounds_example :
    (trace_path true answers ≡ some (path_of (rounds 30 1 answers)))
    × (length (rtts_of (rounds 30 1 answers)) ≤ length (hops_of (rounds 30 1 answers)))
trace_path-rounds_example = trace_path-rounds answers

abbrev times : List ℕ
times = 300 ∷ 500 ∷ 250 ∷ []
