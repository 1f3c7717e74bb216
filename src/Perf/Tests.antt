-- ===== src/Perf/Tests.antt =====
-- The analysers on small inputs.
use ebpf_probe.Prelude.{◌+◌, ◌≡◌, ◌≢◌, refl, true, List, [], ◌∷◌, map, arith, codes}
use ebpf_probe.Perf.{
  Samples, Allocs, IoStats, record_sample, record_alloc, record_free, record_io, add_io,
  get_top_cpu,
}
use ebpf_probe.Perf.TopN.{IsTop, get_top_cpu-IsTop}
use ebpf_probe.Perf.Counters.{
  bytes_of, MemEvent, alloc, free, record_all, allocated, freed, IsCovered, record_all_balance,
}

abbrev three_samples : Samples
unfolding record_sample
three_samples =
    record_sample 3 (codes "sh") 5
      (record_sample 2 (codes "go") 9 (record_sample 1 (codes "init") 4 []))

abbrev two_allocs : Allocs
unfolding record_alloc
two_allocs = record_alloc 8 100 (record_alloc 7 10 [])

abbrev some_events : List MemEvent
some_events = alloc 7 10 ∷ alloc 8 4 ∷ free 7 6 ∷ free 8 4 ∷ []

abbrev one_disk : IoStats
unfolding record_io add_io
one_disk = record_io (codes "sda") true 512 30 []

top_two : map (λ p. p.pid) (get_top_cpu 2 three_samples) ≡ 2 ∷ 3 ∷ []
unfolding get_top_cpu record_sample
top_two = refl

some_events-IsCovered : IsCovered some_events []
unfolding IsCovered record_alloc record_free
some_events-IsCovered = (omega arith, (omega arith, tt))

get_top_cpu-IsTop_example : IsTop (λ p. p.total_ns) 2 three_samples (get_top_cpu 2 three_samples)
get_top_cpu-IsTop_example = get_top_cpu-IsTop 2 three_samples

record_all_balance_example :
    bytes_of 7 (record_all some_events []) + freed 7 some_events
    ≡ bytes_of 7 [] + allocated 7 some_events
record_all_balance_example = record_all_balance 7 some_events [] some_events-IsCovered (omega arith)

codes-differ : codes "nvme0" ≢ codes "sda"
codes-differ = cc
