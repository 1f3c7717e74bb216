-- ===== src/Perf/Counters.antt =====
-- What the analysers' counters say after a recording: SchedAnalyzer.RecordSample,
-- MemLeakDetector.RecordAlloc and RecordFree.
use ebpf_probe.Prelude.{
  ℕ, ◌+◌, ◌-◌, ◌^◌, ◌≤◌, ◌<◌, ◌≡◌, refl, ap, sym, ◌∙◌, Bool, true, false, List, [], ◌∷◌, Bytes,
  arith, leb, ◌==◌, ◌&&◌, Bool-cases, inl, inr, if◌then◌else◌, bytes_eq, bytes_eq_sound,
  bytes_eq_refl, ◌≢◌,
}
use ebpf_probe.Perf.{
  Samples, Allocs, add64, record_sample, record_alloc, record_free, IoStats, BlockIoStats,
  new_stats, add_io, record_io,
}

-- The CPU time known of a process: `samples[pid].TotalNS`, 0 for an unknown one.
abbrev pub cpu_of : ℕ → Samples → ℕ
cpu_of pid [] = 0
cpu_of pid (p ∷ rest) = if p.pid == pid then p.total_ns else cpu_of pid rest

-- The bytes that a process holds: `allocs[pid].Bytes`, 0 for an unknown one.
abbrev pub bytes_of : ℕ → Allocs → ℕ
bytes_of pid [] = 0
bytes_of pid (a ∷ rest) = if a.pid == pid then a.bytes else bytes_of pid rest

-- A sample adds its time, modulo 2^64, to the time of its process and to no other's.
pub cpu_of-record_sample :
    (q pid : ℕ) (comm : Bytes) (delta : ℕ) (samples : Samples)
    → cpu_of q (record_sample pid comm delta samples)
      ≡ (if pid == q then add64 (cpu_of q samples) delta else cpu_of q samples)
unfolding record_sample
cpu_of-record_sample q pid comm delta [] = ground arith
cpu_of-record_sample q pid comm delta (p ∷ rest) =
    let ih = cpu_of-record_sample q pid comm delta rest in ground (arith, ih)

bytes_of-record_alloc :
    (q pid n : ℕ) (allocs : Allocs)
    → bytes_of q (record_alloc pid n allocs)
      ≡ (if pid == q then add64 (bytes_of q allocs) n else bytes_of q allocs)
unfolding record_alloc
bytes_of-record_alloc q pid n [] = ground arith
bytes_of-record_alloc q pid n (a ∷ rest) =
    let ih = bytes_of-record_alloc q pid n rest in ground (arith, ih)

bytes_of-record_free :
    (q pid n : ℕ) (allocs : Allocs)
    → bytes_of q (record_free pid n allocs)
      ≡ (if pid == q && leb n (bytes_of q allocs) then bytes_of q allocs - n else bytes_of q allocs)
unfolding record_free
bytes_of-record_free q pid n [] = ground arith
bytes_of-record_free q pid n (a ∷ rest) =
    let ih = bytes_of-record_free q pid n rest in ground (arith, ih)

-- A recording of the memory analyser.
pub data MemEvent : Type 0 where
  alloc : ℕ → ℕ → MemEvent
  free : ℕ → ℕ → MemEvent

unfoldable pub record_event : MemEvent → Allocs → Allocs
record_event (alloc pid n) allocs = record_alloc pid n allocs
record_event (free pid n) allocs = record_free pid n allocs

unfoldable pub record_all : List MemEvent → Allocs → Allocs
unfolding record_event
record_all [] allocs = allocs
record_all (e ∷ events) allocs = record_all events (record_event e allocs)

abbrev pub allocated : ℕ → List MemEvent → ℕ
allocated q [] = 0
allocated q (alloc pid n ∷ events) = (if pid == q then n else 0) + allocated q events
allocated q (free pid n ∷ events) = allocated q events

abbrev pub freed : ℕ → List MemEvent → ℕ
freed q [] = 0
freed q (alloc pid n ∷ events) = freed q events
freed q (free pid n ∷ events) = (if pid == q then n else 0) + freed q events

-- No process frees more than it holds at that time.
unfoldable pub IsCovered : List MemEvent → Allocs → Type 0
unfolding record_event
IsCovered [] allocs = Unit {0}
IsCovered (alloc pid n ∷ events) allocs = IsCovered events (record_alloc pid n allocs)
IsCovered (free pid n ∷ events) allocs =
    (n ≤ bytes_of pid allocs) × IsCovered events (record_free pid n allocs)

-- Over a run of recordings in which no process frees more than it holds, and in which what a
-- process holds at first and allocates stays below 2^64, the bytes recorded for it at the end and
-- the bytes it freed are the bytes it held at first and those it allocated.
pub record_all_balance :
    (q : ℕ) (events : List MemEvent) (allocs : Allocs)
    → IsCovered events allocs
    → bytes_of q allocs + allocated q events < 2 ^ 64
    → bytes_of q (record_all events allocs) + freed q events
      ≡ bytes_of q allocs + allocated q events
unfolding record_all record_event IsCovered
record_all_balance q [] allocs c h = refl
record_all_balance q (alloc pid n ∷ events) allocs c h =
    let step = bytes_of-record_alloc q pid n allocs in
    let ih = record_all_balance q events (record_alloc pid n allocs) c in
    ground (arith, ih, step, h)
record_all_balance q (free pid n ∷ events) allocs c h =
    let step = bytes_of-record_free q pid n allocs in
    let ih = record_all_balance q events (record_free pid n allocs) c.1 in
    ground (arith, ih, step, h, c.0)

-- The statistics of a device: `ios[device]`, those of a new device if it is unknown.
abbrev pub io_of : Bytes → IoStats → BlockIoStats
io_of device [] = new_stats device
io_of device (s ∷ rest) = if bytes_eq s.device device then s else io_of device rest

device-add_io :
    (w : Bool) (n latency : ℕ) (s : BlockIoStats) → (add_io w n latency s).device ≡ s.device
unfolding add_io
device-add_io true n latency s = refl
device-add_io false n latency s = refl

-- An I/O is counted once for its device, with its bytes and its time on the side of its direction.
pub io_of-record_io :
    (device : Bytes) (w : Bool) (n latency : ℕ) (stats : IoStats)
    → io_of device (record_io device w n latency stats) ≡ add_io w n latency (io_of device stats)
unfolding record_io
io_of-record_io device w n latency [] =
    rw (device-add_io w n latency (new_stats device)) (rw (bytes_eq_refl device) refl)
io_of-record_io device w n latency (s ∷ rest) = elim (Bool-cases (bytes_eq s.device device)) [
  | inl same ↦ rw same (rw (device-add_io w n latency s) (rw same refl))
  | inr other ↦ rw other (rw other (io_of-record_io device w n latency rest))
]

bytes_eq_differ : (s t : Bytes) → s ≢ t → bytes_eq s t ≡ false
bytes_eq_differ s t h = elim (Bool-cases (bytes_eq s t)) [
  | inl same ↦ absurd (h (bytes_eq_sound s t same))
  | inr other ↦ other
]

-- An I/O of one device leaves the statistics of every other as they were.
pub io_of-record_io_other :
    (q device : Bytes) (w : Bool) (n latency : ℕ) (stats : IoStats)
    → device ≢ q
    → io_of q (record_io device w n latency stats) ≡ io_of q stats
unfolding record_io
io_of-record_io_other q device w n latency [] h =
    rw (device-add_io w n latency (new_stats device)) (rw (bytes_eq_differ device q h) refl)
io_of-record_io_other q device w n latency (s ∷ rest) h =
    elim (Bool-cases (bytes_eq s.device device)) [
      | inl same ↦ rw same (
          let ne = bytes_eq_differ s.device q (λ eq. h (sym (bytes_eq_sound _ _ same) ∙ eq)) in
          rw (device-add_io w n latency s) (rw ne refl))
      | inr other ↦ rw other (
          ap (λ b. if bytes_eq s.device q then s else b)
            (io_of-record_io_other q device w n latency rest h))
    ]
