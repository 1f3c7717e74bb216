-- ===== src/Perf.antt =====
-- pkg/perf/analyzer.go: the CPU, memory and block I/O analysers. A Go map is an association list; the
-- order in which `range` goes through it is the order of the list, which an insertion of a new key
-- leaves open (here: at the end). Counters are uint64 and wrap around.
pub mod TopN
pub mod Counters
mod Tests
use ebpf_probe.Prelude.{
  ℕ, zero, suc, ◌+◌, ◌-◌, ◌%◌, ◌^◌, Bool, true, false, List, [], ◌∷◌, ◌++◌, map, Option, none, some,
  Bytes, length, take, ltb, leb, ◌==◌, if◌then◌else◌, bytes_eq,
}

-- uint64 addition.
abbrev pub add64 : ℕ → ℕ → ℕ
add64 a b = (a + b) % 2 ^ 64

pub record ProcessCpu : Type 0 where
  pub pid : ℕ
  pub comm : Bytes
  pub total_ns : ℕ
  pub user_ns : ℕ
  pub system_ns : ℕ

-- SchedAnalyzer.samples (its `interval` is never read): the value of the key `pid` is the entry with that `pid`.
abbrev pub Samples : Type 0
Samples = List ProcessCpu

-- The first sample of a process names it; later ones add to its total.
unfoldable pub record_sample : ℕ → Bytes → ℕ → Samples → Samples
record_sample pid comm delta [] =
    record { pid = pid; comm = comm; total_ns = add64 0 delta; user_ns = 0; system_ns = 0 } ∷ []
record_sample pid comm delta (p ∷ rest) =
    if p.pid == pid
    then record p { total_ns = add64 p.total_ns delta } ∷ rest
    else p ∷ record_sample pid comm delta rest

unfoldable pub reset : Samples → Samples
reset s = []

pub record AllocInfo : Type 0 where
  pub pid : ℕ
  pub bytes : ℕ
  pub count : ℕ
  pub alloc_ns : ℕ
  pub free_ns : ℕ

abbrev pub Allocs : Type 0
Allocs = List AllocInfo

unfoldable pub record_alloc : ℕ → ℕ → Allocs → Allocs
record_alloc pid n [] =
    record { pid = pid; bytes = add64 0 n; count = add64 0 1; alloc_ns = 0; free_ns = 0 } ∷ []
record_alloc pid n (a ∷ rest) =
    if a.pid == pid
    then record a { bytes = add64 a.bytes n; count = add64 a.count 1 } ∷ rest
    else a ∷ record_alloc pid n rest

-- A free of more than is held, or of an unknown process, is ignored.
unfoldable pub record_free : ℕ → ℕ → Allocs → Allocs
record_free pid n [] = []
record_free pid n (a ∷ rest) =
    if a.pid == pid
    then (if leb n a.bytes then record a { bytes = a.bytes - n } ∷ rest else a ∷ rest)
    else a ∷ record_free pid n rest

pub record BlockIoStats : Type 0 where
  pub device : Bytes
  pub read_count : ℕ
  pub write_count : ℕ
  pub read_bytes : ℕ
  pub write_bytes : ℕ
  pub read_lat_ns : ℕ
  pub write_lat_ns : ℕ

abbrev pub IoStats : Type 0
IoStats = List BlockIoStats

unfoldable pub add_io : Bool → ℕ → ℕ → BlockIoStats → BlockIoStats
add_io true n latency s = record s {
  write_count = add64 s.write_count 1;
  write_bytes = add64 s.write_bytes n;
  write_lat_ns = add64 s.write_lat_ns latency;
}
add_io false n latency s = record s {
  read_count = add64 s.read_count 1;
  read_bytes = add64 s.read_bytes n;
  read_lat_ns = add64 s.read_lat_ns latency;
}

abbrev pub new_stats : Bytes → BlockIoStats
new_stats device = record {
  device = device;
  read_count = 0;
  write_count = 0;
  read_bytes = 0;
  write_bytes = 0;
  read_lat_ns = 0;
  write_lat_ns = 0;
}

unfoldable pub record_io : Bytes → Bool → ℕ → ℕ → IoStats → IoStats
unfolding add_io bytes_eq
record_io device is_write n latency [] = add_io is_write n latency (new_stats device) ∷ []
record_io device is_write n latency (s ∷ rest) =
    if bytes_eq s.device device
    then add_io is_write n latency s ∷ rest
    else s ∷ record_io device is_write n latency rest

-- The two ranking loops of GetTopCPU and GetTopAlloc, over what is ranked (`key`).
module _ {ℓ} {A : Type ℓ} (key : A → ℕ) where
  -- `for j := i + 1; …`: `x` is the entry at `i`; each later entry that is greater is swapped in.
  -- The result is the entry that ends up at `i` and the entries behind it.
  unfoldable pub select_max : A → List A → A × List A
  select_max x [] = (x, [])
  select_max x (y ∷ rest) =
      let swapped = ltb (key x) (key y) in
      let below = select_max (if swapped then y else x) rest in
      (below.0, (if swapped then x else y) ∷ below.1)

  -- `for i := 0; …`, a round for each entry.
  unfoldable pub rank : ℕ → List A → List A
  unfolding select_max
  rank zero l = l
  rank (suc n) [] = []
  rank (suc n) (x ∷ rest) = let chosen = select_max x rest in chosen.0 ∷ rank n chosen.1

  -- The first `n` entries of the ranking, for n ≥ 0 (a negative n is a slice out of range).
  unfoldable pub top : ℕ → List A → List A
  unfolding rank
  top n l = take (if ltb (length l) n then length l else n) (rank (length l) l)

unfoldable pub get_top_cpu : ℕ → Samples → List ProcessCpu
unfolding top
get_top_cpu = top (λ p. p.total_ns)

unfoldable pub get_top_alloc : ℕ → Allocs → List AllocInfo
unfolding top
get_top_alloc = top (λ a. a.bytes)
