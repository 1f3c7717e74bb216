-- ===== src/Collector/Docker/Mapper.antt =====
-- What the mapper knows after a refresh.
use ebpf_probe.Prelude.{
  ℕ, Bool, false, ◌&&◌, ◌||◌, Option, none, some, List, [], ◌∷◌, ◌==◌, if◌then◌else◌,
}
use ebpf_probe.Collector.Docker.{ContainerInfo, ProcEntry, Proc, read_container}

abbrev is_number : Option ℕ → ℕ → Bool
is_number none pid = false
is_number (some n) pid = n == pid

-- A directory of /proc whose name begins with the number.
abbrev pub is_listed : Proc → List ProcEntry → ℕ → Bool
is_listed p [] pid = false
is_listed p (e ∷ entries) pid =
    (e.is_dir && is_number (p.leading_number e.name) pid) || is_listed p entries pid

abbrev or_old : Option ContainerInfo → Option ContainerInfo → Option ContainerInfo
or_old none old = old
or_old (some info) old = some info

abbrev pub refreshed :
    Proc → ℕ → Option ContainerInfo → Option (List ProcEntry) → Option ContainerInfo
refreshed p pid old none = old
refreshed p pid old (some entries) = if is_listed p entries pid then read_container p pid else none
