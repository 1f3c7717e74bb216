-- ===== src/Collector/Docker.antt =====
-- docker.go: the container that a process belongs to, by its cgroup file. What /proc holds is an
-- argument, and so are the two library functions that read it: bufio.Scanner for the lines of a
-- file, and fmt.Sscanf for the number that a name begins with. A text that is not found is empty.
pub mod Paths
pub mod Mapper
mod Tests
use mathlib.Core.List.{reverse}
use ebpf_probe.Prelude.{
  ℕ, Bool, true, false, not, ◌&&◌, ◌||◌, Option, none, some, List, [], ◌∷◌, ◌+◌, Bytes, bytes_eq,
  codes, has_prefix, has_suffix, trim_prefix, trim_suffix, contains, index_of, split, length, take,
  drop, ltb, leb, ◌==◌, if◌then◌else◌,
}

pub record ContainerInfo : Type 0 where
  pub container_id : Bytes
  pub name : Bytes
  pub image : Bytes

-- The first segment of 64 bytes.
unfoldable pub long_segment : List Bytes → Bytes
long_segment [] = []
long_segment (seg ∷ segments) = if length seg == 64 then seg else long_segment segments

-- A segment `docker-<id>.scope`, without its two ends.
unfoldable pub scope_id : Bytes → Bytes
unfolding trim_suffix trim_prefix
scope_id seg = trim_suffix (trim_prefix seg (codes "docker-")) (codes ".scope")

unfoldable pub is_scope : Bytes → Bool
unfolding has_prefix has_suffix
is_scope seg = has_prefix seg (codes "docker-") && has_suffix seg (codes ".scope")

-- The first loop over the segments of a path that has "docker" in it.
unfoldable pub docker_loop : List Bytes → Bytes
unfolding scope_id is_scope
docker_loop [] = []
docker_loop (seg ∷ segments) =
    let rest = docker_loop segments in
    if is_scope seg && leb 12 (length (scope_id seg))
    then scope_id seg
    else if (length seg == 64) || (length seg == 12)
    then seg
    else rest

abbrev pub or_else : Bytes → Bytes → Bytes
or_else [] other = other
or_else (c ∷ found) other = c ∷ found

unfoldable pub docker_part : Bytes → Bytes
unfolding docker_loop long_segment contains split
docker_part path =
    if contains path (codes "docker")
    then or_else (docker_loop (split b'/' path)) (long_segment (split b'/' path))
    else []

unfoldable pub containerd_part : Bytes → Bytes
unfolding long_segment contains split
containerd_part path =
    if contains path (codes "containerd") then long_segment (split b'/' path) else []

unfoldable pub extract_container_id : Bytes → Bytes
unfolding docker_part containerd_part
extract_container_id path = or_else (docker_part path) (containerd_part path)

-- The loop over the lines of a cgroup file: the third of three parts is the path.
unfoldable pub cgroup_loop : (Bytes → Bytes) → List (List Bytes) → Bytes
cgroup_loop extract [] = []
cgroup_loop extract ((a ∷ b ∷ path ∷ []) ∷ lines) =
    or_else (extract path) (cgroup_loop extract lines)
cgroup_loop extract (parts ∷ lines) = cgroup_loop extract lines

abbrev pub split_lines : List Bytes → List (List Bytes)
split_lines [] = []
split_lines (line ∷ lines) = split b':' line ∷ split_lines lines

-- An entry of the directory /proc.
pub record ProcEntry : Type 0 where
  pub name : Bytes
  pub is_dir : Bool

-- `cgroup` is what /proc/<pid>/cgroup holds.
pub record Proc : Type 0 where
  pub entries : Option (List ProcEntry)
  pub cgroup : ℕ → Option Bytes
  pub scan_lines : Bytes → List Bytes
  pub leading_number : Bytes → Option ℕ

abbrev pub lines_of : Proc → Option Bytes → List (List Bytes)
lines_of p none = []
lines_of p (some content) = split_lines (p.scan_lines content)

abbrev pub info_of : Bytes → Option ContainerInfo
info_of [] = none
info_of (c ∷ id) = some (record { container_id = c ∷ id; name = []; image = [] })

-- The method of the mapper that reads one process.
unfoldable pub read_container : Proc → ℕ → Option ContainerInfo
unfolding cgroup_loop extract_container_id
read_container p pid = info_of (cgroup_loop extract_container_id (lines_of p (p.cgroup pid)))

-- The map of the mapper.
abbrev pub Containers : Type 0
Containers = List (ℕ × ContainerInfo)

-- `newMap[pid] = info`, by putting it in front.
abbrev pub put_info : ℕ → Option ContainerInfo → Containers → Containers
put_info pid none m = m
put_info pid (some info) m = (pid, info) ∷ m

abbrev pub put_process : Proc → Option ℕ → Containers → Containers
put_process p none m = m
put_process p (some pid) m = put_info pid (read_container p pid) m

unfoldable pub refresh_loop : Proc → List ProcEntry → Containers → Containers
refresh_loop p [] m = m
refresh_loop p (e ∷ entries) m =
    refresh_loop p entries (if e.is_dir then put_process p (p.leading_number e.name) m else m)

unfoldable pub refresh : Proc → Containers → Containers
unfolding refresh_loop
refresh p m = elim (p.entries) [ none ↦ m | some entries ↦ refresh_loop p entries [] ]

unfoldable pub get_container_by_pid : ℕ → Containers → Option ContainerInfo
get_container_by_pid pid [] = none
get_container_by_pid pid (e ∷ m) =
    let rest = get_container_by_pid pid m in if e.0 == pid then some e.1 else rest

-- The functions of the package.
unfoldable pub long_id : Bytes → Bytes
unfolding long_segment contains split
long_id path =
    if contains path (codes "docker") || contains path (codes "containerd")
    then long_segment (split b'/' path)
    else []

unfoldable pub get_container_id : Proc → ℕ → Bytes
unfolding cgroup_loop long_id
get_container_id p pid = cgroup_loop long_id (lines_of p (p.cgroup pid))

-- `cgroupPath[start:start+end]` when `end > 0`, of what stands behind "docker-".
abbrev pub up_to : Bytes → Option ℕ → Option Bytes
up_to s none = none
up_to s (some n) = if ltb 0 n then some (take n s) else none

abbrev pub scope_in : Bytes → Option ℕ → Option Bytes
scope_in path none = none
scope_in path (some i) = up_to (drop (i + 7) path) (index_of (drop (i + 7) path) (codes ".scope"))

abbrev pub or_text : Option Bytes → Bytes → Bytes
or_text none other = other
or_text (some s) other = s

-- The test for "docker-" is the one that its index exists.
unfoldable pub get_container_id_from_cgroup : Bytes → Bytes
unfolding index_of long_segment split
get_container_id_from_cgroup path =
    or_text (scope_in path (index_of path (codes "docker-")))
      (long_segment (reverse (split b'/' path)))
