-- ===== src/Collector/Docker/Tests.antt =====
-- docker.go: runs on concrete paths, and each theorem at a concrete input.
use ebpf_probe.Prelude.{
  ◌≡◌, ◌≤◌, ◌⊎◌, refl, true, false, none, some, [], ◌∷◌, ◌++◌, Bytes, arith, codes, length, ◌==◌,
  if◌then◌else◌, bytes_eq,
}
use ebpf_probe.Collector.Docker.{
  Proc, extract_container_id, get_container_id_from_cgroup, get_container_by_pid, refresh,
  read_container,
}
use ebpf_probe.Collector.Docker.Paths.{
  scope_path, get_container_id_from_cgroup-scope_path, extract_container_id_bound,
}

abbrev id16 : Bytes
id16 = codes "0123456789abcdef"

abbrev id64 : Bytes
id64 = id16 ++ (id16 ++ (id16 ++ id16))

get_container_id_from_cgroup-scope_path_example :
    get_container_id_from_cgroup (scope_path (b'a' ∷ b'b' ∷ [])) ≡ b'a' ∷ b'b' ∷ []
get_container_id_from_cgroup-scope_path_example =
    get_container_id_from_cgroup-scope_path (b'a' ∷ b'b' ∷ []) (λ e. cc) (ground arith)

scope_path_test : extract_container_id (scope_path id64) ≡ codes "system.slice"
unfolding extract_container_id
scope_path_test = refl

extract_container_id_bound_example :
    (extract_container_id (codes "/docker/123456789012") ≡ [])
    ⊎ (12 ≤ length (extract_container_id (codes "/docker/123456789012")))
extract_container_id_bound_example = extract_container_id_bound (codes "/docker/123456789012")

-- Process 7 runs in a container, process 1 does not.
abbrev proc : Proc
proc = record {
  entries = some (
      record { name = codes "7"; is_dir = true }
      ∷ record { name = codes "1"; is_dir = true }
      ∷ record { name = codes "uptime"; is_dir = false }
      ∷ []);
  cgroup =
      λ pid. some (if pid == 7 then codes "0::/docker/123456789012" else codes "0::/init.scope");
  scan_lines = λ content. content ∷ [];
  leading_number = λ name.
      if bytes_eq name (codes "7")
      then some 7
      else if bytes_eq name (codes "1")
      then some 1
      else none;
}

refreshed_test :
    get_container_by_pid 7 (refresh proc [])
    ≡ some (record { container_id = codes "123456789012"; name = []; image = [] })
unfolding get_container_by_pid refresh read_container
refreshed_test = refl
