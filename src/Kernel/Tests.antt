-- ===== src/Kernel/Tests.antt =====
-- The detection on a machine with tracepoints and tc.
use ebpf_probe.Prelude.{◌≡◌, refl, true, none, some, [], ◌∷◌, bytes_eq, codes, if◌then◌else◌}
use ebpf_probe.Kernel.{
  Capabilities, System, collect_hooks, check_kprobe, check_tracepoint, check_xdp, checked,
  with_hooks, detect_capabilities,
}

abbrev machine : System
machine = record {
  uname = some (codes "6.1.0\n");
  exists = λ path. bytes_eq path (codes "/sys/kernel/btf/vmlinux");
  read_file = λ path.
      if bytes_eq path (codes "/proc/kallsyms") then some (codes "T bpf_trace_run1") else none;
  tc_runs = true;
  scan = λ text. text ∷ [];
}

abbrev found : Capabilities
found = with_hooks (checked machine (codes "6.1.0"))

detects_machine : detect_capabilities machine ≡ some found
unfolding detect_capabilities
detects_machine = refl

machine_hooks : collect_hooks found ≡ codes "tracepoint" ∷ codes "tc" ∷ []
unfolding collect_hooks check_kprobe bytes_eq check_tracepoint check_xdp
machine_hooks = refl
