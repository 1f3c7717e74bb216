-- ===== src/Kernel.antt =====
-- internal/kernel/detector.go: what the kernel offers. The machine's answers are a record, and so is
-- how the library's scanner cuts a text into lines.
pub mod Hooks
mod Tests
use ebpf_probe.Prelude.{
  Bool, true, false, ◌||◌, Option, none, some, List, [], ◌∷◌, ◌++◌, Bytes, codes, contains,
  trim_space, any, if◌then◌else◌,
}

pub record Capabilities : Type 0 where
  pub version : Bytes
  pub has_btf : Bool
  pub has_co_re : Bool
  pub has_bpf_lsm : Bool
  pub has_bpf_tracing : Bool
  pub has_bpf_kprobe : Bool
  pub has_bpf_tracepoint : Bool
  pub has_bpf_xdp : Bool
  pub has_bpf_tc : Bool
  pub has_bpf_perf_event : Bool
  pub available_hooks : List Bytes

pub record System : Type 0 where
  pub uname : Option Bytes
  pub exists : Bytes → Bool
  pub read_file : Bytes → Option Bytes
  pub tc_runs : Bool
  pub scan : Bytes → List Bytes

abbrev pub version_of : Option Bytes → Option Bytes
version_of none = none
version_of (some out) = some (trim_space out)

unfoldable pub get_kernel_version : System → Option Bytes
unfolding trim_space
get_kernel_version sys = version_of sys.uname

-- The loop over the lines of a file, which ends at the first line with the word.
unfoldable pub any_line : Bytes → List Bytes → Bool
unfolding contains
any_line word [] = false
any_line word (line ∷ lines) =
    let rest = any_line word lines in if contains line word then true else rest

abbrev pub in_lines : System → Bytes → Option Bytes → Bool
in_lines sys word none = false
in_lines sys word (some text) = any_line word (sys.scan text)

abbrev pub in_text : (Bytes → Bool) → Option Bytes → Bool
in_text test none = false
in_text test (some text) = test text

unfoldable pub check_bpf_lsm : System → Bool
unfolding contains
check_bpf_lsm sys =
    in_text (λ text. contains text (codes "bpf")) (sys.read_file (codes "/sys/kernel/security/lsm"))

unfoldable pub check_kprobe : System → Bool
unfolding any_line
check_kprobe sys = in_lines sys (codes "kprobe_dispatcher") (sys.read_file (codes "/proc/kallsyms"))

unfoldable pub check_tracepoint : System → Bool
unfolding any_line
check_tracepoint sys = in_lines sys (codes "bpf_trace_run") (sys.read_file (codes "/proc/kallsyms"))

unfoldable pub check_xdp : System → Bool
unfolding contains
check_xdp sys =
    in_text (λ text. contains text (codes "eth") || contains text (codes "ens"))
      (sys.read_file (codes "/proc/net/dev"))

abbrev pub when : Bool → Bytes → List Bytes
when true hook = hook ∷ []
when false hook = []

unfoldable pub collect_hooks : Capabilities → List Bytes
collect_hooks cap =
    when cap.has_bpf_kprobe (codes "kprobe")
    ++ (when cap.has_bpf_tracepoint (codes "tracepoint")
        ++ (when cap.has_bpf_xdp (codes "xdp")
            ++ (when cap.has_bpf_tc (codes "tc")
                ++ when cap.has_bpf_perf_event (codes "perf_event"))))

-- The field for tracing is never set.
abbrev pub checked : System → Bytes → Capabilities
checked sys version = record {
  version = version;
  has_btf = sys.exists (codes "/sys/kernel/btf/vmlinux");
  has_co_re = sys.exists (codes "/sys/kernel/btf/vmlinux");
  has_bpf_lsm = check_bpf_lsm sys;
  has_bpf_tracing = false;
  has_bpf_kprobe = check_kprobe sys;
  has_bpf_tracepoint = check_tracepoint sys;
  has_bpf_xdp = check_xdp sys;
  has_bpf_tc = sys.tc_runs;
  has_bpf_perf_event = sys.exists (codes "/sys/kernel/debug/tracing");
  available_hooks = [];
}

abbrev pub with_hooks : Capabilities → Capabilities
with_hooks cap = record cap { available_hooks = collect_hooks cap }

abbrev pub with_version : System → Option Bytes → Option Capabilities
with_version sys none = none
with_version sys (some version) = some (with_hooks (checked sys version))

unfoldable pub detect_capabilities : System → Option Capabilities
unfolding get_kernel_version check_bpf_lsm check_kprobe check_tracepoint check_xdp collect_hooks
detect_capabilities sys = with_version sys (get_kernel_version sys)
