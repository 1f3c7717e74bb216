-- ===== src/Kernel/Hooks.antt =====
-- The list of hooks against the capabilities.
use mathlib.Core.Option.{some-injective}
use ebpf_probe.Prelude.{
  ◌≡◌, refl, Bool, true, false, ◌&&◌, ◌||◌, Option, none, some, List, [], ◌∷◌, ◌++◌, Bytes,
  bytes_eq, codes, arith,
}
use ebpf_probe.Kernel.{
  Capabilities, System, collect_hooks, checked, with_hooks, when, with_version, get_kernel_version,
  detect_capabilities,
}

unfoldable pub is_listed : Bytes → List Bytes → Bool
unfolding bytes_eq
is_listed hook [] = false
is_listed hook (h ∷ hooks) = bytes_eq h hook || is_listed hook hooks

-- The capability that stands behind a hook.
unfoldable pub offers : Capabilities → Bytes → Bool
unfolding bytes_eq
offers cap hook =
    (cap.has_bpf_kprobe && bytes_eq (codes "kprobe") hook)
    || ((cap.has_bpf_tracepoint && bytes_eq (codes "tracepoint") hook)
        || ((cap.has_bpf_xdp && bytes_eq (codes "xdp") hook)
            || ((cap.has_bpf_tc && bytes_eq (codes "tc") hook)
                || (cap.has_bpf_perf_event && bytes_eq (codes "perf_event") hook))))

is_listed-when :
    (b : Bool) (h : Bytes) (hooks : List Bytes) (hook : Bytes)
    → is_listed hook (when b h ++ hooks) ≡ (b && bytes_eq h hook) || is_listed hook hooks
unfolding is_listed
is_listed-when true h hooks hook = refl
is_listed-when false h hooks hook = refl

is_listed_last : (b : Bool) (h hook : Bytes) → is_listed hook (when b h) ≡ (b && bytes_eq h hook)
unfolding is_listed
is_listed_last true h hook = ground arith
is_listed_last false h hook = refl

is_listed-collect_hooks :
    (cap : Capabilities) (hook : Bytes) → is_listed hook (collect_hooks cap) ≡ offers cap hook
unfolding collect_hooks offers
is_listed-collect_hooks cap hook = simp (is_listed-when, is_listed_last)

-- After a detection, a hook is in the list exactly when it is one of the five and the detection
-- found the capability behind it.
pub detect_capabilities-hooks :
    (sys : System) (cap : Capabilities) (hook : Bytes)
    → detect_capabilities sys ≡ some cap
    → is_listed hook cap.available_hooks ≡ offers cap hook
unfolding detect_capabilities offers
detect_capabilities-hooks sys cap hook e = by_version (get_kernel_version sys) e
  where
    by_version :
        (v : Option Bytes)
        → with_version sys v ≡ some cap
        → is_listed hook cap.available_hooks ≡ offers cap hook
    by_version none h = cc
    by_version (some v) h =
        rw (← some-injective (with_hooks (checked sys v)) cap h)
          (is_listed-collect_hooks (checked sys v) hook)
