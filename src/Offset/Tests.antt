-- ===== src/Offset/Tests.antt =====
-- pkg/offset/detector.go: runs on a concrete machine, and each theorem at a concrete input.
use ebpf_probe.Prelude.{◌≡◌, refl, true, false, none, some, List, [], ◌∷◌, ◌++◌, codes}
use ebpf_probe.Offset.{OffsetDetector, amd64_offsets, new_offset_detector}
use ebpf_probe.Offset.Detect.{
  Machine, Entry, found, load_embedded_offsets, detect_auto, major_minor,
}
use ebpf_probe.Offset.Sources.{first_of, auto_sources, detect_auto-first_of}

-- The two files that are embedded; the decoder keeps the text as the version.
abbrev embedded : List Entry
embedded =
    record {
      name = codes "3.10.0-1160.el7.x86_64.json";
      is_dir = false;
      content = some (codes "old");
    }
    ∷ record { name = codes "5.4.0-100-generic.json"; is_dir = false; content = some (codes "new") }
    ∷ []

abbrev machine : Machine
machine = record {
  arch = codes "arm64";
  has_btf = true;
  bpftool_runs = true;
  uname = some (codes "5.4.0-150-generic" ++ (10 ∷ []));
  entries = some embedded;
  read_file = λ path. none;
  unmarshal = λ bytes. some (record amd64_offsets { kernel_version = bytes });
}

abbrev detector : OffsetDetector
detector = new_offset_detector (codes "auto") []

major_minor_test : major_minor (codes "5.4.0-150-generic") ≡ some (codes "5.4")
unfolding major_minor
major_minor_test = refl

-- The version 3.1 is given the offsets of 3.10, in whose name it is contained.
loose_match :
    load_embedded_offsets machine (codes "3.1")
    ≡ found (record amd64_offsets { kernel_version = codes "old" })
unfolding load_embedded_offsets
loose_match = refl

detect_auto_test :
    (detect_auto machine detector).1 ≡ found (record amd64_offsets { kernel_version = codes "new" })
unfolding detect_auto new_offset_detector
detect_auto_test = refl

detect_auto-first_of_example :
    (detect_auto machine detector).1 ≡ first_of (auto_sources machine detector)
detect_auto-first_of_example = detect_auto-first_of machine detector
