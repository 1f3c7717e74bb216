-- ===== src/Offset/Detect.antt =====
-- The detection. What the machine answers is a record: its architecture, whether it has BTF and
-- bpftool, the output of uname, the files embedded in the program, what can be read at a path, and
-- the JSON decoder of the library.
use ebpf_probe.Prelude.{
  Bool, not, ◌&&◌, ◌||◌, Option, none, some, List, [], ◌∷◌, ◌++◌, Bytes, bytes_eq, contains,
  trim_suffix, trim_space, codes, ◌==◌, if◌then◌else◌,
}
use ebpf_probe.Offset.{KernelOffsets, OffsetDetector, amd64_offsets}

-- Up to the first dot, and what stands behind it.
unfoldable pub cut_dot : Bytes → Bytes × Option Bytes
cut_dot [] = ([], none)
cut_dot (c ∷ s) = let rest = cut_dot s in if c == 46 then ([], some s) else (c ∷ rest.0, rest.1)

abbrev first_two : Bytes × Option Bytes → Option Bytes
first_two (major, none) = none
first_two (major, some rest) = some (major ++ (46 ∷ (cut_dot rest).0))

-- The first two parts of the version, with their dot, when there are two.
unfoldable pub major_minor : Bytes → Option Bytes
unfolding cut_dot
major_minor version = first_two (cut_dot version)

-- A file of the directory "offsets"; `content` is none if it cannot be read.
pub record Entry : Type 0 where
  pub name : Bytes
  pub is_dir : Bool
  pub content : Option Bytes

-- `entries` is none if the directory cannot be read.
pub record Machine : Type 0 where
  pub arch : Bytes
  pub has_btf : Bool
  pub bpftool_runs : Bool
  pub uname : Option Bytes
  pub entries : Option (List Entry)
  pub read_file : Bytes → Option Bytes
  pub unmarshal : Bytes → Option KernelOffsets

pub data DetectError : Type 0 where
  unknown_mode : DetectError
  bpftool_failed : DetectError
  uname_failed : DetectError
  unsupported_architecture : DetectError
  no_manual_path : DetectError
  read_failed : DetectError
  parse_failed : DetectError
  no_matching_offsets : DetectError
  detection_failed : DetectError

-- The two results: the offsets, or an error and no offsets.
pub data Detected : Type 0 where
  found : KernelOffsets → Detected
  failed : DetectError → Detected

abbrev or_failed : DetectError → Option KernelOffsets → Detected
or_failed e none = failed e
or_failed e (some o) = found o

-- A read and a decoding, with the error of each.
unfoldable pub decode_with : Machine → DetectError → DetectError → Option Bytes → Detected
decode_with m unread bad none = failed unread
decode_with m unread bad (some bytes) = or_failed bad (m.unmarshal bytes)

unfoldable pub name_matches : Bytes → Entry → Bool
unfolding contains trim_suffix
name_matches version e =
    let name = trim_suffix e.name (codes ".json") in
    not e.is_dir && (contains version name || contains name version)

abbrev pub entry_offsets : Machine → Entry → Option KernelOffsets
entry_offsets m e = elim (e.content) [ none ↦ none | some bytes ↦ m.unmarshal bytes ]

abbrev found_or : Detected → Option KernelOffsets → Detected
found_or later none = later
found_or later (some o) = found o

unfoldable pub entry_loop : Machine → Bytes → List Entry → Detected
unfolding name_matches
entry_loop m version [] = failed no_matching_offsets
entry_loop m version (e ∷ entries) =
    let later = entry_loop m version entries in
    if name_matches version e then found_or later (entry_offsets m e) else later

unfoldable pub load_embedded_offsets : Machine → Bytes → Detected
unfolding entry_loop
load_embedded_offsets m version = elim (m.entries) [
  | none ↦ failed read_failed
  | some entries ↦ entry_loop m version entries
]

unfoldable pub get_default_offsets : Machine → Detected
unfolding bytes_eq
get_default_offsets m =
    if bytes_eq m.arch (codes "amd64") then found amd64_offsets else failed unsupported_architecture

unfoldable pub detect_from_btf : Machine → Detected
unfolding get_default_offsets
detect_from_btf m = if m.bpftool_runs then get_default_offsets m else failed bpftool_failed

-- The first answer, or the second when the first is an error.
unfoldable pub or_else : Detected → Detected → Detected
or_else (found o) other = found o
or_else (failed e) other = other

unfoldable pub load_major_minor : Machine → Option Bytes → Detected
unfolding load_embedded_offsets
load_major_minor m none = failed no_matching_offsets
load_major_minor m (some version) = load_embedded_offsets m version

unfoldable pub by_version : Machine → Bytes → Detected
unfolding load_embedded_offsets load_major_minor major_minor get_default_offsets or_else
by_version m version =
    or_else (load_embedded_offsets m version)
      (or_else (load_major_minor m (major_minor version)) (get_default_offsets m))

abbrev pub embedded_for : Machine → OffsetDetector → Option Bytes → OffsetDetector × Detected
embedded_for m d none = (d, failed uname_failed)
embedded_for m d (some output) =
    let version = trim_space output in (record d { kernel_ver = version }, by_version m version)

unfoldable pub detect_embedded : Machine → OffsetDetector → OffsetDetector × Detected
unfolding by_version trim_space
detect_embedded m d = embedded_for m d m.uname

unfoldable pub detect_manual : Machine → OffsetDetector → Detected
unfolding decode_with bytes_eq
detect_manual m d =
    if bytes_eq d.manual_path []
    then failed no_manual_path
    else decode_with m read_failed parse_failed (m.read_file d.manual_path)

-- The steps of detectAuto from the last one on: each takes the answer of the step before.
abbrev pub auto_last : Detected → Detected
auto_last (found o) = found o
auto_last (failed e) = failed detection_failed

unfoldable pub auto_manual : Machine → OffsetDetector → Detected → OffsetDetector × Detected
unfolding detect_manual bytes_eq
auto_manual m d (found o) = (d, found o)
auto_manual m d (failed e) =
    if not (bytes_eq d.manual_path [])
    then (d, auto_last (detect_manual m d))
    else (d, failed detection_failed)

unfoldable pub auto_embedded : Machine → OffsetDetector → OffsetDetector × Detected
unfolding auto_manual detect_embedded
auto_embedded m d = let embedded = detect_embedded m d in auto_manual m embedded.0 embedded.1

abbrev pub auto_btf : Machine → OffsetDetector → Detected → OffsetDetector × Detected
auto_btf m d (found o) = (d, found o)
auto_btf m d (failed e) = auto_embedded m d

unfoldable pub detect_auto : Machine → OffsetDetector → OffsetDetector × Detected
unfolding auto_embedded detect_from_btf
detect_auto m d = if m.has_btf then auto_btf m d (detect_from_btf m) else auto_embedded m d

-- The detector afterwards, and the offsets or the error.
unfoldable pub detect : Machine → OffsetDetector → OffsetDetector × Detected
unfolding detect_auto detect_embedded detect_manual bytes_eq
detect m d =
    if bytes_eq d.mode (codes "auto")
    then detect_auto m d
    else if bytes_eq d.mode (codes "embedded")
    then detect_embedded m d
    else if bytes_eq d.mode (codes "manual")
    then (d, detect_manual m d)
    else (d, failed unknown_mode)
