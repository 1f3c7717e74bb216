-- ===== src/Offset/Sources.antt =====
-- What the detection keeps, and in which order its sources are asked.
use ebpf_probe.Prelude.{
  ◌≡◌, refl, ap, sym, ◌∙◌, Bool, true, false, inl, inr, Bool-cases, Option, none, some, List, [],
  ◌∷◌, ◌++◌, err, Bytes, bytes_eq, trim_space, arith,
}
use ebpf_probe.Offset.{KernelOffsets, OffsetDetector, new_offset_detector, not_detected, get_offset}
use ebpf_probe.Offset.Detect.{
  Machine, Detected, found, failed, auto_btf, auto_last, embedded_for, uname_failed, read_failed,
  parse_failed, detection_failed, detect, detect_auto, detect_embedded, detect_manual,
  detect_from_btf, auto_manual, auto_embedded, by_version, load_embedded_offsets, load_major_minor,
  major_minor, get_default_offsets, or_else, decode_with,
}

auto_manual-offsets :
    (m : Machine) (d : OffsetDetector) (r : Detected) → (auto_manual m d r).0.offsets ≡ d.offsets
unfolding auto_manual
auto_manual-offsets m d (found o) = refl
auto_manual-offsets m d (failed e) = ground arith

embedded_for-offsets :
    (m : Machine) (d : OffsetDetector) (uname : Option Bytes)
    → (embedded_for m d uname).0.offsets ≡ d.offsets
embedded_for-offsets m d none = refl
embedded_for-offsets m d (some output) = refl

detect_embedded-offsets :
    (m : Machine) (d : OffsetDetector) → (detect_embedded m d).0.offsets ≡ d.offsets
unfolding detect_embedded
detect_embedded-offsets m d = embedded_for-offsets m d m.uname

auto_embedded-offsets :
    (m : Machine) (d : OffsetDetector) → (auto_embedded m d).0.offsets ≡ d.offsets
unfolding auto_embedded
auto_embedded-offsets m d =
    auto_manual-offsets m (detect_embedded m d).0 (detect_embedded m d).1
    ∙ detect_embedded-offsets m d

auto_btf-offsets :
    (m : Machine) (d : OffsetDetector) (r : Detected) → (auto_btf m d r).0.offsets ≡ d.offsets
auto_btf-offsets m d (found o) = refl
auto_btf-offsets m d (failed e) = auto_embedded-offsets m d

detect_auto-offsets : (m : Machine) (d : OffsetDetector) → (detect_auto m d).0.offsets ≡ d.offsets
unfolding detect_auto
detect_auto-offsets m d = elim (Bool-cases m.has_btf) [
  | inl h ↦ rw h (auto_btf-offsets m d (detect_from_btf m))
  | inr h ↦ rw h (auto_embedded-offsets m d)
]

detect-offsets : (m : Machine) (d : OffsetDetector) → (detect m d).0.offsets ≡ d.offsets
unfolding detect
detect-offsets m d = ground (arith, detect_auto-offsets m d, detect_embedded-offsets m d)

-- Detect does not store what it finds: after a detection on any machine, in any mode and whatever
-- it returned, the query for any field of any structure is the error "not detected".
pub get_offset-detect :
    (m : Machine) (mode manual_path name field : Bytes)
    → get_offset (detect m (new_offset_detector mode manual_path)).0 name field ≡ err not_detected
unfolding get_offset new_offset_detector
get_offset-detect m mode manual_path name field =
    rw (detect-offsets m (new_offset_detector mode manual_path)) refl

-- The first answer that is there.
unfoldable pub first_of : List (Option KernelOffsets) → Detected
first_of [] = failed detection_failed
first_of (none ∷ sources) = first_of sources
first_of (some o ∷ sources) = found o

-- An answer without the reason why it failed.
abbrev pub answer : Detected → Option KernelOffsets
answer (found o) = some o
answer (failed e) = none

abbrev pub when : Bool → Option KernelOffsets → Option KernelOffsets
when true o = o
when false o = none

-- The answers that need the output of uname: the embedded table of the version, that of its first
-- two parts, and the defaults of the architecture.
abbrev pub version_sources : Machine → Option Bytes → List (Option KernelOffsets)
version_sources m none = []
version_sources m (some output) =
    answer (load_embedded_offsets m (trim_space output))
    ∷ answer (load_major_minor m (major_minor (trim_space output)))
    ∷ answer (get_default_offsets m)
    ∷ []

-- All answers: that of BTF, those by version, and the manual configuration.
abbrev pub auto_sources : Machine → OffsetDetector → List (Option KernelOffsets)
auto_sources m d =
    when m.has_btf (answer (detect_from_btf m))
    ∷ (version_sources m m.uname ++ answer (detect_manual m d) ∷ [])

first_of-answer :
    (r : Detected) (sources : List (Option KernelOffsets))
    → first_of (answer r ∷ sources) ≡ or_else r (first_of sources)
unfolding first_of or_else
first_of-answer (found o) sources = refl
first_of-answer (failed e) sources = refl

or_else_assoc : (a b c : Detected) → or_else (or_else a b) c ≡ or_else a (or_else b c)
unfolding or_else
or_else_assoc (found o) b c = refl
or_else_assoc (failed e) b c = refl

auto_last-answer : (r : Detected) → auto_last r ≡ first_of (answer r ∷ [])
unfolding first_of
auto_last-answer (found o) = refl
auto_last-answer (failed e) = refl

auto_manual-answer :
    (m : Machine) (d : OffsetDetector) (r : Detected)
    → (auto_manual m d r).1 ≡ or_else r (first_of (answer (detect_manual m d) ∷ []))
unfolding auto_manual or_else first_of
auto_manual-answer m d (found o) = refl
auto_manual-answer m d (failed e) = elim (Bool-cases (bytes_eq d.manual_path [])) [
  | inl h ↦ rw h refl
  | inr h ↦
      rw h (auto_last-answer (decode_with m read_failed parse_failed (m.read_file d.manual_path)))
]

by_version-answer :
    (m : Machine) (output : Bytes) (rest : List (Option KernelOffsets))
    → or_else (by_version m (trim_space output)) (first_of rest)
      ≡ first_of (version_sources m (some output) ++ rest)
unfolding by_version
by_version-answer m output rest =
    let version = trim_space output in
    let exact = load_embedded_offsets m version in
    let near = load_major_minor m (major_minor version) in
    let default = get_default_offsets m in
    or_else_assoc exact (or_else near default) (first_of rest)
    ∙ (ap (or_else exact) (
          or_else_assoc near default (first_of rest)
          ∙ (ap (or_else near) (sym (first_of-answer default rest))
              ∙ sym (first_of-answer near (answer default ∷ rest))))
        ∙ sym (first_of-answer exact (answer near ∷ answer default ∷ rest)))

embedded_for-answer :
    (m : Machine) (d : OffsetDetector) (uname : Option Bytes)
    → (auto_manual m (embedded_for m d uname).0 (embedded_for m d uname).1).1
      ≡ first_of (version_sources m uname ++ answer (detect_manual m d) ∷ [])
unfolding or_else detect_manual
embedded_for-answer m d none = auto_manual-answer m d (failed uname_failed)
embedded_for-answer m d (some output) =
    auto_manual-answer m (embedded_for m d (some output)).0 (by_version m (trim_space output))
    ∙ by_version-answer m output (answer (detect_manual m d) ∷ [])

auto_embedded-answer :
    (m : Machine) (d : OffsetDetector)
    → (auto_embedded m d).1
      ≡ first_of (version_sources m m.uname ++ answer (detect_manual m d) ∷ [])
unfolding auto_embedded detect_embedded
auto_embedded-answer m d = embedded_for-answer m d m.uname

auto_btf-answer :
    (m : Machine) (d : OffsetDetector) (r : Detected)
    → (auto_btf m d r).1
      ≡ first_of (answer r ∷ version_sources m m.uname ++ answer (detect_manual m d) ∷ [])
unfolding first_of
auto_btf-answer m d (found o) = refl
auto_btf-answer m d (failed e) = auto_embedded-answer m d

-- The automatic detection answers with the first source that has an answer, in this order: BTF when
-- the machine has it; then, when uname runs, the embedded table of the kernel's version, that of
-- the version's first two parts, the defaults of the architecture; and last the manual
-- configuration. It fails when none has.
pub detect_auto-first_of :
    (m : Machine) (d : OffsetDetector) → (detect_auto m d).1 ≡ first_of (auto_sources m d)
unfolding detect_auto first_of
detect_auto-first_of m d = elim (Bool-cases m.has_btf) [
  | inl h ↦ rw h (auto_btf-answer m d (detect_from_btf m))
  | inr h ↦ rw h (auto_embedded-answer m d)
]
