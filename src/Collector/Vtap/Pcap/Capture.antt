-- ===== src/Collector/Vtap/Pcap/Capture.antt =====
-- PcapWriter against an abstract capture: files that are lists of packets.
use mathlib.Core.Path.{ap₂}
use ebpf_probe.Prelude.{
  ℕ, ◌-◌, ◌≡◌, refl, ap, sym, ◌∙◌, append_assoc, append-nil, Bool, true, false, Option, none, some,
  List, [], ◌∷◌, ◌++◌, map, Bytes, bytes_eq, length, leb, if◌then◌else◌, inl, inr, Bool-cases,
}
use ebpf_probe.Collector.Vtap.Pcap.{
  PcapFile, PcapWriter, global_header, packet_header, append_to, close_file, left_behind, others,
  rotate, is_due, write_packet, write,
}

-- When a packet came, and its bytes.
abbrev pub Packet : Type 0
Packet = ℕ × Bytes

unfoldable pub encode_packets : List Packet → Bytes
encode_packets [] = []
encode_packets (p ∷ packets) = packet_header p.0 (length p.1) ++ (p.1 ++ encode_packets packets)

-- A file of the capture: its name, its packets, and whether it is open.
pub record Part : Type 0 where
  pub name : Bytes
  pub packets : List Packet
  pub is_open : Bool

pub record Capture : Type 0 where
  pub period : ℕ
  pub part : Option Part
  pub past : List Part
  pub since : ℕ

-- The bytes of a part: the header of the file, then every packet behind its own.
unfoldable pub file_of : Part → PcapFile
file_of p = record {
  name = p.name;
  content = global_header ++ encode_packets p.packets;
  is_open = p.is_open;
}

abbrev pub file_of? : Option Part → Option PcapFile
file_of? none = none
file_of? (some p) = some (file_of p)

-- The writer that holds a capture.
unfoldable pub writer_of : Capture → PcapWriter
writer_of c = record {
  units = c.period;
  current = file_of? c.part;
  closed = map file_of c.past;
  start_time = c.since;
}

abbrev pub closed_part : Option Part → Option Part
closed_part none = none
closed_part (some p) = some (record p { is_open = false })

abbrev pub past_of : Option Part → List Part
past_of none = []
past_of (some p) = p ∷ []

abbrev pub add_packet : ℕ → Bytes → Part → Part
add_packet now packet p =
    if p.is_open then record p { packets = p.packets ++ (now, packet) ∷ [] } else p

unfoldable pub other_parts : Bytes → List Part → List Part
unfolding bytes_eq
other_parts name [] = []
other_parts name (p ∷ parts) =
    let rest = other_parts name parts in if bytes_eq p.name name then rest else p ∷ rest

-- A new part begins with no packet: the one at hand is dropped, and the answer is success. It takes
-- the place of the parts of its name.
unfoldable pub new_part : Option Bytes → ℕ → Capture → Capture × Bool
unfolding other_parts
new_part none now c = (record c { part = closed_part c.part }, false)
new_part (some name) now c = (
  record c {
    part = some (record { name = name; packets = []; is_open = true });
    past = other_parts name (c.past ++ past_of (closed_part c.part));
    since = now;
  },
  true,
)

abbrev pub capture_due : ℕ → Capture → Option Part → Bool
capture_due now c none = true
capture_due now c (some p) = leb c.period (now - c.since)

abbrev pub with_packet : ℕ → Bytes → Option Part → Option Part
with_packet now packet none = none
with_packet now packet (some p) = some (add_packet now packet p)

unfoldable pub capture_packet : Option Bytes → ℕ → Bytes → Capture → Capture × Bool
unfolding new_part
capture_packet created now packet c =
    if capture_due now c c.part
    then new_part created now c
    else (record c { part = with_packet now packet c.part }, true)

encode_packets-append :
    (l : List Packet) (p : Packet)
    → encode_packets (l ++ p ∷ []) ≡ encode_packets l ++ (packet_header p.0 (length p.1) ++ p.1)
unfolding encode_packets
encode_packets-append [] p = ap (λ b. packet_header p.0 (length p.1) ++ b) (append-nil p.1)
encode_packets-append (q ∷ l) p =
    let h = packet_header q.0 (length q.1) in
    let new = packet_header p.0 (length p.1) ++ p.1 in
    ap (λ b. h ++ (q.1 ++ b)) (encode_packets-append l p)
    ∙ (ap (λ b. h ++ b) (sym (append_assoc q.1 (encode_packets l) new))
        ∙ sym (append_assoc h (q.1 ++ encode_packets l) new))

map-append-file_of : (l m : List Part) → map file_of (l ++ m) ≡ map file_of l ++ map file_of m
map-append-file_of [] m = refl
map-append-file_of (p ∷ l) m = ap (λ r. file_of p ∷ r) (map-append-file_of l m)

others-file_of :
    (name : Bytes) (parts : List Part)
    → others name (map file_of parts) ≡ map file_of (other_parts name parts)
unfolding others other_parts file_of
others-file_of name [] = refl
others-file_of name (p ∷ parts) = elim (Bool-cases (bytes_eq p.name name)) [
  | inl same ↦ rw same (others-file_of name parts)
  | inr apart ↦ rw apart (ap (λ r. file_of p ∷ r) (others-file_of name parts))
]

-- The file gets the bytes of the packet exactly if the part gets the packet.
append_to-file_of :
    (now : ℕ) (packet name : Bytes) (packets : List Packet) (b : Bool)
    → let p : Part = record { name = name; packets = packets; is_open = b } in
      append_to (append_to (file_of p) (packet_header now (length packet))) packet
      ≡ file_of (add_packet now packet p)
unfolding append_to file_of
append_to-file_of now packet name packets false = refl
append_to-file_of now packet name packets true =
    let h = packet_header now (length packet) in
    ap (λ bytes. record { name = name; content = bytes; is_open = true })
      (append_assoc (global_header ++ encode_packets packets) h packet
        ∙ (append_assoc global_header (encode_packets packets) (h ++ packet)
            ∙ ap (λ b. global_header ++ b) (sym (encode_packets-append packets (now, packet)))))

-- The file that a rotation creates.
new_file :
    (name : Bytes)
    → record { name = name; content = global_header; is_open = true }
      ≡ file_of (record { name = name; packets = []; is_open = true })
unfolding file_of encode_packets
new_file name =
    ap (λ b. record { name = name; content = b; is_open = true }) (sym (append-nil global_header))

left_behind-file_of :
    (part : Option Part)
    → left_behind (close_file (file_of? part)) ≡ map file_of (past_of (closed_part part))
unfolding left_behind close_file file_of
left_behind-file_of none = refl
left_behind-file_of (some p) = refl

close_file-file_of : (part : Option Part) → close_file (file_of? part) ≡ file_of? (closed_part part)
unfolding close_file file_of
close_file-file_of none = refl
close_file-file_of (some p) = refl

rotate-writer_of :
    (created : Option Bytes) (now : ℕ) (c : Capture)
    → rotate created now (record (writer_of c) { current = close_file (file_of? c.part) })
      ≡ (writer_of (new_part created now c).0, (new_part created now c).1)
unfolding rotate writer_of new_part
rotate-writer_of (some name) now c =
    ap₂ (λ f l. (record { units = c.period; current = some f; closed = l; start_time = now }, true))
      (new_file name)
      (ap (others name) (
          ap (λ l. map file_of c.past ++ l) (left_behind-file_of c.part)
          ∙ sym (map-append-file_of c.past (past_of (closed_part c.part))))
        ∙ others-file_of name (c.past ++ past_of (closed_part c.part)))
rotate-writer_of none now c =
    ap
      (λ f. (
        record { units = c.period; current = f; closed = map file_of c.past; start_time = c.since },
        false,
      ))
      (close_file-file_of c.part)

write_parts :
    (created : Option Bytes) (now : ℕ) (packet : Bytes) (period since : ℕ) (part : Option Part)
    (past : List Part)
    → let c : Capture = record { period = period; part = part; past = past; since = since } in
      write created now packet (writer_of c)
      ≡ (writer_of (capture_packet created now packet c).0, (capture_packet created now packet c).1)
unfolding write is_due write_packet capture_packet writer_of
write_parts created now packet period since none past =
    rotate-writer_of created now
      (record { period = period; part = none; past = past; since = since })
write_parts created now packet period since (some p) past =
    elim (Bool-cases (leb period (now - since))) [
      | inl due ↦ rw due (
          rotate-writer_of created now
            (record { period = period; part = some p; past = past; since = since }))
      | inr early ↦ rw early (
          ap
            (λ f. (
              record {
                units = period;
                current = some f;
                closed = map file_of past;
                start_time = since;
              },
              true,
            ))
            (append_to-file_of now packet p.name p.packets p.is_open))
    ]

-- Writing a packet does to the files what the capture says, and gives its answer.
pub write-writer_of :
    (created : Option Bytes) (now : ℕ) (packet : Bytes) (c : Capture)
    → write created now packet (writer_of c)
      ≡ (writer_of (capture_packet created now packet c).0, (capture_packet created now packet c).1)
write-writer_of created now packet c = write_parts created now packet c.period c.since c.part c.past

-- A call of Write: the name of the file that could be created, the time, the packet.
abbrev pub Call : Type 0
Call = Option Bytes × ℕ × Bytes

unfoldable pub write_all : List Call → PcapWriter → PcapWriter × List Bool
write_all [] w = (w, [])
write_all (x ∷ calls) w =
    let now = write x.0 x.1 x.2 w in let later = write_all calls now.0 in (later.0, now.1 ∷ later.1)

unfoldable pub capture_all : List Call → Capture → Capture × List Bool
capture_all [] c = (c, [])
capture_all (x ∷ calls) c =
    let now = capture_packet x.0 x.1 x.2 c in
    let later = capture_all calls now.0 in (later.0, now.1 ∷ later.1)

-- Any run of writes implements the abstract capture: the files are those of its parts, each the
-- global header and its packets behind their headers, and the answers are the same. In the capture
-- a packet that begins a part is in no part, though the answer to it is success, and a part takes the
-- place of those of the same name, which are lost.
pub write_all-writer_of :
    (calls : List Call) (c : Capture)
    → write_all calls (writer_of c) ≡ (writer_of (capture_all calls c).0, (capture_all calls c).1)
unfolding write_all capture_all
write_all-writer_of [] c = refl
write_all-writer_of (x ∷ calls) c =
    let ih = write_all-writer_of calls (capture_packet x.0 x.1 x.2 c).0 in
    rw (write-writer_of x.0 x.1 x.2 c) (rw ih refl)
