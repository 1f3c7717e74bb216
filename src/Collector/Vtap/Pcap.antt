-- ===== src/Collector/Vtap/Pcap.antt =====
-- vtap.go: PcapWriter. Times are nanoseconds of a clock that does not go back, and the slicing
-- period is not negative. A file is its name, its bytes and whether it is open; writing to a closed
-- one does nothing. What os.Create does is an argument: the name under which it makes the file, which
-- is the formatted second, or none for an error. It truncates a file of the same name. The clean-up
-- of old files is left out.
pub mod Capture
use ebpf_probe.Prelude.{
  ℕ, zero, suc, ◌+◌, ◌-◌, ◌/◌, ◌%◌, ◌^◌, Bool, true, false, Option, none, some, List, [], ◌∷◌, ◌++◌,
  Bytes, bytes_eq, length, leb, if◌then◌else◌, little_endian,
}

pub record PcapFile : Type 0 where
  pub name : Bytes
  pub content : Bytes
  pub is_open : Bool

-- `closed` are the files that rotations have left behind and that are still there.
pub record PcapWriter : Type 0 where
  pub units : ℕ
  pub current : Option PcapFile
  pub closed : List PcapFile
  pub start_time : ℕ

-- Magic number and version; the 16 bytes behind them stay zero.
unfoldable pub global_header : Bytes
unfolding little_endian
global_header =
    little_endian 4 0xa1b2c3d4
    ++ (little_endian 2 2 ++ (little_endian 2 4 ++ (little_endian 8 0 ++ little_endian 8 0)))

unfoldable pub packet_header : ℕ → ℕ → Bytes
unfolding little_endian
packet_header now len =
    little_endian 4 (now / 1000000000 % 2 ^ 32)
    ++ (little_endian 4 (now % 1000000000 / 1000)
        ++ (little_endian 4 (len % 2 ^ 32) ++ little_endian 4 (len % 2 ^ 32)))

unfoldable pub append_to : PcapFile → Bytes → PcapFile
append_to f bytes = if f.is_open then record f { content = f.content ++ bytes } else f

-- `w.current.Close()`
unfoldable pub close_file : Option PcapFile → Option PcapFile
close_file none = none
close_file (some f) = some (record f { is_open = false })

unfoldable pub left_behind : Option PcapFile → List PcapFile
left_behind none = []
left_behind (some f) = f ∷ []

-- What is left of the files when one is made under a name.
unfoldable pub others : Bytes → List PcapFile → List PcapFile
unfolding bytes_eq
others name [] = []
others name (f ∷ files) =
    let rest = others name files in if bytes_eq f.name name then rest else f ∷ rest

-- The writer with its new file, or the error.
unfoldable pub rotate : Option Bytes → ℕ → PcapWriter → PcapWriter × Bool
unfolding others
rotate none now w = (w, false)
rotate (some name) now w = (
  record w {
    current = some (record { name = name; content = global_header; is_open = true });
    closed = others name (w.closed ++ left_behind w.current);
    start_time = now;
  },
  true,
)

-- `w.current == nil || now.Sub(w.startTime) >= w.units`
unfoldable pub is_due : ℕ → PcapWriter → Option PcapFile → Bool
is_due now w none = true
is_due now w (some f) = leb w.units (now - w.start_time)

unfoldable pub write_packet : ℕ → Bytes → PcapWriter → Option PcapFile → PcapWriter × Bool
write_packet now packet w none = (w, true)
write_packet now packet w (some f) = (
  record w { current = some (append_to (append_to f (packet_header now (length packet))) packet) },
  true,
)

unfoldable pub write : Option Bytes → ℕ → Bytes → PcapWriter → PcapWriter × Bool
write created now packet w =
    if is_due now w w.current
    then rotate created now (record w { current = close_file w.current })
    else write_packet now packet w w.current
