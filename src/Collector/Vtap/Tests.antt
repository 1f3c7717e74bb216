-- ===== src/Collector/Vtap/Tests.antt =====
-- vtap.go: runs on concrete packets, and each theorem at a concrete input.
use ebpf_probe.Prelude.{
  bytes_eq, ◌*◌, ◌≡◌, ◌≤◌, refl, true, false, Option, none, some, List, [], ◌∷◌, ◌++◌, Bytes,
  length, codes, arith,
}
use ebpf_probe.Collector.Vtap.Pcap.{is_due}
use ebpf_probe.Collector.Vtap.Pcap.Capture.{
  Call, Capture, writer_of, capture_packet, other_parts, capture_all, write_all,
  write_all-writer_of,
}
use ebpf_probe.Collector.Vtap.Forwarder.{Forwarder}
use ebpf_probe.Collector.Vtap.Forwarder.Order.{run, queue, packets, forwarder_keeps}
use ebpf_probe.Collector.Vtap.Life.{VTapConfig, Environment, new_vtap, with_defaults, init}

-- A writer that has written nothing yet, with a period of a minute.
abbrev fresh : Capture
fresh = record { period = 60 * 1000000000; part = none; past = []; since = 0 }

-- The second packet comes five seconds later, the third after more than a minute.
abbrev calls : List Call
calls =
    (some (codes "00"), 1000, codes "abc")
    ∷ (some (codes "05"), 5000001000, codes "d")
    ∷ (some (codes "90"), 90000000000, codes "e")
    ∷ []

-- One packet of the three is in a file, and every answer was success.
calls_written :
    (capture_all calls fresh).0.past
    ≡ record { name = codes "00"; packets = (5000001000, codes "d") ∷ []; is_open = false } ∷ []
unfolding capture_all capture_packet other_parts bytes_eq
calls_written = refl

-- Two rotations within one second: the packets of the first file are lost.
abbrev quick : Capture
quick = record { period = 1; part = none; past = []; since = 0 }

abbrev rotations : List Call
rotations =
    (some (codes "00"), 1000, codes "a")
    ∷ (some (codes "00"), 1000, codes "b")
    ∷ (some (codes "00"), 2000, codes "c")
    ∷ []

packets_lost : (capture_all rotations quick).0.past ≡ []
unfolding capture_all capture_packet other_parts bytes_eq
packets_lost = refl

write_all-writer_of_example :
    write_all calls (writer_of fresh)
    ≡ (writer_of (capture_all calls fresh).0, (capture_all calls fresh).1)
write_all-writer_of_example = write_all-writer_of calls fresh

rotation_due : is_due 1000 (writer_of fresh) (writer_of fresh).current ≡ true
unfolding is_due writer_of
rotation_due = refl

abbrev forwarder : Forwarder
forwarder = record { buf = codes "old" ∷ []; written = [] }

abbrev sends : List (Option Bytes)
sends = some (codes "a") ∷ none ∷ some (codes "b") ∷ []

forwarder_keeps_example :
    (queue (run sends forwarder) ≡ queue forwarder ++ packets sends)
    × (length (run sends forwarder).buf ≤ 99)
forwarder_keeps_example = forwarder_keeps sends forwarder (omega arith)

-- A frame with the type of IPv4 that ends within its IP header.
abbrev short_frame : Bytes
short_frame = 0 ∷ 0 ∷ 0 ∷ 0 ∷ 0 ∷ 0 ∷ 0 ∷ 0 ∷ 0 ∷ 0 ∷ 0 ∷ 0 ∷ 8 ∷ 0 ∷ 0x4f ∷ []

abbrev config : VTapConfig
config = record {
  mode = codes "capture";
  snap_len = 0;
  buf_size = 0;
  port = 0;
  out_interface = codes "none";
  write_enabled = false;
  write_units = [];
  write_expires = [];
  write_path = [];
  target_ip = [];
}

abbrev world : Environment
world = record { new_writer = none; dials = false; listens = true }

config_init : (init (new_vtap config)).config.port ≡ 9800
unfolding init new_vtap with_defaults
config_init = refl

new_is_fresh : (new_vtap config).stop_closed ≡ false
unfolding new_vtap
new_is_fresh = refl
