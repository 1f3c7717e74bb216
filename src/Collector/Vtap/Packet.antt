-- ===== src/Collector/Vtap/Packet.antt =====
-- vtap.go: parsePacket, parseIPv4 and parseIPv6. They keep no result; here the ports read are it.
use ebpf_probe.Prelude.{
  ℕ, ◌+◌, ◌*◌, ◌%◌, ◌≢◌, ◌||◌, Option, none, some, Outcome, ok, panic, ◌>>=◌, Bytes, index, slice,
  be16, get_or, length, ltb, leb, ◌==◌, if◌then◌else◌, arith,
}

-- The addresses and the two ports.
pub record Ports : Type 0 where
  pub src_ip : Bytes
  pub dst_ip : Bytes
  pub src_port : ℕ
  pub dst_port : ℕ

unfoldable pub transport_ports : Bytes → ℕ → ℕ → Outcome ⊥ (ℕ × ℕ)
transport_ports d ihl protocol =
    if protocol == 6 || protocol == 17
    then (if leb (14 + ihl + 4) (length d)
        then (do src ← be16 d (14 + ihl); dst ← be16 d (14 + ihl + 2); ok (src, dst))
        else ok (0, 0))
    else ok (0, 0)

unfoldable pub parse_ipv4 : Bytes → Outcome ⊥ (Option Ports)
parse_ipv4 d = if ltb (length d) 34 then ok none else do
  version ← index d 14
  protocol ← index d 23
  src ← slice d 26 30
  dst ← slice d 30 34
  ports ← transport_ports d (version % 16 * 4) protocol
  ok (some (record { src_ip = src; dst_ip = dst; src_port = ports.0; dst_port = ports.1 }))

unfoldable pub parse_packet : Bytes → Outcome ⊥ (Option Ports)
parse_packet d =
    if ltb (length d) 14
    then ok none
    else do ether_type ← be16 d 12; if ether_type == 0x0800 then parse_ipv4 d else ok none

transport_ports_safe : (d : Bytes) (ihl protocol : ℕ) → transport_ports d ihl protocol ≢ panic
unfolding transport_ports
transport_ports_safe d ihl protocol = ground arith

parse_ipv4_safe : (d : Bytes) → parse_ipv4 d ≢ panic
unfolding parse_ipv4
parse_ipv4_safe d = ground (arith, transport_ports_safe d (get_or d 14 0 % 16 * 4) (get_or d 23 0))

-- On every input, the packet parser does not index or slice out of range.
pub parse_packet_safe : (d : Bytes) → parse_packet d ≢ panic
unfolding parse_packet
parse_packet_safe d = ground (arith, parse_ipv4_safe d)
