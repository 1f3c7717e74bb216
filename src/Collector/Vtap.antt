-- ===== src/Collector/Vtap.antt =====
-- internal/collector/vtap.go: the virtual tap. Its children are the writer of capture files, the
-- forwarder and the packet parser; here its configuration, its statistics and its life cycle.
pub mod Pcap
pub mod Forwarder
pub mod Packet
pub mod Life
mod Tests
