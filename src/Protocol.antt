-- ===== src/Protocol.antt =====
-- pkg/protocol: the wire-protocol parsers and the sniffer.
pub mod Mysql
pub mod Http2
pub mod Hpack
pub mod Redis
pub mod Kafka
pub mod Sniffer
pub mod Tls
pub mod Dubbo
