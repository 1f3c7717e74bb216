-- ===== src/Collector.antt =====
-- internal/collector: the virtual tap, the path tracer, the manager of the collectors, the map
-- from processes to containers, the collectors that read a ring buffer, and the metadata of the cloud.
pub mod Vtap
pub mod PingTrace
pub mod Manager
pub mod Docker
pub mod Trace
pub mod Cloud
