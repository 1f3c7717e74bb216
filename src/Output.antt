-- ===== src/Output.antt =====
-- internal/output: where the events of the probe go.
pub mod Edge
pub mod Multi
pub mod ClickHouse
