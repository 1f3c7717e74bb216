-- ===== src/K8s.antt =====
-- internal/k8s: the pods of the cluster, and the enrichment of events with them.
pub mod Client
pub mod Enricher
