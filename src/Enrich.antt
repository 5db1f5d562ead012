-- ===== src/Enrich.antt =====
-- internal/enrich: the Enricher interface (enricher.go); its children are ordering.go and pipeline.go.
pub mod Interface
pub mod Ordering
pub mod Pipeline
