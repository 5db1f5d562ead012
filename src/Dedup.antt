-- ===== src/Dedup.antt =====
-- internal/enrich/dedup/dedup.go: the finalize stage that merges duplicate components.
pub mod Key
pub mod Merge
pub mod Run
pub mod Union
pub mod KeyLaws
pub mod Keys
pub mod Laws
pub mod Contents
mod Tests
