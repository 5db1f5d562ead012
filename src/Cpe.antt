-- ===== src/Cpe.antt =====
-- internal/enrich/cpe: CPE names and the candidates among which the enricher chooses for each component.
pub mod Name
pub mod Candidates
pub mod ChoiceLaws
pub mod DedupeLaws
pub mod Purl
pub mod Enrich
pub mod Sources
pub mod Chosen
pub mod FrameLaws
mod Tests
