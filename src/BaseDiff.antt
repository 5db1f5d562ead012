-- ===== src/BaseDiff.antt =====
-- internal/enrich/basediff: which components come from the base image. What is logged has no
-- counterpart, and neither has a nil SBOM. Opening the base image by its reference is a parameter, and so
-- are SHA-256 and the context's errors at each reading of an image.
pub mod Reference
pub mod Classify
pub mod Stamp
pub mod Run
pub mod Content
pub mod Known
pub mod Digests
mod Tests
