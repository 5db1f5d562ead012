-- ===== src/CycloneDx.antt =====
-- internal/sbom/cyclonedx: the mapping between the documents of cyclonedx-go and the canonical SBOM.
-- Wire has the structs of that library with the fields that the mapper touches, a nil pointer to a
-- slice being the empty one. The encoders and decoders are the library's and not modelled.
pub mod Wire
pub mod Bags
pub mod Parts
pub mod Marks
pub mod Components
pub mod PartLaws
pub mod Values
pub mod MarkLaws
pub mod Numbered
pub mod Hydrated
pub mod RoundTrip
pub mod Relations
pub mod Document
pub mod MetadataLaws
pub mod DocumentLaws
pub mod Collision
mod Tests
