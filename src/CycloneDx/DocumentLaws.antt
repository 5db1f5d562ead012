-- ===== src/CycloneDx/DocumentLaws.antt =====
-- internal/sbom/cyclonedx/mapper.go: documents that are written and read again.
use astinus.Base.{
  ℕ, ◌≡◌, List, [], ◌∷◌, map, Option, Text, text_eq, nat_eq, if◌then◌else◌, All, Pairwise, count,
}
use astinus.Base.Dict.{lookup}
use astinus.Model.{Component, Time, Sbom, Relationship}
use astinus.CycloneDx.Bags.{lookup-props_from_cdx}
use astinus.CycloneDx.Components.{top_from_cdx, top_to_cdx}
use astinus.CycloneDx.Relations.{relationship_eq, is_expressible, count-relationships_from_cdx}
use astinus.CycloneDx.RoundTrip.{SameTop, WritableTop, top_from_cdx-to}
use astinus.CycloneDx.Document.{from_cdx, to_cdx}
use astinus.CycloneDx.MetadataLaws.{IsTrimmed, SameMetadata, WritableOption, IsStamp, metadata-same}

-- The same document, but for the order of what has no order and for the relationships that CycloneDX
-- has no list for.
abbrev pub SameSbom : Sbom → Sbom → Type 0
SameSbom before after =
    SameMetadata before.metadata after.metadata
    × Pairwise SameTop before.components after.components
    × ((r : Relationship)
        → count r after.relationships
          ≡ (if is_expressible r then count r before.relationships else 0))
    × ((k : Text) → lookup k after.properties ≡ lookup k before.properties)

module _ (narrow : ℕ → ℕ) where
  abbrev pub WritableSbom : Sbom → Type 0
  WritableSbom sbom =
      All IsTrimmed sbom.metadata.authors
      × WritableOption narrow sbom.metadata.component
      × All (WritableTop narrow) sbom.components

  components-same :
      (comps : List Component)
      → All (WritableTop narrow) comps
      → Pairwise SameTop comps (map top_from_cdx (map (top_to_cdx narrow) comps))
  components-same [] h = tt
  components-same (c ∷ comps) (h, hs) = (top_from_cdx-to narrow c h, components-same comps hs)

-- A document that is written as CycloneDX and read again is the same document: each component of the
-- tree, in its place, has all its fields, also the origin, the layer and the further CPEs, which travel as
-- properties; the metadata, the properties and the relationships that CycloneDX knows are as before, but
-- for the time, which is cut to the second. It holds where the text of the time, if there is one, is read
-- as that time to the second; where each author is trimmed; and where each
-- component has a known type, canonical hash names, licenses of one form, evidence that says something
-- with a confidence that survives float32 and whose locations have a path and the line number zero, since
-- no line number is written, no empty first CPE, an index in range, and no property of
-- its own under the reserved keys. What changes at most is the order of properties, of CPEs after the
-- first and of relationships.
pub from_cdx-to_cdx :
    (time_parse : Text → Text → Option Time) (stamp : Time → Text) (narrow : ℕ → ℕ) (sbom : Sbom)
    → IsStamp time_parse stamp sbom.metadata.timestamp
    → WritableSbom narrow sbom
    → SameSbom sbom (from_cdx time_parse (to_cdx stamp narrow sbom) sbom.source_format)
unfolding from_cdx to_cdx
from_cdx-to_cdx time_parse stamp narrow sbom is_stamp (authors, component, components) = (
  metadata-same time_parse stamp narrow sbom.metadata is_stamp authors component,
  components-same narrow sbom.components components,
  λ r. count-relationships_from_cdx r sbom.relationships,
  λ k. lookup-props_from_cdx k sbom.properties,
)
