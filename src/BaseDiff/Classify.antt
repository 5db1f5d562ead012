-- ===== src/BaseDiff/Classify.antt =====
-- internal/enrich/basediff/enricher.go: the origin of a component by its paths and the files' hashes.
use astinus.Base.{
  Bool, false, ◌&&◌, ◌||◌, List, [], ◌∷◌, ◌++◌, Option, none, some, Text, codes, text_eq, nat_eq,
  ◌==◌, if◌then◌else◌,
}
use astinus.Base.Dict.{Dict, lookup, insert}
use astinus.Base.Strings.{has_prefix, has_suffix}
use astinus.Model.{EvidenceLocation, ComponentFields}
use astinus.Layers.{normalize_path}
use astinus.ContentHash.{BaseSet, find_evidence, has_path}

abbrev pub origin_base : Text
origin_base = codes "base"

abbrev pub origin_app : Text
origin_app = codes "app"

abbrev pub origin_unknown : Text
origin_unknown = codes "unknown"

-- The two loops of `pathsForComponent`.
unfoldable pub evidence_paths : List EvidenceLocation → List Text
evidence_paths [] = []
evidence_paths (loc ∷ locs) =
    let rest = evidence_paths locs in if loc.path == [] then rest else loc.path ∷ rest

abbrev pub is_location_key : Text → Bool
is_location_key k = has_prefix k (codes "syft:location:") && has_suffix k (codes ":path")

unfoldable pub property_paths : Dict Text Text → List Text
property_paths [] = []
property_paths ((k, v) ∷ props) =
    let rest = property_paths props in
    if v == [] then rest else if is_location_key k then v ∷ rest else rest

unfoldable pub paths_for_component : ComponentFields → List Text
unfolding evidence_paths property_paths
paths_for_component c =
    elim c.evidence [ none ↦ [] | some ev ↦ evidence_paths ev.locations ]
    ++ property_paths c.properties

-- What the loop of `classifyComponent` finds: the base path of a hash that matched, a path of the
-- base, or nothing.
pub data Classification : Type 0 where
  matched : Text → Classification
  modified : Classification
  application : Classification

abbrev pub matched_or : Option Text → Classification → Classification
matched_or none later = later
matched_or (some p) later = matched p

-- The base path of a path's hash, where the target has the path and the base the hash.
abbrev pub base_path_of : BaseSet → Dict Text Text → Text → Option Text
base_path_of base_set target_hashes key = elim (lookup key target_hashes) [
  | none ↦ none
  | some hash ↦ elim (find_evidence base_set hash) [ none ↦ none | some ev ↦ some ev.base_path ]
]

unfoldable pub classify_paths : BaseSet → Dict Text Text → Bool → List Text → Classification
classify_paths base_set target_hashes path_in_base [] =
    if path_in_base then modified else application
classify_paths base_set target_hashes path_in_base (p ∷ paths) =
    let key = normalize_path p in
    let skipped = classify_paths base_set target_hashes path_in_base paths in
    let later =
      classify_paths base_set target_hashes (path_in_base || has_path base_set key) paths in
    if key == [] then skipped else matched_or (base_path_of base_set target_hashes key) later

abbrev pub set_property : Text → Text → Text → ComponentFields → ComponentFields
set_property origin key value c = record c {
  origin = origin;
  properties = insert key value c.properties;
}

abbrev pub record_origin : Classification → ComponentFields → ComponentFields
record_origin (matched p) c =
    set_property origin_base (codes "astinus:basediff:matched-base-path") p c
record_origin modified c =
    set_property origin_base (codes "astinus:basediff:state") (codes "modified") c
record_origin application c = record c { origin = origin_app }

abbrev pub classify_by : BaseSet → Dict Text Text → ComponentFields → List Text → ComponentFields
classify_by base_set target_hashes c [] = record c { origin = origin_unknown }
classify_by base_set target_hashes c (p ∷ paths) =
    record_origin (classify_paths base_set target_hashes false (p ∷ paths)) c

-- `classifyComponent`, with the origin that its caller stores.
unfoldable pub classify_component : BaseSet → Dict Text Text → ComponentFields → ComponentFields
unfolding paths_for_component classify_paths
classify_component base_set target_hashes c =
    classify_by base_set target_hashes c (paths_for_component c)
