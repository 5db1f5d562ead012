-- ===== src/Attribution.antt =====
-- internal/enrich/attribution: the layer that each component comes from, and how far the answer is to be
-- trusted. Quoting by `%q` and the callback for provenance, if there is one, are parameters.
pub mod Laws
pub mod Squash
mod Tests
use astinus.Base.{
  ℕ, zero, suc, ◌≡◌, refl, Bool, true, false, List, [], ◌∷◌, ◌++◌, map, Option, none, some, ltb,
  leb, Text, codes, text_eq, nat_eq, ◌==◌, if◌then◌else◌, length, take, Result, ok, err, ◌>>=◌,
}
use astinus.Base.Dict.{Dict, lookup, insert}
use astinus.Base.Decimal.{format_nat}
use astinus.Base.Sort.{text_less, sort_stable}
use astinus.Base.Strings.{join_with}
use astinus.Model.{EvidenceLocation, Evidence, LayerInfo, ComponentFields, Component, Sbom}
use astinus.Model.Walk.{walk_components}
use astinus.Layers.{Info, Image, FileMap, walk, lookup_path}
use astinus.Runtime.{
  Runtime, docker, build_kit, podman, buildah, kaniko, jib, ko, unknown, runtime_text,
  NormalizedLayer, normalize,
}
use astinus.Runtime.Detect.{DetectionEvidence}

-- A confidence is its text, as in the source.
abbrev pub confidence_high : Text
confidence_high = codes "high"

abbrev pub confidence_medium : Text
confidence_medium = codes "medium"

abbrev pub confidence_low : Text
confidence_low = codes "low"

abbrev pub confidence_none : Text
confidence_none = codes "none"

unfoldable pub any_squashed : List NormalizedLayer → Bool
any_squashed [] = false
any_squashed (l ∷ layers) =
    let rest = any_squashed layers in
    elim (lookup (codes "squashed") l.runtime_metadata) [
      | none ↦ rest
      | some v ↦ if v == codes "likely" then true else rest
    ]

unfoldable pub looks_squashed : List NormalizedLayer → Bool
unfolding any_squashed
looks_squashed layers = if ltb 2 (length layers) then false else any_squashed layers

unfoldable pub has_full_history : List NormalizedLayer → Bool
has_full_history [] = true
has_full_history (l ∷ layers) =
    let rest = has_full_history layers in if l.created_by == [] then false else rest

abbrev pub is_kaniko : Runtime → Bool
is_kaniko kaniko = true
is_kaniko _ = false

abbrev pub is_given : Option Bool → Bool
is_given none = false
is_given (some b) = b

-- `DetermineConfidence`, with what the callback answers.
unfoldable pub determine_confidence : List NormalizedLayer → Runtime → Option Bool → Text × Text
unfolding looks_squashed has_full_history
determine_confidence layers rt has_provenance =
    let n = format_nat (length layers) in
    if is_given has_provenance
    then (confidence_high, codes "BuildKit SLSA provenance attestation is present")
    else if length layers == 0
    then (confidence_none, codes "image has no layers")
    else if is_kaniko rt
    then (
      confidence_low,
      codes "image was built with Kaniko (" ++ (n ++ codes " layers, squashing likely)"),
    )
    else if looks_squashed layers
    then (
      confidence_low,
      codes "image is squashed (" ++ (n ++ codes " layers, no per-instruction history)"),
    )
    else if has_full_history layers
    then (confidence_medium, codes "history aligns with every layer")
    else (confidence_low, codes "history is missing or partial")

-- The ellipsis is one character of three bytes.
unfoldable pub truncate : Text → ℕ → Text
truncate s n = if leb (length s) n then s else take n s ++ (226 ∷ 128 ∷ 166 ∷ [])

unfoldable pub evidence_part : (Text → Text) → DetectionEvidence → Text
unfolding truncate
evidence_part quote e =
    e.field
    ++ (codes "=" ++ (quote (truncate e.value 64) ++ (codes " (" ++ (e.reason ++ codes ")"))))

unfoldable pub evidence_summary : (Text → Text) → List DetectionEvidence → Text
unfolding evidence_part join_with
evidence_summary quote evidence =
    join_with (codes "; ") (sort_stable text_less (map (evidence_part quote) evidence))

-- What the enricher reads of `image.Bundle`; a runtime that was not detected is the empty string.
pub record Bundle : Type 0 where
  pub image : Image
  pub runtime : Option Runtime
  pub runtime_evidence : List DetectionEvidence

abbrev pub or_unknown : Option Runtime → Runtime
or_unknown none = unknown
or_unknown (some rt) = rt

abbrev pub stamp_confidence :
    Result Text (List NormalizedLayer) → Runtime → Option Bool → Dict Text Text → Dict Text Text
stamp_confidence (err e) rt has_provenance props = props
stamp_confidence (ok layers) rt has_provenance props =
    let (conf, reason) = determine_confidence layers rt has_provenance in
    insert (codes "astinus:attribution:reason") reason
      (insert (codes "astinus:attribution:confidence") conf props)

-- `stampRuntimeAndConfidence`, on the properties of the metadata.
unfoldable pub stamp_runtime_and_confidence :
    (Text → Text) → Option Bool → Bundle → Dict Text Text → Dict Text Text
unfolding evidence_summary
stamp_runtime_and_confidence quote has_provenance bundle props =
    let rt = or_unknown bundle.runtime in
    let summary = evidence_summary quote bundle.runtime_evidence in
    let props' = insert (codes "astinus:runtime") (runtime_text rt) props in
    stamp_confidence (normalize rt bundle.image) rt has_provenance
      (if summary == [] then props' else insert (codes "astinus:runtime:evidence") summary props')

abbrev pub layer_info_of : Info → LayerInfo
layer_info_of info = record {
  layer_digest = info.digest;
  layer_index = info.index;
  dockerfile_line = [];
  added_by = info.created_by;
}

-- The loop of `apply`.
unfoldable pub first_located : FileMap → List EvidenceLocation → Option LayerInfo
first_located fm [] = none
first_located fm (loc ∷ locs) =
    let rest = first_located fm locs in
    if loc.path == []
    then rest
    else elim (lookup_path fm loc.path) [ none ↦ rest | some info ↦ some (layer_info_of info) ]

abbrev pub locations_of : Option Evidence → List EvidenceLocation
locations_of none = []
locations_of (some ev) = ev.locations

-- `apply`
unfoldable pub apply : FileMap → ComponentFields → ComponentFields
unfolding first_located
apply fm c = record c {
  layer_info = elim c.layer_info [
    | some info ↦ some info
    | none ↦ first_located fm (locations_of c.evidence)
  ];
}

-- What `Enrich` does after the walk.
unfoldable pub stamp_all : (Text → Text) → Option Bool → Bundle → FileMap → Sbom → Sbom
unfolding apply stamp_runtime_and_confidence
stamp_all quote has_provenance bundle fm sbom = record sbom {
  components = walk_components (apply fm) sbom.components;
  metadata = record sbom.metadata {
    properties = stamp_runtime_and_confidence quote has_provenance bundle sbom.metadata.properties;
  };
}

unfoldable pub enrich :
    (ℕ → Option Text) → (Text → Text) → Option Bool → Bundle → Sbom → Result Text Sbom
unfolding stamp_all
enrich ctx quote has_provenance bundle sbom = elim (walk ctx bundle.image) [
  | err e ↦ err (codes "attribution: walk layers: " ++ e)
  | ok fm ↦ ok (stamp_all quote has_provenance bundle fm sbom)
]
