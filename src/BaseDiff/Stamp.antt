-- ===== src/BaseDiff/Stamp.antt =====
-- internal/enrich/basediff/enricher.go: the origins that stand for no base, or for a difference of layers.
use astinus.Base.{
  ◌-◌, Bool, true, false, not, List, [], ◌∷◌, Option, none, some, ltb, Text, codes, text_eq, nat_eq,
  ◌==◌, if◌then◌else◌, length, Result, ok, err,
}
use astinus.Base.Dict.{insert}
use astinus.Model.{ComponentFields, Sbom}
use astinus.Model.Walk.{walk_components}
use astinus.Layers.{Layer, ConfigFile, Image}
use astinus.Layers.Diff.{prefix_mode, fallback_mode, Diff, is_base_layer, is_base_path}
use astinus.BaseDiff.Reference.{digest_labels, first_non_empty}
use astinus.BaseDiff.Classify.{
  origin_base, origin_app, origin_unknown, paths_for_component, set_property,
}

unfoldable pub stamp_strategy : Text → Sbom → Sbom
stamp_strategy strategy sbom = record sbom {
  metadata = record sbom.metadata {
    properties = insert (codes "astinus:basediff:strategy") strategy sbom.metadata.properties;
  };
}

abbrev pub or_unknown : ComponentFields → ComponentFields
or_unknown c = record c { origin = if c.origin == [] then origin_unknown else c.origin }

unfoldable pub stamp_unknown : Sbom → Sbom
stamp_unknown sbom = record sbom { components = walk_components or_unknown sbom.components }

unfoldable pub any_base_path : Diff → List Text → Bool
any_base_path diff [] = false
any_base_path diff (p ∷ paths) =
    let rest = any_base_path diff paths in if is_base_path diff p then true else rest

unfoldable pub origin_for : Diff → ComponentFields → Text
unfolding any_base_path paths_for_component
origin_for diff c = elim diff.mode [
  | prefix_mode ↦ elim c.layer_info [
    | none ↦ origin_unknown
    | some info ↦ if is_base_layer diff info.layer_index then origin_base else origin_app
  ]
  | fallback_mode ↦ if any_base_path diff (paths_for_component c) then origin_base else origin_app
]

unfoldable pub stamp_origin : Diff → Sbom → Sbom
unfolding origin_for
stamp_origin diff sbom = record sbom {
  components = walk_components (λ c. record c { origin = origin_for diff c }) sbom.components;
}

-- `stampOriginWithMode` in the partial mode.
unfoldable pub stamp_origin_partial : Diff → Sbom → Sbom
unfolding origin_for
stamp_origin_partial diff sbom = record sbom {
  components =
      walk_components
        (λ c.
          set_property (origin_for diff c) (codes "astinus:basediff:confidence") (codes "low") c)
        sbom.components;
}

abbrev pub has_digest_label : Result Text (Option ConfigFile) → Bool
has_digest_label (err e) = false
has_digest_label (ok none) = false
has_digest_label (ok (some cfg)) = not (first_non_empty cfg.labels digest_labels == [])

abbrev pub heuristic_diff : List Layer → Diff
heuristic_diff layers = record {
  mode = prefix_mode;
  base_prefix = length layers - 1;
  base_paths = [];
}

unfoldable pub handle_base_unreachable : Image → Sbom → Sbom
unfolding stamp_unknown stamp_origin_partial first_non_empty
handle_base_unreachable img sbom =
    if has_digest_label img.config_file
    then elim img.layers [
      | err e ↦ stamp_unknown sbom
      | ok layers ↦
          if ltb (length layers) 2
          then stamp_unknown sbom
          else stamp_origin_partial (heuristic_diff layers) sbom
    ]
    else stamp_unknown sbom
