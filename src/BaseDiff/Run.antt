-- ===== src/BaseDiff/Run.antt =====
-- internal/enrich/basediff/enricher.go: the strategies of `Enrich`, in the order in which it tries them.
use astinus.Base.{
  ℕ, Bool, true, false, [], Option, Text, codes, text_eq, nat_eq, ◌==◌, if◌then◌else◌, Result, ok,
  err, ◌>>=◌,
}
use astinus.Model.{Sbom}
use astinus.Model.Walk.{walk_components}
use astinus.Layers.{Image}
use astinus.Layers.Diff.{compute_diff}
use astinus.ContentHash.Scan.{build_base_set, scan_target}
use astinus.BaseDiff.Reference.{Mode, mode_none, Options, resolve_base_ref}
use astinus.BaseDiff.Classify.{classify_component}
use astinus.BaseDiff.Stamp.{stamp_strategy, stamp_unknown, stamp_origin, handle_base_unreachable}

-- What the enricher calls: the opener of images, SHA-256, the sizes of the filter, and the context's
-- errors in the scans of the base and of the target and in the walk of the fallback.
pub record World : Type 0 where
  pub open_image : Text → Result Text Image
  pub sha256 : Text → Text
  pub filter_bits : ℕ
  pub filter_hashes : ℕ
  pub base_walk : ℕ → Option Text
  pub base_layers : ℕ → Option Text
  pub base_entries : ℕ → ℕ → Option Text
  pub target_walk : ℕ → Option Text
  pub target_layers : ℕ → Option Text
  pub target_entries : ℕ → ℕ → Option Text
  pub diff_walk : ℕ → Option Text

-- `runContentStrategy`: the stamped SBOM, or the error for which the caller falls through.
unfoldable pub run_content_strategy : World → Image → Image → Sbom → Result Text Sbom
unfolding classify_component
run_content_strategy w target base sbom = do
  base_set ←
      build_base_set w.sha256 w.filter_bits w.filter_hashes w.base_walk w.base_layers w.base_entries
        base
  target_hashes ← scan_target w.sha256 w.target_walk w.target_layers w.target_entries target
  ok (record sbom {
    components = walk_components (classify_component base_set target_hashes) sbom.components;
  })

-- The end of `Enrich`: by the fallback's difference.
unfoldable pub enrich_by_diff : World → Image → Image → Sbom → Sbom
unfolding stamp_origin stamp_unknown stamp_strategy
enrich_by_diff w target base sbom = elim (compute_diff w.diff_walk target base) [
  | err e ↦ stamp_strategy (codes "unavailable") (stamp_unknown sbom)
  | ok diff ↦ stamp_strategy (codes "path-fallback") (stamp_origin diff sbom)
]

unfoldable pub enrich_with_base : World → Image → Image → Sbom → Sbom
unfolding run_content_strategy enrich_by_diff stamp_strategy
enrich_with_base w target base sbom = elim (run_content_strategy w target base sbom) [
  | ok stamped ↦ stamp_strategy (codes "content") stamped
  | err e ↦ enrich_by_diff w target base sbom
]

unfoldable pub enrich_resolved : World → Image → Text → Sbom → Sbom
unfolding stamp_unknown stamp_strategy handle_base_unreachable enrich_with_base
enrich_resolved w target base_ref sbom =
    if base_ref == []
    then stamp_strategy (codes "unavailable") (stamp_unknown sbom)
    else elim (w.open_image base_ref) [
      | err e ↦ stamp_strategy (codes "unavailable") (handle_base_unreachable target sbom)
      | ok base ↦ enrich_with_base w target base sbom
    ]

abbrev pub is_mode_none : Mode → Bool
is_mode_none mode_none = true
is_mode_none _ = false

-- `Enrich`, which returns no error.
unfoldable pub enrich : World → Options → Image → Sbom → Sbom
unfolding resolve_base_ref enrich_resolved stamp_unknown stamp_strategy
enrich w opts target sbom =
    if is_mode_none opts.mode then sbom else elim (resolve_base_ref opts target) [
      | err e ↦ stamp_strategy (codes "unavailable") (stamp_unknown sbom)
      | ok base_ref ↦ enrich_resolved w target base_ref sbom
    ]
