-- ===== src/Enrich/Pipeline.antt =====
-- internal/enrich/pipeline.go: `Run`, `runEnrichers`, `stampMetadata` and `Filter`. Spans, logs and
-- metrics are left out. The context's error is a function of the number of enrichers that have run,
-- since it is read once before each; `nil sbom` and `nil bundle` have no counterpart.
pub mod Laws
mod Tests
use astinus.Base.{
  ℕ, suc, ◌≡◌, refl, Bool, true, false, ◌&&◌, not, List, [], ◌∷◌, ◌++◌, Option, none, some, Text,
  codes, text_eq, contains, Result, ok, err, if◌then◌else◌,
}
use astinus.Base.Dict.{Dict, lookup, insert}
use astinus.Model.{Metadata, Sbom}
use astinus.Enrich.Interface.{Enricher}
use astinus.Enrich.Ordering.{OrderError, is_some, topo_sort}

pub data PipelineError : Type 0 where
  topo_sort_failed : OrderError → PipelineError
  context_done : Text → PipelineError
  enricher_failed : Text → Text → PipelineError

abbrev pub property_enriched_by : Text
property_enriched_by = codes "astinus:enriched-by"

abbrev pub property_enriched_version : Text
property_enriched_version = codes "astinus:enriched-version"

-- The context's error after so many enrichers.
abbrev pub Context : Type 0
Context = ℕ → Option Text

-- `len(enabled) > 0 && !enabled[name]`, negated.
abbrev pub enabled_by : List Text → Text → Bool
enabled_by [] name = true
enabled_by (x ∷ xs) name = contains (x ∷ xs) name

module _ {S : Type 0} where
  -- `runOne`: the state that the enricher leaves, and its error.
  unfoldable pub run_one : Enricher S → S → S × Option PipelineError
  run_one e s =
      let (after, error) = e.enrich s in
      elim error [
        | none ↦ (after, none)
        | some message ↦ (after, some (enricher_failed e.name message))
      ]

  abbrev pub next :
      S × Option PipelineError → (S → S × Option PipelineError) → S × Option PipelineError
  next (s, none) rest = rest s
  next (s, some error) rest = (s, some error)

  unfoldable pub run_enrichers : Context → ℕ → List (Enricher S) → S → S × Option PipelineError
  unfolding run_one
  run_enrichers ctx n [] s = (s, none)
  run_enrichers ctx n (e ∷ es) s = elim (ctx n) [
    | some message ↦ (s, some (context_done message))
    | none ↦ next (run_one e s) (run_enrichers ctx (suc n) es)
  ]

  -- `Filter`, its two sets as lists.
  unfoldable pub filter : List (Enricher S) → List Text → List Text → List (Enricher S)
  filter [] enabled disabled = []
  filter (e ∷ es) enabled disabled =
      let rest = filter es enabled disabled in
      if contains disabled e.name
      then rest
      else if not (enabled_by enabled e.name)
      then rest
      else e ∷ rest

-- `stampMetadata`, the version of the build a parameter.
unfoldable pub stamp_properties : Text → Dict Text Text → Dict Text Text
stamp_properties version props = insert property_enriched_version version (
    if is_some (lookup property_enriched_by props)
    then props
    else insert property_enriched_by (codes "astinus") props)

unfoldable pub stamp_metadata : Text → Sbom → Sbom
unfolding stamp_properties
stamp_metadata version sbom = record sbom {
  metadata = record sbom.metadata {
    properties = stamp_properties version sbom.metadata.properties;
  };
}

-- `Run`: the SBOM afterwards, and the error.
unfoldable pub run_pipeline :
    Text → Context → List (Enricher Sbom) → Sbom → Sbom × Option PipelineError
unfolding run_enrichers stamp_metadata
run_pipeline version ctx es sbom = elim (topo_sort es) [
  | err e ↦ (sbom, some (topo_sort_failed e))
  | ok ordered ↦
      next (run_enrichers ctx 0 ordered sbom) (λ after. (stamp_metadata version after, none))
]
