-- ===== src/Enrich/Pipeline/Tests.antt =====
-- Runs of a pipeline of three enrichers, and the theorems at them.
use astinus.Base.{ℕ, suc, ◌≡◌, refl, List, [], ◌∷◌, Option, none, some, Text, codes, text_eq}
use astinus.Base.Dict.{lookup, insert}
use astinus.Model.{Sbom}
use astinus.Enrich.Interface.{Enricher}
use astinus.Enrich.Ordering.{find, topo_sort}
use astinus.Enrich.Pipeline.{
  enricher_failed, property_enriched_by, property_enriched_version, Context, run_enrichers,
  stamp_properties, run_pipeline, filter,
}
use astinus.Enrich.Pipeline.Laws.{Outcome, run_pipeline-Outcome}

running : Unit {0}
unfolding run_pipeline run_enrichers stamp_properties topo_sort find lookup insert filter
running = tt

abbrev add : Text → List Text → Option Text → Enricher ℕ
add name deps error = record { name = name; dependencies = deps; enrich = λ n. (suc n, error) }

abbrev steps : List (Enricher ℕ)
steps =
    add (codes "a") [] none
    ∷ add (codes "b") [] (some (codes "offline"))
    ∷ add (codes "c") [] none
    ∷ []

abbrev always : Context
always _ = none

run_steps :
    run_enrichers always 0 steps 0 ≡ (2, some (enricher_failed (codes "b") (codes "offline")))
unfolding running
run_steps = refl

filter-steps :
    filter steps (codes "a" ∷ codes "b" ∷ []) (codes "b" ∷ []) ≡ add (codes "a") [] none ∷ []
unfolding running
filter-steps = refl

abbrev empty : Sbom
empty = record {
  metadata = record {
    timestamp = record { seconds = 0; nanos = 0 };
    authors = [];
    tools = [];
    component = none;
    properties = [];
  };
  components = [];
  relationships = [];
  properties = [];
  source_format = codes "spdx-json";
}

abbrev author : Enricher Sbom
author = record {
  name = codes "author";
  dependencies = [];
  enrich = λ s. (record s { source_format = codes "cyclonedx-json" }, none);
}

run_author :
    (run_pipeline (codes "1.0") always (author ∷ []) empty).0.metadata.properties
    ≡ (property_enriched_by, codes "astinus") ∷ (property_enriched_version, codes "1.0") ∷ []
unfolding running
run_author = refl

run_pipeline-Outcome_example :
    Outcome
      (codes "1.0")
      always
      (author ∷ [])
      empty
      (run_pipeline (codes "1.0") always (author ∷ []) empty)
run_pipeline-Outcome_example = run_pipeline-Outcome (codes "1.0") always (author ∷ []) empty
