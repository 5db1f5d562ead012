-- ===== src/Enrich/Pipeline/Laws.antt =====
-- What a run of the pipeline does, as a relation on states, and what its stamp keeps.
use mathlib.Core.List.{Perm}
use mathlib.Core.Path.{subst}
use astinus.Base.{
  ℕ, suc, ◌≡◌, refl, ◌∙◌, sym, ap, inl, inr, not, ◌&&◌, List, [], ◌∷◌, Option, none, some, arith,
  Text, codes, text_eq, ◌==◌, ==_iff, if◌then◌else◌, Result, ok, err, Option-cases, Result-cases,
}
use astinus.Base.Dict.{Dict, lookup, insert, lookup-insert}
use astinus.Model.{Sbom}
use astinus.Enrich.Interface.{Enricher}
use astinus.Enrich.Ordering.{OrderError, is_some, topo_sort}
use astinus.Enrich.Ordering.Run.{RunsAfter}
use astinus.Enrich.Ordering.Laws.{topo_sort-RunsAfter}
use astinus.Enrich.Pipeline.{
  PipelineError, topo_sort_failed, context_done, enricher_failed, property_enriched_by,
  property_enriched_version, Context, run_one, run_enrichers, stamp_properties, stamp_metadata,
  run_pipeline, next,
}

module _ {S : Type 0} where
  -- Every enricher of the list ran in turn, each without an error and under a live context.
  pub data Completed (ctx : Context) : ℕ → List (Enricher S) → S → S → Type 0 where
    nothing_left : {n : ℕ} {s : S} → Completed ctx n [] s s
    ran :
        {n : ℕ} {e : Enricher S} {es : List (Enricher S)} {s after last : S}
        → ctx n ≡ none
        → e.enrich s ≡ (after, none)
        → Completed ctx (suc n) es after last
        → Completed ctx n (e ∷ es) s last

  -- The run stopped with this state and error: at the first enricher, or after it.
  pub data Halted (ctx : Context) : ℕ → List (Enricher S) → S → S → PipelineError → Type 0 where
    done_before :
        {n : ℕ} {e : Enricher S} {es : List (Enricher S)} {s : S} {message : Text}
        → ctx n ≡ some message
        → Halted ctx n (e ∷ es) s s (context_done message)
    failed_in :
        {n : ℕ} {e : Enricher S} {es : List (Enricher S)} {s after : S} {message : Text}
        → ctx n ≡ none
        → e.enrich s ≡ (after, some message)
        → Halted ctx n (e ∷ es) s after (enricher_failed e.name message)
    later :
        {n : ℕ} {e : Enricher S} {es : List (Enricher S)} {s after last : S} {error : PipelineError}
        → ctx n ≡ none
        → e.enrich s ≡ (after, none)
        → Halted ctx (suc n) es after last error
        → Halted ctx n (e ∷ es) s last error

  -- What the outcome of a run says of it.
  abbrev pub Explains : Context → ℕ → List (Enricher S) → S → S × Option PipelineError → Type 0
  Explains ctx n es s (last, none) = Completed ctx n es s last
  Explains ctx n es s (last, some error) = Halted ctx n es s last error

  ran-Explains :
      (ctx : Context) (n : ℕ) (e : Enricher S) (es : List (Enricher S)) (s after : S)
      (r : S × Option PipelineError)
      → ctx n ≡ none
      → e.enrich s ≡ (after, none)
      → Explains ctx (suc n) es after r
      → Explains ctx n (e ∷ es) s r
  ran-Explains ctx n e es s after (last, none) live fine rest = ran live fine rest
  ran-Explains ctx n e es s after (last, some error) live fine rest = later live fine rest

  run_enrichers-ran :
      (ctx : Context) (n : ℕ) (e : Enricher S) (es : List (Enricher S)) (s : S)
      → ctx n ≡ none
      → (e.enrich s).1 ≡ none
      → run_enrichers ctx n (e ∷ es) s ≡ run_enrichers ctx (suc n) es (e.enrich s).0
  unfolding run_enrichers run_one
  run_enrichers-ran ctx n e es s live fine = rw (live, fine, run_enrichers, run_one) refl

  run_enrichers-failed :
      (ctx : Context) (n : ℕ) (e : Enricher S) (es : List (Enricher S)) (s : S) (message : Text)
      → ctx n ≡ none
      → (e.enrich s).1 ≡ some message
      → run_enrichers ctx n (e ∷ es) s ≡ ((e.enrich s).0, some (enricher_failed e.name message))
  unfolding run_enrichers run_one
  run_enrichers-failed ctx n e es s message live failed =
      rw (live, failed, run_enrichers, run_one) refl

  run_enrichers-over :
      (ctx : Context) (n : ℕ) (e : Enricher S) (es : List (Enricher S)) (s : S) (message : Text)
      → ctx n ≡ some message
      → run_enrichers ctx n (e ∷ es) s ≡ (s, some (context_done message))
  unfolding run_enrichers
  run_enrichers-over ctx n e es s message over = rw (over, run_enrichers) refl

  -- The loop returns no error only when every enricher ran without one, and an error only with the
  -- state and the cause of the first that failed or was not started.
  pub run_enrichers-Explains :
      (ctx : Context) (n : ℕ) (es : List (Enricher S)) (s : S)
      → Explains ctx n es s (run_enrichers ctx n es s)
  unfolding run_enrichers
  run_enrichers-Explains ctx n [] s = nothing_left
  run_enrichers-Explains ctx n (e ∷ es) s = elim (Option-cases (ctx n)) [
    | inr (message, over) ↦
        subst (Explains ctx n (e ∷ es) s) (sym (run_enrichers-over ctx n e es s message over))
          (done_before over)
    | inl live ↦ elim (Option-cases (e.enrich s).1) [
      | inl fine ↦
          subst (Explains ctx n (e ∷ es) s) (sym (run_enrichers-ran ctx n e es s live fine)) (
            ran-Explains ctx n e es s (e.enrich s).0 (run_enrichers ctx (suc n) es (e.enrich s).0)
              live (ap (λ o. ((e.enrich s).0, o)) fine)
              (run_enrichers-Explains ctx (suc n) es (e.enrich s).0))
      | inr (message, failed) ↦
          subst (Explains ctx n (e ∷ es) s)
            (sym (run_enrichers-failed ctx n e es s message live failed))
            (failed_in live (ap (λ o. ((e.enrich s).0, o)) failed))
    ]
  ]

lookup-insert_missing :
    (by who k : Text) (props : Dict Text Text)
    → lookup k (if is_some (lookup by props) then props else insert by who props)
      ≡ (if by == k && not (is_some (lookup k props)) then some who else lookup k props)
lookup-insert_missing by who k props = elim (Option-cases (lookup by props)) [
  | inl missing ↦ ground (arith, lookup-insert by k who props, ==_iff by k, missing)
  | inr (first, found) ↦ ground (arith, ==_iff by k, found)
]

-- The stamp sets this version, names Astinus where no tool is named, and keeps all else.
pub lookup-stamp_properties :
    (version k : Text) (props : Dict Text Text)
    → lookup k (stamp_properties version props) ≡ (
        if property_enriched_version == k
        then some version
        else if property_enriched_by == k && not (is_some (lookup k props))
        then some (codes "astinus")
        else lookup k props)
unfolding stamp_properties
lookup-stamp_properties version k props =
    lookup-insert property_enriched_version k version (
      if is_some (lookup property_enriched_by props)
      then props
      else insert property_enriched_by (codes "astinus") props)
    ∙ ap (λ o. if property_enriched_version == k then some version else o)
        (lookup-insert_missing property_enriched_by (codes "astinus") k props)

-- What `Run` did, by what it returns.
pub data Outcome (version : Text) (ctx : Context) (es : List (Enricher Sbom)) (sbom : Sbom)
    : Sbom × Option PipelineError → Type 0 where
  unsorted :
      {error : OrderError}
      → topo_sort es ≡ err error
      → Outcome version ctx es sbom (sbom, some (topo_sort_failed error))
  stopped :
      {ordered : List (Enricher Sbom)} {last : Sbom} {error : PipelineError}
      → Perm ordered es
      → RunsAfter es [] ordered
      → Halted ctx 0 ordered sbom last error
      → Outcome version ctx es sbom (last, some error)
  finished :
      {ordered : List (Enricher Sbom)} {after : Sbom}
      → Perm ordered es
      → RunsAfter es [] ordered
      → Completed ctx 0 ordered sbom after
      → Outcome version ctx es sbom (stamp_metadata version after, none)

sorted-Outcome :
    (version : Text) (ctx : Context) (es ordered : List (Enricher Sbom)) (sbom : Sbom)
    (r : Sbom × Option PipelineError)
    → Perm ordered es × RunsAfter es [] ordered
    → Explains ctx 0 ordered sbom r
    → Outcome version ctx es sbom (next r (λ after. (stamp_metadata version after, none)))
sorted-Outcome version ctx es ordered sbom (last, none) (p, after) h = finished p after h
sorted-Outcome version ctx es ordered sbom (last, some error) (p, after) h = stopped p after h

-- `Run` returns the SBOM untouched when the sort fails; otherwise it runs every enricher once,
-- each after those of its dependencies that are in the list, up to the first error, and stamps
-- the SBOM only when there is none.
pub run_pipeline-Outcome :
    (version : Text) (ctx : Context) (es : List (Enricher Sbom)) (sbom : Sbom)
    → Outcome version ctx es sbom (run_pipeline version ctx es sbom)
unfolding run_pipeline
run_pipeline-Outcome version ctx es sbom = elim (Result-cases (topo_sort es)) [
  | inl (ordered, sorted) ↦
      subst (λ r. Outcome version ctx es sbom (by_sort r)) (sym sorted)
        (sorted-Outcome version ctx es ordered sbom (run_enrichers ctx 0 ordered sbom)
          (topo_sort-RunsAfter es ordered sorted) (run_enrichers-Explains ctx 0 ordered sbom))
  | inr (error, failed) ↦
      subst (λ r. Outcome version ctx es sbom (by_sort r)) (sym failed) (unsorted failed)
]
  where
    by_sort : Result OrderError (List (Enricher Sbom)) → Sbom × Option PipelineError
    by_sort r = elim r [
      | err e ↦ (sbom, some (topo_sort_failed e))
      | ok ordered ↦
          next (run_enrichers ctx 0 ordered sbom) (λ after. (stamp_metadata version after, none))
    ]
