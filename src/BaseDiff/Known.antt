-- ===== src/BaseDiff/Known.antt =====
-- internal/enrich/basediff/enricher.go: whatever happens, the enricher leaves no component without an origin
-- and says which strategy ran.
use mathlib.Core.Path.{subst}
use astinus.Base.{
  ◌≡◌, refl, ◌∙◌, ap, inl, inr, false, List, [], ◌∷◌, map, Option, none, some, ltb, Text, codes,
  text_eq, nat_eq, ◌==◌, ==_iff, if◌then◌else◌, if_ind, Bool-cases, length, All, Result, ok, err,
}
use astinus.Base.Results.{IfOk, IfOk-bind, IfOk-trivial}
use astinus.Base.Dict.{Dict, lookup, lookup-insert}
use astinus.Model.{LayerInfo, ComponentFields, Component, Sbom}
use astinus.Model.Walk.{walk_components, all_components, all_components-walk_components}
use astinus.Layers.{Image}
use astinus.Layers.Diff.{DiffMode, prefix_mode, fallback_mode, Diff, is_base_layer, compute_diff}
use astinus.ContentHash.{BaseSet}
use astinus.ContentHash.Scan.{build_base_set, scan_target}
use astinus.BaseDiff.Reference.{Options, resolve_base_ref}
use astinus.BaseDiff.Classify.{
  origin_base, origin_app, origin_unknown, Classification, matched, modified, application,
  paths_for_component, classify_paths, record_origin, classify_by, classify_component,
}
use astinus.BaseDiff.Stamp.{
  stamp_strategy, or_unknown, stamp_unknown, any_base_path, origin_for, stamp_origin,
  stamp_origin_partial, has_digest_label, heuristic_diff, handle_base_unreachable,
}
use astinus.BaseDiff.Run.{
  World, run_content_strategy, enrich_by_diff, enrich_with_base, enrich_resolved, is_mode_none,
  enrich,
}

abbrev pub IsPlaced : ComponentFields → Type 0
IsPlaced c = (c.origin == []) ≡ false

-- Every component, with the sub-components, has an origin.
abbrev pub AllPlaced : Sbom → Type 0
AllPlaced sbom = All IsPlaced (all_components sbom.components)

-- What ran, by the outcomes of the steps: the strategy's name, and the components that it leaves.
pub data Ran (w : World) (opts : Options) (target : Image) (sbom : Sbom)
    : Text → List Component → Type 0 where
  no_reference :
      (e : Text)
      → resolve_base_ref opts target ≡ err e
      → Ran w opts target sbom (codes "unavailable") (stamp_unknown sbom).components
  empty_reference :
      resolve_base_ref opts target ≡ ok []
      → Ran w opts target sbom (codes "unavailable") (stamp_unknown sbom).components
  base_unreachable :
      (ref e : Text)
      → resolve_base_ref opts target ≡ ok ref
      → w.open_image ref ≡ err e
      → Ran w opts target sbom
          (codes "unavailable")
          (handle_base_unreachable target sbom).components
  by_content :
      (ref : Text) (base : Image) (stamped : Sbom)
      → resolve_base_ref opts target ≡ ok ref
      → w.open_image ref ≡ ok base
      → run_content_strategy w target base sbom ≡ ok stamped
      → Ran w opts target sbom (codes "content") stamped.components
  by_paths :
      (ref : Text) (base : Image) (e : Text) (diff : Diff)
      → resolve_base_ref opts target ≡ ok ref
      → w.open_image ref ≡ ok base
      → run_content_strategy w target base sbom ≡ err e
      → compute_diff w.diff_walk target base ≡ ok diff
      → Ran w opts target sbom (codes "path-fallback") (stamp_origin diff sbom).components
  no_difference :
      (ref : Text) (base : Image) (e e' : Text)
      → resolve_base_ref opts target ≡ ok ref
      → w.open_image ref ≡ ok base
      → run_content_strategy w target base sbom ≡ err e
      → compute_diff w.diff_walk target base ≡ err e'
      → Ran w opts target sbom (codes "unavailable") (stamp_unknown sbom).components

-- The metadata names the strategy that ran, and the components are those that it leaves.
abbrev pub NamesStrategy : World → Options → Image → Sbom → Sbom → Type 0
NamesStrategy w opts target sbom out =
    (s : Text) × Ran w opts target sbom s out.components
    × (lookup (codes "astinus:basediff:strategy") out.metadata.properties ≡ some s)

All-map :
    (fn : ComponentFields → ComponentFields)
    → ((c : ComponentFields) → IsPlaced (fn c))
    → (cs : List ComponentFields) → All IsPlaced (map fn cs)
All-map fn h [] = tt
All-map fn h (c ∷ cs) = (h c, All-map fn h cs)

walk_components-IsPlaced :
    (fn : ComponentFields → ComponentFields) (comps : List Component)
    → ((c : ComponentFields) → IsPlaced (fn c))
    → All IsPlaced (all_components (walk_components fn comps))
walk_components-IsPlaced fn comps h =
    rw (all_components-walk_components fn comps) (All-map fn h (all_components comps))

stamp_unknown-AllPlaced : (sbom : Sbom) → AllPlaced (stamp_unknown sbom)
unfolding stamp_unknown
stamp_unknown-AllPlaced sbom = walk_components-IsPlaced or_unknown sbom.components λ c.
    elim (Bool-cases (c.origin == [])) [ inl empty ↦ rw (empty) refl | inr full ↦ rw (full) full ]

-- What holds of each outcome holds of the choice between them.
by_result {ℓ} :
    {A : Type ℓ} (P : Sbom → Type 0) (Q : A → Type 0) (r : Result Text A) (f : Text → Sbom)
    (g : A → Sbom)
    → IfOk Q r
    → ((e : Text) → P (f e))
    → ((a : A) → Q a → P (g a))
    → P (elim r [ err e ↦ f e | ok a ↦ g a ])
by_result P Q (ok a) f g q failed done = done a q
by_result P Q (err e) f g q failed done = failed e

abbrev IsOrigin : Text → Type 0
IsOrigin o = (o == []) ≡ false

by_mode :
    (mode : DiffMode) (a b : Text)
    → IsOrigin a
    → IsOrigin b
    → IsOrigin (elim mode [ prefix_mode ↦ a | fallback_mode ↦ b ])
by_mode prefix_mode a b p q = p
by_mode fallback_mode a b p q = q

by_info :
    (o : Option LayerInfo) (a : Text) (f : LayerInfo → Text)
    → IsOrigin a
    → ((info : LayerInfo) → IsOrigin (f info))
    → IsOrigin (elim o [ none ↦ a | some info ↦ f info ])
by_info none a f p q = p
by_info (some info) a f p q = q info

origin_for-IsOrigin : (diff : Diff) (c : ComponentFields) → IsOrigin (origin_for diff c)
unfolding origin_for
origin_for-IsOrigin diff c =
    by_mode diff.mode _ _
      (by_info c.layer_info origin_unknown
        (λ info. if is_base_layer diff info.layer_index then origin_base else origin_app) refl
        (λ info. if_ind IsOrigin (is_base_layer diff info.layer_index) refl refl))
      (if_ind IsOrigin (any_base_path diff (paths_for_component c)) refl refl)

record_origin-IsPlaced : (cl : Classification) (c : ComponentFields) → IsPlaced (record_origin cl c)
record_origin-IsPlaced (matched p) c = refl
record_origin-IsPlaced modified c = refl
record_origin-IsPlaced application c = refl

classify_component-IsPlaced :
    (set : BaseSet) (hashes : Dict Text Text) (c : ComponentFields)
    → IsPlaced (classify_component set hashes c)
unfolding classify_component
classify_component-IsPlaced set hashes c = by_paths (paths_for_component c)
  where
    by_paths : (paths : List Text) → IsPlaced (classify_by set hashes c paths)
    by_paths [] = refl
    by_paths (p ∷ paths) = record_origin-IsPlaced (classify_paths set hashes false (p ∷ paths)) c

run_content_strategy-AllPlaced :
    (w : World) (target base : Image) (sbom : Sbom)
    → IfOk AllPlaced (run_content_strategy w target base sbom)
unfolding run_content_strategy
run_content_strategy-AllPlaced w target base sbom =
    IfOk-bind (λ _. Unit {0}) AllPlaced
      (build_base_set w.sha256 w.filter_bits w.filter_hashes w.base_walk w.base_layers
        w.base_entries base)
      _ (IfOk-trivial _)
      λ set _.
        IfOk-bind (λ _. Unit {0}) AllPlaced
          (scan_target w.sha256 w.target_walk w.target_layers w.target_entries target) _
          (IfOk-trivial _)
          λ hashes _.
            walk_components-IsPlaced (classify_component set hashes) sbom.components
              (classify_component-IsPlaced set hashes)

handle_base_unreachable-AllPlaced :
    (img : Image) (sbom : Sbom) → AllPlaced (handle_base_unreachable img sbom)
unfolding handle_base_unreachable stamp_origin_partial
handle_base_unreachable-AllPlaced img sbom =
    if_ind AllPlaced (has_digest_label img.config_file)
      (by_result AllPlaced (λ _. Unit {0}) img.layers _ _ (IfOk-trivial img.layers)
        (λ e. stamp_unknown-AllPlaced sbom)
        λ layers _. if_ind AllPlaced (ltb (length layers) 2) (stamp_unknown-AllPlaced sbom) (
          walk_components-IsPlaced _ sbom.components (origin_for-IsOrigin (heuristic_diff layers))))
      (stamp_unknown-AllPlaced sbom)

-- The same with the equation for the outcome.
by_outcome {ℓ} :
    {A : Type ℓ} (P : Sbom → Type 0) (r : Result Text A) (f : Text → Sbom) (g : A → Sbom)
    → ((e : Text) → r ≡ err e → P (f e))
    → ((a : A) → r ≡ ok a → P (g a))
    → P (elim r [ err e ↦ f e | ok a ↦ g a ])
by_outcome P (ok a) f g failed done = done a refl
by_outcome P (err e) f g failed done = failed e refl

module _ (w : World) (opts : Options) (target : Image) (sbom : Sbom) where
  abbrev IsFinished : Sbom → Type 0
  IsFinished out = AllPlaced out × NamesStrategy w opts target sbom out

  stamp_strategy-IsFinished :
      (s : Text) (out : Sbom)
      → Ran w opts target sbom s out.components
      → AllPlaced out
      → IsFinished (stamp_strategy s out)
  unfolding stamp_strategy
  stamp_strategy-IsFinished s out ran placed =
      let written =
        lookup-insert (codes "astinus:basediff:strategy") (codes "astinus:basediff:strategy") s
          out.metadata.properties in
      (placed, (s, ran, written))

  unknown-IsFinished :
      Ran w opts target sbom (codes "unavailable") (stamp_unknown sbom).components
      → IsFinished (stamp_strategy (codes "unavailable") (stamp_unknown sbom))
  unknown-IsFinished ran =
      stamp_strategy-IsFinished _ (stamp_unknown sbom) ran (stamp_unknown-AllPlaced sbom)

  module _ (ref : Text) (found : resolve_base_ref opts target ≡ ok ref) where
    enrich_with_base-IsFinished :
        (base : Image)
        → w.open_image ref ≡ ok base
        → IsFinished (enrich_with_base w target base sbom)
    unfolding enrich_with_base enrich_by_diff stamp_origin
    enrich_with_base-IsFinished base opened =
        by_outcome IsFinished (run_content_strategy w target base sbom) _ _
          (λ e failed.
            by_outcome IsFinished (compute_diff w.diff_walk target base) _ _
              (λ e' lost. unknown-IsFinished (no_difference ref base e e' found opened failed lost))
              (λ diff there.
                stamp_strategy-IsFinished _ (stamp_origin diff sbom)
                  (by_paths ref base e diff found opened failed there)
                  (walk_components-IsPlaced _ sbom.components (origin_for-IsOrigin diff))))
          (λ stamped done.
            stamp_strategy-IsFinished _ stamped (by_content ref base stamped found opened done)
              (subst (IfOk AllPlaced) done (run_content_strategy-AllPlaced w target base sbom)))

    enrich_resolved-IsFinished : IsFinished (enrich_resolved w target ref sbom)
    unfolding enrich_resolved
    enrich_resolved-IsFinished = elim (Bool-cases (ref == [])) [
      | inl empty ↦
          rw (empty)
            (unknown-IsFinished (empty_reference (found ∙ ap ok ((==_iff ref []).0 empty))))
      | inr full ↦ rw (full) (
          by_outcome IsFinished (w.open_image ref) _ _
            (λ e failed.
              stamp_strategy-IsFinished _ (handle_base_unreachable target sbom)
                (base_unreachable ref e found failed)
                (handle_base_unreachable-AllPlaced target sbom))
            enrich_with_base-IsFinished)
    ]

-- In every mode but `none`, and whichever of its steps fails, the enricher leaves no component, at
-- any depth, without an origin. It names in the metadata the strategy that ran, and leaves the
-- components of that one: `content` where the base was opened and compared by content,
-- `path-fallback` where that failed and the difference of the layers was found, else `unavailable`.
pub enrich-IsFinished :
    (w : World) (opts : Options) (target : Image) (sbom : Sbom)
    → is_mode_none opts.mode ≡ false
    → AllPlaced (enrich w opts target sbom)
      × NamesStrategy w opts target sbom (enrich w opts target sbom)
unfolding enrich
enrich-IsFinished w opts target sbom some_mode = rw (some_mode) (
    by_outcome (IsFinished w opts target sbom) (resolve_base_ref opts target) _ _
      (λ e failed. unknown-IsFinished w opts target sbom (no_reference e failed))
      (λ base_ref found. enrich_resolved-IsFinished w opts target sbom base_ref found))
