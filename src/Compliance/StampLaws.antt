-- ===== src/Compliance/StampLaws.antt =====
-- What the stamps of the verdict leave to read in the SBOM.
use mathlib.Core.Path.{subst}
use astinus.Base.Tests.{or_else}
use astinus.Base.{
  ◌≡◌, refl, ◌∙◌, sym, ap, inl, inr, true, false, List, [], ◌∷◌, Option, none, some, Text, text_eq,
  nat_eq, ◌==◌, Bool-cases,
}
use astinus.Model.{ComponentFields, SubComponents, nil, cons, Component}
use astinus.Compliance.Verdict.{find_below, find_component_by_bom_ref}
use astinus.Compliance.Stamp.{mark, rebuild, mark_below, rebuild_top, mark_first}

abbrev pub marked : Text → Text → Option ComponentFields → Option ComponentFields
marked key value none = none
marked key value (some f) = some (mark key value f)

-- What the mark of a subtree found in it, and left in it.
abbrev pub MarksBelow : Text → Text → Text → SubComponents → Option SubComponents → Type 0
MarksBelow ref key value s none = find_below s ref ≡ none
MarksBelow ref key value s (some t) =
    (f : ComponentFields) × (find_below s ref ≡ some f)
    × (find_below t ref ≡ some (mark key value f))

module _ (ref key value : Text) (f : ComponentFields) (below next : SubComponents) where
  find_below-here : (f.bom_ref == ref) ≡ true → find_below (cons f below next) ref ≡ some f
  unfolding find_below
  find_below-here h = rw (h, find_below) refl

  find_below-past :
      (f.bom_ref == ref) ≡ false
      → find_below (cons f below next) ref ≡ or_else (find_below below ref) (find_below next ref)
  unfolding find_below
  find_below-past h = rw (h, find_below) refl

  mark_below-here :
      (f.bom_ref == ref) ≡ true
      → mark_below ref key value (cons f below next) ≡ some (cons (mark key value f) below next)
  unfolding mark_below
  mark_below-here h = rw (h, mark_below) refl

  mark_below-past :
      (f.bom_ref == ref) ≡ false
      → mark_below ref key value (cons f below next)
        ≡ rebuild f below next (mark_below ref key value below) (mark_below ref key value next)
  unfolding mark_below
  mark_below-past h = rw (h, mark_below) refl

module _ (ref key value : Text) where
  rebuild-MarksBelow :
      (f : ComponentFields) (below next : SubComponents) (inside after : Option SubComponents)
      → (f.bom_ref == ref) ≡ false
      → MarksBelow ref key value below inside
      → MarksBelow ref key value next after
      → MarksBelow ref key value (cons f below next) (rebuild f below next inside after)
  rebuild-MarksBelow f below next none none h missing missing' =
      find_below-past ref key value f below next h ∙ rw (missing, missing') refl
  rebuild-MarksBelow f below next none (some after) h missing (g, found, left) = (
    g,
    find_below-past ref key value f below next h ∙ rw (missing, found) refl,
    find_below-past ref key value f below after h ∙ rw (missing, left) refl,
  )
  rebuild-MarksBelow f below next (some inside) after h (g, found, left) _ = (
    g,
    find_below-past ref key value f below next h ∙ rw (found) refl,
    find_below-past ref key value f inside next h ∙ rw (left) refl,
  )

  mark_below-MarksBelow :
      (s : SubComponents) → MarksBelow ref key value s (mark_below ref key value s)
  unfolding mark_below find_below
  mark_below-MarksBelow nil = refl
  mark_below-MarksBelow (cons f below next) = elim (Bool-cases (f.bom_ref == ref)) [
    | inl here ↦
        subst (MarksBelow ref key value (cons f below next))
          (sym (mark_below-here ref key value f below next here))
          (
            f,
            find_below-here ref key value f below next here,
            find_below-here ref key value (mark key value f) below next here,
          )
    | inr other ↦
        subst (MarksBelow ref key value (cons f below next))
          (sym (mark_below-past ref key value f below next other))
          (rebuild-MarksBelow f below next (mark_below ref key value below)
            (mark_below ref key value next) other (mark_below-MarksBelow below)
            (mark_below-MarksBelow next))
  ]

  find-past :
      (c : Component) (comps : List Component)
      → (c.bom_ref == ref) ≡ false
      → find_component_by_bom_ref (c ∷ comps) ref
        ≡ or_else (find_below c.sub_components ref) (find_component_by_bom_ref comps ref)
  unfolding find_component_by_bom_ref
  find-past c comps h = rw (h, find_component_by_bom_ref) refl

  find-here :
      (c : Component) (comps : List Component)
      → (c.bom_ref == ref) ≡ true
      → find_component_by_bom_ref (c ∷ comps) ref ≡ some c.fields
  unfolding find_component_by_bom_ref
  find-here c comps h = rw (h, find_component_by_bom_ref) refl

  find-rebuild_top :
      (c : Component) (comps after : List Component) (inside : Option SubComponents)
      → (c.bom_ref == ref) ≡ false
      → MarksBelow ref key value c.sub_components inside
      → find_component_by_bom_ref after ref ≡ marked key value (find_component_by_bom_ref comps ref)
      → find_component_by_bom_ref (rebuild_top c comps inside after) ref
        ≡ marked key value (find_component_by_bom_ref (c ∷ comps) ref)
  find-rebuild_top c comps after none h missing rest =
      find-past c after h ∙ rw (missing) rest ∙ sym (ap (marked key value) before)
    where
      before : find_component_by_bom_ref (c ∷ comps) ref ≡ find_component_by_bom_ref comps ref
      before = find-past c comps h ∙ rw (missing) refl
  find-rebuild_top c comps after (some inside) h (f, found, left) rest =
      find-past (record c { sub_components = inside }) comps h
      ∙ rw (left) refl
      ∙ sym (ap (marked key value) before)
    where
      before : find_component_by_bom_ref (c ∷ comps) ref ≡ some f
      before = find-past c comps h ∙ rw (found) refl

  mark_first-here :
      (c : Component) (comps : List Component)
      → (c.bom_ref == ref) ≡ true
      → mark_first ref key value (c ∷ comps) ≡ record c { fields = mark key value c.fields } ∷ comps
  unfolding mark_first
  mark_first-here c comps h = rw (h, mark_first) refl

  mark_first-past :
      (c : Component) (comps : List Component)
      → (c.bom_ref == ref) ≡ false
      → mark_first ref key value (c ∷ comps)
        ≡ rebuild_top c comps
            (mark_below ref key value c.sub_components)
            (mark_first ref key value comps)
  unfolding mark_first
  mark_first-past c comps h = rw (h, mark_first) refl

  -- The mark is set at the component that its reference finds, and is read back there.
  pub find-mark_first :
      (comps : List Component)
      → find_component_by_bom_ref (mark_first ref key value comps) ref
        ≡ marked key value (find_component_by_bom_ref comps ref)
  unfolding mark_first find_component_by_bom_ref
  find-mark_first [] = refl
  find-mark_first (c ∷ comps) = elim (Bool-cases (c.bom_ref == ref)) [
    | inl here ↦
        ap (λ l. find_component_by_bom_ref l ref) (mark_first-here c comps here)
        ∙ find-here (record c { fields = mark key value c.fields }) comps here
        ∙ sym (ap (marked key value) (find-here c comps here))
    | inr other ↦
        ap (λ l. find_component_by_bom_ref l ref) (mark_first-past c comps other)
        ∙ find-rebuild_top c comps (mark_first ref key value comps)
            (mark_below ref key value c.sub_components) other
            (mark_below-MarksBelow c.sub_components) (find-mark_first comps)
  ]
