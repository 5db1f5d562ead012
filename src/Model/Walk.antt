-- ===== src/Model/Walk.antt =====
-- `walkComponents` of internal/enrich/basediff/enricher.go: every component with its sub-components,
-- depth first, and the components in the order of that visit.
use mathlib.Core.List.{map-append}
use astinus.Base.{◌≡◌, refl, List, [], ◌∷◌, ◌++◌, map, All}
use astinus.Model.{ComponentFields, SubComponents, nil, cons, Component}

unfoldable pub walk_below : (ComponentFields → ComponentFields) → SubComponents → SubComponents
walk_below fn nil = nil
walk_below fn (cons c below next) = cons (fn c) (walk_below fn below) (walk_below fn next)

unfoldable pub walk_components :
    (ComponentFields → ComponentFields) → List Component → List Component
unfolding walk_below
walk_components fn [] = []
walk_components fn (c ∷ comps) =
    record { fields = fn c.fields; sub_components = walk_below fn c.sub_components }
    ∷ walk_components fn comps

unfoldable pub all_below : SubComponents → List ComponentFields
all_below nil = []
all_below (cons c below next) = c ∷ (all_below below ++ all_below next)

unfoldable pub all_components : List Component → List ComponentFields
unfolding all_below
all_components [] = []
all_components (c ∷ comps) = c.fields ∷ (all_below c.sub_components ++ all_components comps)

all_below-walk_below :
    (fn : ComponentFields → ComponentFields) (comps : SubComponents)
    → all_below (walk_below fn comps) ≡ map fn (all_below comps)
unfolding walk_below all_below
all_below-walk_below fn nil = refl
all_below-walk_below fn (cons c below next) =
    rw
      (
        map-append fn (all_below below) (all_below next),
        all_below-walk_below fn below,
        all_below-walk_below fn next,
      )
      refl

-- The visit reaches every component once and changes nothing else of the tree.
pub all_components-walk_components :
    (fn : ComponentFields → ComponentFields) (comps : List Component)
    → all_components (walk_components fn comps) ≡ map fn (all_components comps)
unfolding walk_components all_components
all_components-walk_components fn [] = refl
all_components-walk_components fn (c ∷ comps) =
    rw
      (
        map-append fn (all_below c.sub_components) (all_components comps),
        all_below-walk_below fn c.sub_components,
        all_components-walk_components fn comps,
      )
      refl

All-parts :
    (P : ComponentFields → Type 0) (xs ys : List ComponentFields)
    → All P (xs ++ ys)
    → All P xs × All P ys
All-parts P [] ys h = (tt, h)
All-parts P (x ∷ xs) ys (p, h) = let (a, b) = All-parts P xs ys h in ((p, a), b)

-- The same visit by a function that keeps a state.
module _ {ℓ} {S : Type ℓ} (fn : S → ComponentFields → S × ComponentFields) where
  unfoldable pub thread_below : S → SubComponents → S × SubComponents
  thread_below s nil = (s, nil)
  thread_below s (cons c below next) =
      let (s', c') = fn s c in
      let (s'', below') = thread_below s' below in
      let (s''', next') = thread_below s'' next in (s''', cons c' below' next')

  unfoldable pub thread_components : S → List Component → S × List Component
  unfolding thread_below
  thread_components s [] = (s, [])
  thread_components s (c ∷ comps) =
      let (s', c') = fn s c.fields in
      let (s'', below') = thread_below s' c.sub_components in
      let (s''', comps') = thread_components s'' comps in
      (s''', record { fields = c'; sub_components = below' } ∷ comps')

  -- Where every component has `Q`, every state that is met keeps `Inv`, and in such a state the function does what `pure`
  -- does, the visit does what that of `pure` does.
  module _ {κ} (Inv : S → Type κ) (Q : ComponentFields → Type 0)
      (pure : ComponentFields → ComponentFields)
      (step : (s : S) (c : ComponentFields)
        → Q c
        → Inv s
        → Inv (fn s c).0 × ((fn s c).1 ≡ pure c)) where
    thread_below-walk_below :
        (s : S) (comps : SubComponents)
        → All Q (all_below comps)
        → Inv s
        → Inv (thread_below s comps).0 × ((thread_below s comps).1 ≡ walk_below pure comps)
    unfolding thread_below walk_below all_below
    thread_below-walk_below s nil qs h = (h, refl)
    thread_below-walk_below s (cons c below next) (q, qs) h =
        let (inside, after) = All-parts Q (all_below below) (all_below next) qs in
        let (h', e) = step s c q h in
        let (h'', e') = thread_below-walk_below (fn s c).0 below inside h' in
        let (h''', e'') =
          thread_below-walk_below (thread_below (fn s c).0 below).0 next after h'' in
        (h''', rw (e, e', e'') refl)

    pub thread_components-walk_components :
        (s : S) (comps : List Component)
        → All Q (all_components comps)
        → Inv s
        → Inv (thread_components s comps).0
          × ((thread_components s comps).1 ≡ walk_components pure comps)
    unfolding thread_components walk_components all_components
    thread_components-walk_components s [] qs h = (h, refl)
    thread_components-walk_components s (c ∷ comps) (q, qs) h =
        let (inside, after) = All-parts Q (all_below c.sub_components) (all_components comps) qs in
        let (h', e) = step s c.fields q h in
        let (h'', e') = thread_below-walk_below (fn s c.fields).0 c.sub_components inside h' in
        let (h''', e'') =
          thread_components-walk_components (thread_below (fn s c.fields).0 c.sub_components).0
            comps after h'' in
        (h''', rw (e, e', e'') refl)
