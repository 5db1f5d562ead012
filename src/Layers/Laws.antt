-- ===== src/Layers/Laws.antt =====
-- The map of paths: one entry for each path, and what each change of it does to a lookup.
use mathlib.Core.Path.{subst}
use astinus.Base.{
  ℕ, ◌≡◌, refl, ap, Bool, false, ◌&&◌, List, [], ◌∷◌, map, Option, none, some, arith, ltb, Text,
  text_eq, nat_eq, ◌==◌, ==_iff, if◌then◌else◌, contains, Distinct, if_ind, Bool-cases, inl, inr,
}
use astinus.Base.Dict.{Dict, lookup, insert, erase}
use astinus.Base.Strings.{has_prefix}
use astinus.Layers.{remove_prefix_from_prior_layers}

module _ {V : Type 0} where
  abbrev pub keys : Dict Text V → List Text
  keys = map (λ e. e.0)

  -- A Go map has one entry for each key.
  abbrev pub Single : Dict Text V → Type 0
  Single d = Distinct (keys d)

  lookup_of_fresh : (k : Text) (d : Dict Text V) → contains (keys d) k ≡ false → lookup k d ≡ none
  unfolding lookup
  lookup_of_fresh k [] h = refl
  lookup_of_fresh k ((j, v) ∷ d) h = ground (arith, lookup_of_fresh k d)

  contains-insert :
      (k j : Text) (v : V) (d : Dict Text V)
      → contains (keys d) j ≡ false
      → (j == k) ≡ false
      → contains (keys (insert k v d)) j ≡ false
  unfolding insert
  contains-insert k j v [] h other = ground (arith, ==_iff k j, ==_iff j k)
  contains-insert k j v ((i, w) ∷ d) h other =
      ground (arith, ==_iff i k, ==_iff i j, ==_iff j k, contains-insert k j v d)

  pub insert-Single : (k : Text) (v : V) (d : Dict Text V) → Single d → Single (insert k v d)
  unfolding insert
  insert-Single k v [] h = (refl, tt)
  insert-Single k v ((i, w) ∷ d) (fresh, h) = elim (Bool-cases (i == k)) [
    | inl same ↦ rw (same) (subst (λ t. contains (keys d) t ≡ false) ((==_iff i k).0 same) fresh, h)
    | inr other ↦ rw (other) (contains-insert k i v d fresh other, insert-Single k v d h)
  ]

  contains-erase :
      (k j : Text) (d : Dict Text V)
      → contains (keys d) j ≡ false
      → contains (keys (erase k d)) j ≡ false
  unfolding erase
  contains-erase k j [] h = refl
  contains-erase k j ((i, w) ∷ d) h = ground (arith, contains-erase k j d)

  pub erase-Single : (k : Text) (d : Dict Text V) → Single d → Single (erase k d)
  unfolding erase
  erase-Single k [] h = tt
  erase-Single k ((i, w) ∷ d) (fresh, h) =
      if_ind Single (i == k) (erase-Single k d h) (contains-erase k i d fresh, erase-Single k d h)

contains-remove :
    (paths : Dict Text ℕ) (prefix : Text) (i : ℕ) (j : Text)
    → contains (keys paths) j ≡ false
    → contains (keys (remove_prefix_from_prior_layers paths prefix i)) j ≡ false
unfolding remove_prefix_from_prior_layers
contains-remove [] prefix i j h = refl
contains-remove ((k, idx) ∷ paths) prefix i j h = ground (arith, contains-remove paths prefix i j)

pub remove-Single :
    (paths : Dict Text ℕ) (prefix : Text) (i : ℕ)
    → Single paths
    → Single (remove_prefix_from_prior_layers paths prefix i)
unfolding remove_prefix_from_prior_layers
remove-Single [] prefix i h = tt
remove-Single ((k, idx) ∷ paths) prefix i (fresh, h) =
    if_ind Single (ltb idx i && has_prefix k prefix) (remove-Single paths prefix i h)
      (contains-remove paths prefix i k fresh, remove-Single paths prefix i h)

-- What an opaque marker of layer `i` leaves of the owner of a path that it covers or not.
abbrev pub hide : Bool → ℕ → Option ℕ → Option ℕ
hide covered i none = none
hide covered i (some idx) = if ltb idx i && covered then none else some idx

pub lookup-remove :
    (paths : Dict Text ℕ) (prefix : Text) (i : ℕ) (k : Text)
    → Single paths
    → lookup k (remove_prefix_from_prior_layers paths prefix i)
      ≡ hide (has_prefix k prefix) i (lookup k paths)
unfolding remove_prefix_from_prior_layers lookup
lookup-remove [] prefix i k h = refl
lookup-remove ((j, idx) ∷ paths) prefix i k (fresh, h) = elim (Bool-cases (j == k)) [
  | inl same ↦ ground (
    arith,
    same,
    ap (λ t. has_prefix t prefix) ((==_iff j k).0 same),
    lookup_of_fresh k (remove_prefix_from_prior_layers paths prefix i) (
        contains-remove paths prefix i k
          (subst (λ t. contains (keys paths) t ≡ false) ((==_iff j k).0 same) fresh)),
  )
  | inr other ↦ ground (arith, other, lookup-remove paths prefix i k h)
]
