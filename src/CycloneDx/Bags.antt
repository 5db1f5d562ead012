-- ===== src/CycloneDx/Bags.antt =====
-- internal/sbom/cyclonedx/mapper.go: property bags, as maps and as lists in the order of their names.
use astinus.Base.{
  ◌≡◌, refl, ◌∙◌, inl, inr, Bool, true, false, List, [], ◌∷◌, Option, none, some, Text, text_eq,
  nat_eq, ◌==◌, ==_iff, if◌then◌else◌, Bool-cases, map, or_else, contains,
}
use astinus.Base.Dict.{Dict, lookup, insert, lookup-insert}
use astinus.Base.Sort.{sort_stable, text_less, contains-sort_stable}
use astinus.CycloneDx.Wire.{CdxProperties}

-- `for _, p := range in { out[p.Name] = p.Value }`
unfoldable pub put_all : Dict Text Text → CdxProperties → Dict Text Text
put_all out [] = out
put_all out ((name, value) ∷ props) = put_all (insert name value out) props

unfoldable pub props_from_cdx : CdxProperties → Dict Text Text
unfolding put_all
props_from_cdx props = put_all [] props

abbrev pub name_of : Text × Text → Text
name_of p = p.0

-- `in[k]`, the empty text for a key that is not there.
abbrev pub value_in : Dict Text Text → Text → Text
value_in d k = elim (lookup k d) [ none ↦ [] | some v ↦ v ]

unfoldable pub map_to_cdx_properties : Dict Text Text → CdxProperties
unfolding sort_stable text_less
map_to_cdx_properties d = map (λ k. (k, value_in d k)) (sort_stable text_less (map name_of d))

-- The entries of `extra` over those of `base`; the order in which they are put in is open.
unfoldable pub merge_properties : Dict Text Text → Dict Text Text → Dict Text Text
merge_properties base [] = base
merge_properties base ((k, v) ∷ extra) = insert k v (merge_properties base extra)

pub lookup-merge :
    (k : Text) (base extra : Dict Text Text)
    → lookup k (merge_properties base extra) ≡ or_else (lookup k extra) (lookup k base)
unfolding merge_properties lookup
lookup-merge k base [] = refl
lookup-merge k base ((j, v) ∷ extra) = elim (Bool-cases (j == k)) [
  | inl same ↦ rw (lookup-insert j k v (merge_properties base extra), same) refl
  | inr other ↦
      rw (lookup-insert j k v (merge_properties base extra), other) (lookup-merge k base extra)
]

lookup-put_all :
    (k : Text) (value : Text → Text) (out : Dict Text Text) (keys : List Text)
    → lookup k (put_all out (map (λ j. (j, value j)) keys))
      ≡ (if contains keys k then some (value k) else lookup k out)
unfolding put_all
lookup-put_all k value out [] = refl
lookup-put_all k value out (j ∷ keys) = elim (Bool-cases (j == k)) [
  | inl same ↦
      lookup-put_all k value (insert j (value j) out) keys
      ∙ rw (lookup-insert j k (value j) out, same, (==_iff j k).0 same)
          (same_value (contains keys k))
  | inr other ↦
      lookup-put_all k value (insert j (value j) out) keys
      ∙ rw (lookup-insert j k (value j) out, other) refl
]
  where
    same_value : (b : Bool) → (if b then some (value k) else some (value k)) ≡ some (value k)
    same_value true = refl
    same_value false = refl

abbrev pub is_there : Option Text → Bool
is_there none = false
is_there (some v) = true

pub contains-names :
    (k : Text) (d : Dict Text Text) → contains (map name_of d) k ≡ is_there (lookup k d)
unfolding lookup
contains-names k [] = refl
contains-names k ((j, v) ∷ d) = elim (Bool-cases (j == k)) [
  | inl same ↦ rw (same) refl
  | inr other ↦ rw (other) (contains-names k d)
]

value_in-names :
    (k : Text) (d : Dict Text Text)
    → (if contains (map name_of d) k then some (value_in d k) else none) ≡ lookup k d
value_in-names k d = rw (contains-names k d) (from_entry (lookup k d))
  where
    from_entry :
        (o : Option Text)
        → (if is_there o then some (elim o [ none ↦ [] | some v ↦ v ]) else none) ≡ o
    from_entry none = refl
    from_entry (some v) = refl

-- Writing a bag and reading it again gives every name the value that it had.
pub lookup-props_from_cdx :
    (k : Text) (d : Dict Text Text)
    → lookup k (props_from_cdx (map_to_cdx_properties d)) ≡ lookup k d
unfolding props_from_cdx map_to_cdx_properties lookup
lookup-props_from_cdx k d =
    lookup-put_all k (value_in d) [] (sort_stable text_less (map name_of d))
    ∙ rw (contains-sort_stable text_less k (map name_of d)) (value_in-names k d)
