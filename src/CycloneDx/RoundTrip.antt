-- ===== src/CycloneDx/RoundTrip.antt =====
-- internal/sbom/cyclonedx/mapper.go: components that are written and read again.
use astinus.Base.{
  ℕ, ◌≡◌, refl, true, false, List, [], ◌∷◌, ◌++◌, none, Text, text_eq, nat_eq, ◌==◌, ==_refl, count,
  All, arith,
}
use astinus.Base.Dict.{lookup}
use astinus.Model.{ComponentFields, Component, SubComponents, nil, cons}
use astinus.CycloneDx.PartLaws.{
  IsType, map_component_type_from_cdx_known, IsHash, hashes_from_cdx-to, IsLicense,
  licenses_from_cdx-to, IsEvidence, evidence_from_cdx-to,
}
use astinus.CycloneDx.Marks.{extra_cpes, is_cpe_key, values_of, erase_marks}
use astinus.CycloneDx.MarkLaws.{is_mark, IsIndexed}
use astinus.CycloneDx.Hydrated.{bag, bag-origin, bag-layer, bag-cpes, bag-properties}
use astinus.CycloneDx.Components.{
  name_or_empty, given_name, cpes_from_cdx, first_cpe, component_from_cdx, components_from_cdx,
  top_from_cdx, component_to_cdx, components_to_cdx, top_to_cdx,
}

abbrev pub HasFirst : List Text → Type 0
HasFirst [] = Unit
HasFirst (cpe ∷ cpes) = (cpe == []) ≡ false

-- The same component, but for the order of the properties and of the CPEs after the first.
abbrev pub IsSame : ComponentFields → ComponentFields → Type 0
IsSame before after =
    (after ≡ record before { cpes = after.cpes; properties = after.properties })
    × (first_cpe after.cpes ≡ first_cpe before.cpes)
    × ((x : Text) → count x after.cpes ≡ count x before.cpes)
    × ((k : Text) → lookup k after.properties ≡ lookup k before.properties)

name_or_empty-given_name : (s : Text) → name_or_empty (given_name s) ≡ s
name_or_empty-given_name [] = refl
name_or_empty-given_name (c ∷ s) = refl

module _ (narrow : ℕ → ℕ) where
  -- What CycloneDX and the reserved properties can express.
  abbrev pub IsWritable : ComponentFields → Type 0
  IsWritable c =
      IsType c.type
      × All IsHash c.hashes
      × All IsLicense c.licenses
      × IsEvidence narrow c.evidence
      × HasFirst c.cpes
      × IsIndexed c.layer_info
      × ((k : Text) → is_mark k ≡ true → lookup k c.properties ≡ none)
      × ((k : Text) → is_cpe_key k ≡ true → lookup k c.properties ≡ none)

  first-cpes :
      (cpes more : List Text)
      → HasFirst cpes
      → ((x : Text) → count x more ≡ count x (extra_cpes cpes))
      → (first_cpe (cpes_from_cdx (first_cpe cpes) ++ more) ≡ first_cpe cpes)
        × ((x : Text) → count x (cpes_from_cdx (first_cpe cpes) ++ more) ≡ count x cpes)
  first-cpes [] [] h same = (refl, λ x. refl)
  first-cpes [] (cpe ∷ more) h same = absurd (ground (arith, same cpe, ==_refl cpe))
  first-cpes (cpe ∷ cpes) more h same = rw (h) (refl, λ x. ground (arith, same x))

  component_from_cdx-to :
      (c : ComponentFields)
      → IsWritable c
      → IsSame c (component_from_cdx (component_to_cdx narrow c))
  unfolding component_from_cdx component_to_cdx
  component_from_cdx-to c (type, hashes, licenses, evidence, first, indexed, marked, cpe_keys) =
      let (head, counts) =
        first-cpes c.cpes (values_of is_cpe_key (erase_marks (bag c))) first
          (bag-cpes c marked cpe_keys) in
      (
        rw
            (
              map_component_type_from_cdx_known c.type type,
              hashes_from_cdx-to c.hashes hashes,
              licenses_from_cdx-to c.licenses licenses,
              evidence_from_cdx-to narrow c.evidence evidence,
              name_or_empty-given_name c.supplier,
              bag-origin c marked cpe_keys,
              bag-layer c marked cpe_keys indexed,
            )
            refl,
        head,
        counts,
        bag-properties c marked cpe_keys,
      )

  abbrev pub WritableBelow : SubComponents → Type 0
  WritableBelow nil = Unit
  WritableBelow (cons c below next) = IsWritable c × WritableBelow below × WritableBelow next

-- The same tree of components.
abbrev pub SameBelow : SubComponents → SubComponents → Type 0
SameBelow nil nil = Unit
SameBelow (cons c below next) (cons d below' next') =
    IsSame c d × SameBelow below below' × SameBelow next next'
SameBelow _ _ = ⊥

abbrev pub SameTop : Component → Component → Type 0
SameTop c d = IsSame c.fields d.fields × SameBelow c.sub_components d.sub_components

module _ (narrow : ℕ → ℕ) where
  components_from_cdx-to :
      (comps : SubComponents)
      → WritableBelow narrow comps
      → SameBelow comps (components_from_cdx (components_to_cdx narrow comps))
  unfolding components_from_cdx components_to_cdx
  components_from_cdx-to nil h = tt
  components_from_cdx-to (cons c below next) (here, h, h') = (
    component_from_cdx-to narrow c here,
    components_from_cdx-to below h,
    components_from_cdx-to next h',
  )

  abbrev pub WritableTop : Component → Type 0
  WritableTop c = IsWritable narrow c.fields × WritableBelow narrow c.sub_components

  pub top_from_cdx-to :
      (c : Component) → WritableTop c → SameTop c (top_from_cdx (top_to_cdx narrow c))
  unfolding top_from_cdx top_to_cdx
  top_from_cdx-to c (here, h) =
      (component_from_cdx-to narrow c.fields here, components_from_cdx-to c.sub_components h)
