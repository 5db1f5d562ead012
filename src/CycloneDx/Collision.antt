-- ===== src/CycloneDx/Collision.antt =====
-- internal/sbom/cyclonedx/mapper.go and internal/enrich/cpe/enricher.go: both write properties under
-- astinus:cpe:, and the reader takes all of them for CPEs.
use astinus.Base.{
  ℕ, ◌≡◌, refl, ◌∙◌, inl, inr, Bool, true, false, [], ◌∷◌, none, some, Text, text_eq, nat_eq, ◌==◌,
  ==_iff, ==_refl, Bool-cases, contains, contains-append, arith, Result, ok, codes, ap,
}
use mathlib.Core.Option.{some-injective}
use astinus.Base.Dict.{Dict, lookup, lookup-insert}
use astinus.Model.{ComponentFields}
use astinus.Base.Strings.{cut_prefix}
use astinus.Cpe.Candidates.{Threshold}
use astinus.Cpe.Purl.{Purl, PurlError, Resolver}
use astinus.Cpe.Enrich.{
  enrich_one, own, clear_cpe_properties, candidates_from_existing_cpes, set_prop,
}
use astinus.CycloneDx.Bags.{lookup-props_from_cdx, lookup-merge, merge_properties}
use astinus.CycloneDx.Marks.{astinus_properties, is_cpe_key, values_of, erase_marks}
use astinus.CycloneDx.MarkLaws.{is_cpe_key-is_mark, or_true, lookup-marks_missing}
use astinus.CycloneDx.Values.{lookup-without}
use astinus.CycloneDx.Hydrated.{bag, lookup-erase_marks}
use astinus.CycloneDx.Components.{cpes_from_cdx, first_cpe, component_from_cdx, component_to_cdx}

contains-values_of :
    (p : Text → Bool) (k v : Text) (d : Dict Text Text)
    → p k ≡ true
    → lookup k d ≡ some v
    → contains (values_of p d) v ≡ true
unfolding values_of lookup
contains-values_of p k v [] passes there = absurd (cc there)
contains-values_of p k v ((j, w) ∷ d) passes there = elim (Bool-cases (j == k)) [
  | inl same ↦
      let here : p j ≡ true = cc (passes, (==_iff j k).0 same) in
      let value : w ≡ v = some-injective w v (rw (same) at there) in
      rw (here, value, ==_refl v) refl
  | inr other ↦
      let ih = contains-values_of p k v d passes (rw (other) at there) in ground (arith, ih)
]

-- A property under astinus:cpe: that the writer does not add itself, as are those in which the CPE
-- enricher keeps the confidence and the source of its choice, is gone when the component was written as
-- CycloneDX and read again, and its value is among the CPEs.
pub cpes-component_from_cdx :
    (narrow : ℕ → ℕ) (c : ComponentFields) (k v : Text)
    → is_cpe_key k ≡ true
    → lookup k c.properties ≡ some v
    → lookup k (astinus_properties c) ≡ none
    → (contains (component_from_cdx (component_to_cdx narrow c)).cpes v ≡ true)
      × (lookup k (component_from_cdx (component_to_cdx narrow c)).properties ≡ none)
unfolding component_from_cdx component_to_cdx
cpes-component_from_cdx narrow c k v cpe there foreign =
    let kept : lookup k (erase_marks (bag c)) ≡ some v =
      lookup-erase_marks k (bag c)
      ∙ rw (is_cpe_key-is_mark k cpe) (
          lookup-props_from_cdx k (merge_properties c.properties (astinus_properties c))
          ∙ lookup-merge k c.properties (astinus_properties c)
          ∙ rw (foreign) there) in
    let among = contains-values_of is_cpe_key k v (erase_marks (bag c)) cpe kept in
    (
      contains-append v (cpes_from_cdx (first_cpe c.cpes)) _ ∙ rw (among) (or_true _),
      lookup-without is_cpe_key k (erase_marks (bag c)) ∙ rw (cpe) refl,
    )

abbrev lookup_key : Text
lookup_key = own (codes "lookup")

lookup-astinus_properties :
    (c : ComponentFields) → c.cpes ≡ [] → lookup lookup_key (astinus_properties c) ≡ none
unfolding astinus_properties
lookup-astinus_properties c none_yet =
    rw (none_yet) (lookup-marks_missing lookup_key c.origin c.layer_info refl)

module _ (narrow : ℕ → ℕ) (fmt : ℕ → Text) (parse : Text → Result PurlError Purl)
    (error_text : PurlError → Text) (chain : Resolver) (t : Threshold)
    (include_rejected : Bool) where
  unmatched : ComponentFields → ComponentFields
  unmatched c =
      set_prop fmt lookup_key (codes "no-match")
        (record c { properties = clear_cpe_properties c.properties })

  enrich_one-unmatched :
      (c : ComponentFields) (purl : Purl)
      → c.cpes ≡ []
      → (c.purl == []) ≡ false
      → parse c.purl ≡ ok purl
      → chain purl ≡ []
      → enrich_one fmt parse error_text chain t include_rejected c ≡ unmatched c
  unfolding enrich_one unmatched candidates_from_existing_cpes
  enrich_one-unmatched c purl none_yet given parsed nothing =
      let no_cands : candidates_from_existing_cpes c.cpes ≡ [] =
        ap candidates_from_existing_cpes none_yet in
      rw (given, parsed, nothing, no_cands) refl

  -- A component without CPEs, for whose PURL the sources have no candidate, is read back after the CPE
  -- enricher and the CycloneDX writer with the text `no-match` among its CPEs.
  pub cpes-enrich_one :
      (c : ComponentFields) (purl : Purl)
      → c.cpes ≡ []
      → (c.purl == []) ≡ false
      → parse c.purl ≡ ok purl
      → chain purl ≡ []
      → let enriched = enrich_one fmt parse error_text chain t include_rejected c in
        contains (component_from_cdx (component_to_cdx narrow enriched)).cpes (codes "no-match")
        ≡ true
  unfolding unmatched cut_prefix
  cpes-enrich_one c purl none_yet given parsed nothing =
      ap
        (λ enriched.
          contains (component_from_cdx (component_to_cdx narrow enriched)).cpes (codes "no-match"))
        (enrich_one-unmatched c purl none_yet given parsed nothing)
      ∙ (cpes-component_from_cdx narrow (unmatched c) lookup_key (codes "no-match") refl
          (lookup-insert lookup_key lookup_key (codes "no-match")
            (clear_cpe_properties c.properties))
          (lookup-astinus_properties (unmatched c) none_yet)).0
