-- ===== src/Cpe/Enrich.antt =====
-- internal/enrich/cpe/enricher.go: the CPEs of each component. What is logged or counted for the log is left
-- out. The resolver is a parameter, and so are the parser of package URLs and the text of its error.
use astinus.Base.{
  ℕ, suc, Bool, true, false, List, [], ◌∷◌, ◌++◌, Option, none, some, Text, codes, text_eq, nat_eq,
  ◌==◌, if◌then◌else◌, Result, ok, err,
}
use astinus.Base.Dict.{Dict, insert}
use astinus.Base.Decimal.{format_nat}
use astinus.Base.Strings.{has_prefix}
use astinus.Model.{ComponentFields, Sbom}
use astinus.Model.Walk.{walk_components}
use astinus.Cpe.Name.{is_valid_cpe}
use astinus.Cpe.Candidates.{Candidate, Threshold, Verdict, dedupe_candidates, classify}
use astinus.Cpe.Purl.{Purl, PurlError, Resolver}

abbrev pub existing_candidate : Text → Candidate
existing_candidate s =
    if is_valid_cpe s
    then record {
      cpe = s;
      confidence = 70;
      source = codes "input";
      evidence = codes "input SBOM";
      rejected_reason = [];
    }
    else record {
      cpe = s;
      confidence = 5;
      source = codes "input";
      evidence = codes "input SBOM";
      rejected_reason = codes "input CPE failed CPE 2.3 syntax validation";
    }

unfoldable pub candidates_from_existing_cpes : List Text → List Candidate
unfolding is_valid_cpe
candidates_from_existing_cpes [] = []
candidates_from_existing_cpes (s ∷ cpes) = existing_candidate s ∷ candidates_from_existing_cpes cpes

abbrev pub property_prefix : Text
property_prefix = codes "astinus:cpe:"

-- A key of the enricher's own.
abbrev pub own : Text → Text
own name = property_prefix ++ name

unfoldable pub clear_cpe_properties : Dict Text Text → Dict Text Text
clear_cpe_properties [] = []
clear_cpe_properties ((k, v) ∷ props) =
    let rest = clear_cpe_properties props in
    if has_prefix k property_prefix then rest else (k, v) ∷ rest

unfoldable pub any_valid : List Text → Bool
unfolding is_valid_cpe
any_valid [] = false
any_valid (s ∷ cpes) = let rest = any_valid cpes in if is_valid_cpe s then true else rest

unfoldable pub any_invalid : List Text → Bool
unfolding is_valid_cpe
any_invalid [] = false
any_invalid (s ∷ cpes) = let rest = any_invalid cpes in if is_valid_cpe s then rest else true

-- `setValidationStamps`, by whether some are bad and some are good.
unfoldable pub set_validation_stamps : List Text → Dict Text Text → Dict Text Text
unfolding any_valid any_invalid
set_validation_stamps [] props = props
set_validation_stamps (s ∷ cpes) props =
    if any_invalid (s ∷ cpes)
    then if any_valid (s ∷ cpes)
      then insert (own (codes "validated")) (codes "partial") props
      else insert (own (codes "invalid")) (codes "true")
          (insert (own (codes "validated")) (codes "false") props)
    else insert (own (codes "validated")) (codes "true") props

module _ (format_confidence : ℕ → Text) where
  -- The loop over the alternatives from number `i` on.
  unfoldable pub write_alternatives : ℕ → List Candidate → Dict Text Text → Dict Text Text
  write_alternatives i [] props = props
  write_alternatives i (alt ∷ alts) props =
      let key = codes "alternative:" ++ format_nat i in
      write_alternatives (suc i) alts (
        insert (own (key ++ codes ":confidence")) (format_confidence alt.confidence)
          (insert (own (key ++ codes ":source")) alt.source (insert (own key) alt.cpe props)))

  abbrev pub write_reason : Text → Text → Dict Text Text → Dict Text Text
  write_reason key reason props =
      if reason == [] then props else insert (own (key ++ codes ":reason")) reason props

  -- The loop over the rejected ones, where they are to be included.
  unfoldable pub write_rejected : ℕ → List Candidate → Dict Text Text → Dict Text Text
  write_rejected i [] props = props
  write_rejected i (rej ∷ rejected) props =
      let key = codes "rejected:" ++ format_nat i in
      write_rejected (suc i) rejected (
        write_reason key rej.rejected_reason (
          insert (own (key ++ codes ":confidence")) (format_confidence rej.confidence)
            (insert (own (key ++ codes ":source")) rej.source (insert (own key) rej.cpe props))))

  abbrev pub write_evidence : Text → Dict Text Text → Dict Text Text
  write_evidence evidence props =
      if evidence == [] then props else insert (own (codes "evidence")) evidence props

  -- The first part of `writeResults`: the CPEs and the stamps of the primary.
  unfoldable pub write_primary :
      Option Candidate → List Text → Dict Text Text → List Text × Dict Text Text
  unfolding set_validation_stamps
  write_primary (some p) original props = (
    p.cpe ∷ [],
    set_validation_stamps original (
        write_evidence p.evidence (
          insert (own (codes "confidence")) (format_confidence p.confidence)
            (insert (own (codes "source")) p.source props))),
  )
  write_primary none [] props = ([], insert (own (codes "lookup")) (codes "no-match") props)
  write_primary none (s ∷ original) props = (
    s ∷ original,
    insert (own (codes "lookup")) (codes "no-primary-above-threshold")
        (set_validation_stamps (s ∷ original) props),
  )

  unfoldable pub write_verdict : Bool → Verdict → ComponentFields → ComponentFields
  unfolding write_primary write_alternatives write_rejected
  write_verdict include_rejected v c =
      let first = write_primary v.primary c.cpes c.properties in
      let with_alts = write_alternatives 1 v.alternatives first.1 in
      record c {
        cpes = first.0;
        properties = if include_rejected then write_rejected 1 v.rejected with_alts else with_alts;
      }

  -- `writeResults`
  unfoldable pub write_results :
      Threshold → Bool → List Candidate → ComponentFields → ComponentFields
  unfolding write_verdict dedupe_candidates classify
  write_results t include_rejected cands c =
      write_verdict include_rejected (classify format_confidence (dedupe_candidates cands) t) c

  abbrev pub set_prop : Text → Text → ComponentFields → ComponentFields
  set_prop key value c = record c { properties = insert key value c.properties }

  abbrev pub write_if_any : Threshold → Bool → List Candidate → ComponentFields → ComponentFields
  write_if_any t include_rejected [] c = set_prop (own (codes "lookup")) (codes "no-match") c
  write_if_any t include_rejected (x ∷ xs) c = write_results t include_rejected (x ∷ xs) c

  abbrev pub write_existing : Threshold → Bool → List Candidate → ComponentFields → ComponentFields
  write_existing t include_rejected [] c = c
  write_existing t include_rejected (x ∷ xs) c = write_results t include_rejected (x ∷ xs) c

  module _ (parse : Text → Result PurlError Purl) (error_text : PurlError → Text) (chain : Resolver)
      (t : Threshold) (include_rejected : Bool) where
    -- `enrichOne`
    unfoldable pub enrich_one : ComponentFields → ComponentFields
    unfolding clear_cpe_properties candidates_from_existing_cpes write_results
    enrich_one c =
        let cleared = record c { properties = clear_cpe_properties c.properties } in
        let cands = candidates_from_existing_cpes c.cpes in
        if c.purl == []
        then write_existing t include_rejected cands cleared
        else elim (parse c.purl) [
          | err e ↦ set_prop (own (codes "purl-error")) (error_text e) cleared
          | ok purl ↦ write_if_any t include_rejected (cands ++ chain purl) cleared
        ]

    unfoldable pub enrich : Sbom → Sbom
    unfolding enrich_one
    enrich sbom = record sbom { components = walk_components enrich_one sbom.components }
