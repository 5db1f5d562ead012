-- ===== src/Cpe/FrameLaws.antt =====
-- internal/enrich/cpe/enricher.go: what the enricher may change of a component.
use astinus.Base.{
  ℕ, suc, ◌≤◌, ◌<◌, ◌≡◌, refl, ◌∙◌, ap, ◌⊎◌, inl, inr, Bool, true, false, List, [], ◌∷◌, ◌++◌,
  Option, none, some, Text, codes, text_eq, nat_eq, ◌==◌, ==_iff, if◌then◌else◌, if_ind, Bool-cases,
  All, Result, ok, err,
}
use astinus.Base.Dict.{Dict, lookup, insert, lookup-insert}
use astinus.Base.Decimal.{format_nat}
use astinus.Base.Strings.{has_prefix, cut_prefix}
use astinus.Model.{ComponentFields}
use astinus.Cpe.Candidates.{Candidate, Threshold, Verdict, dedupe_candidates, classify}
use astinus.Cpe.ChoiceLaws.{IsBest, classify-IsBest}
use astinus.Cpe.Chosen.{classify-Holds, dedupe_candidates-All}
use astinus.Cpe.Purl.{Purl, PurlError, Resolver}
use astinus.Cpe.Enrich.{
  property_prefix, own, clear_cpe_properties, any_valid, any_invalid, set_validation_stamps,
  write_alternatives, write_rejected, write_primary, write_verdict, write_results, set_prop,
  write_if_any, write_existing, candidates_from_existing_cpes, enrich_one,
}

own_prefixed : (name : Text) → has_prefix (own name) property_prefix ≡ true
unfolding cut_prefix
own_prefixed name = refl

module _ (k : Text) (foreign : has_prefix k property_prefix ≡ false) where
  -- The key has what it had.
  abbrev pub IsKept : Dict Text Text → Dict Text Text → Type 0
  IsKept before after = lookup k after ≡ lookup k before

  own_differs : (name : Text) → (own name == k) ≡ false
  own_differs name = elim (Bool-cases (own name == k)) [
    | inl same ↦ absurd (
        cc (
          foreign,
          ap (λ s. has_prefix s property_prefix) ((==_iff (own name) k).0 same),
          own_prefixed name,
        ))
    | inr other ↦ other
  ]

  insert-IsKept :
      (name value : Text) (before after : Dict Text Text)
      → IsKept before after
      → IsKept before (insert (own name) value after)
  insert-IsKept name value before after h =
      lookup-insert (own name) k value after ∙ rw (own_differs name) h

  clear-IsKept : (props : Dict Text Text) → IsKept props (clear_cpe_properties props)
  unfolding clear_cpe_properties lookup
  clear-IsKept [] = refl
  clear-IsKept ((j, v) ∷ props) = elim (Bool-cases (has_prefix j property_prefix)) [
    | inl mine ↦ elim (Bool-cases (j == k)) [
      | inl same ↦
          absurd (cc (foreign, ap (λ s. has_prefix s property_prefix) ((==_iff j k).0 same), mine))
      | inr differ ↦ rw (mine, clear_cpe_properties, differ) (clear-IsKept props)
    ]
    | inr other ↦
        rw (other, clear_cpe_properties)
          (ap (λ o. if j == k then some v else o) (clear-IsKept props))
  ]

  set_validation_stamps-IsKept :
      (original : List Text) (before after : Dict Text Text)
      → IsKept before after
      → IsKept before (set_validation_stamps original after)
  unfolding set_validation_stamps
  set_validation_stamps-IsKept [] before after h = h
  set_validation_stamps-IsKept (s ∷ original) before after h =
      if_ind (IsKept before) (any_invalid (s ∷ original))
        (if_ind (IsKept before) (any_valid (s ∷ original))
          (insert-IsKept (codes "validated") (codes "partial") before after h)
          (insert-IsKept (codes "invalid") (codes "true") before _
            (insert-IsKept (codes "validated") (codes "false") before after h)))
        (insert-IsKept (codes "validated") (codes "true") before after h)

  module _ (fmt : ℕ → Text) where
    write_alternatives-IsKept :
        (i : ℕ) (alts : List Candidate) (before after : Dict Text Text)
        → IsKept before after
        → IsKept before (write_alternatives fmt i alts after)
    unfolding write_alternatives
    write_alternatives-IsKept i [] before after h = h
    write_alternatives-IsKept i (alt ∷ alts) before after h =
        let key = codes "alternative:" ++ format_nat i in
        write_alternatives-IsKept (suc i) alts before _ (
          insert-IsKept (key ++ codes ":confidence") (fmt alt.confidence) before _ (
            insert-IsKept (key ++ codes ":source") alt.source before _
              (insert-IsKept key alt.cpe before after h)))

    write_rejected-IsKept :
        (i : ℕ) (rejected : List Candidate) (before after : Dict Text Text)
        → IsKept before after
        → IsKept before (write_rejected fmt i rejected after)
    unfolding write_rejected
    write_rejected-IsKept i [] before after h = h
    write_rejected-IsKept i (rej ∷ rejected) before after h =
        let key = codes "rejected:" ++ format_nat i in
        let written = insert-IsKept (key ++ codes ":confidence") (fmt rej.confidence) before _ (
          insert-IsKept (key ++ codes ":source") rej.source before _
            (insert-IsKept key rej.cpe before after h)) in
        write_rejected-IsKept (suc i) rejected before _ (
          if_ind (IsKept before) (rej.rejected_reason == []) written
            (insert-IsKept (key ++ codes ":reason") rej.rejected_reason before _ written))

    write_primary-IsKept :
        (o : Option Candidate) (original : List Text) (props : Dict Text Text)
        → IsKept props (write_primary fmt o original props).1
    unfolding write_primary
    write_primary-IsKept (some p) original props =
        let written =
          insert-IsKept (codes "confidence") (fmt p.confidence) props _
            (insert-IsKept (codes "source") p.source props props refl) in
        set_validation_stamps-IsKept original props _ (
          if_ind (IsKept props) (p.evidence == []) written
            (insert-IsKept (codes "evidence") p.evidence props _ written))
    write_primary-IsKept none [] props =
        insert-IsKept (codes "lookup") (codes "no-match") props props refl
    write_primary-IsKept none (s ∷ original) props =
        insert-IsKept (codes "lookup") (codes "no-primary-above-threshold") props _
          (set_validation_stamps-IsKept (s ∷ original) props props refl)

    -- Another key has what it had, the CPEs are those of before or one alone, and nothing but CPEs
    -- and properties is changed.
    abbrev pub IsFramed : ComponentFields → ComponentFields → Type 0
    IsFramed c c' =
        IsKept c.properties c'.properties
        × (c' ≡ record c { cpes = c'.cpes; properties = c'.properties })

    write_verdict-IsFramed :
        (include_rejected : Bool) (v : Verdict) (c : ComponentFields)
        → IsFramed c (write_verdict fmt include_rejected v c)
    unfolding write_verdict
    write_verdict-IsFramed include_rejected v c =
        let alts =
          write_alternatives-IsKept 1 v.alternatives c.properties _
            (write_primary-IsKept v.primary c.cpes c.properties) in
        (
          if_ind (IsKept c.properties) include_rejected
              (write_rejected-IsKept 1 v.rejected c.properties _ alts) alts,
          refl,
        )

-- The candidates of a component: its CPEs, and what the resolver answers for its PURL; none where the
-- PURL is there and cannot be read.
abbrev pub offered : (Text → Result PurlError Purl) → Resolver → ComponentFields → List Candidate
offered parse chain c =
    let existing = candidates_from_existing_cpes c.cpes in
    if c.purl == []
    then existing
    else elim (parse c.purl) [ err e ↦ [] | ok purl ↦ existing ++ chain purl ]

-- One of the candidates has this CPE and this confidence.
abbrev pub IsOffered : List Candidate → Text → ℕ → Type 0
IsOffered [] cpe n = ⊥
IsOffered (c ∷ cands) cpe n = ((c.cpe ≡ cpe) × (c.confidence ≡ n)) ⊎ IsOffered cands cpe n

-- The CPEs after the enricher: those of before, where no candidate, each CPE counted once, meets the
-- threshold; or the CPE alone of one that does, and that none of them exceeds.
abbrev pub IsChosen : Threshold → List Candidate → List Text → List Text → Type 0
IsChosen t cands before after =
    ((after ≡ before) × All (λ c. c.confidence < t.primary_min) (dedupe_candidates cands))
    ⊎ ((cpe : Text) × (n : ℕ) × IsOffered cands cpe n
        × (t.primary_min ≤ n)
        × All (λ c. c.confidence ≤ n) (dedupe_candidates cands)
        × (after ≡ cpe ∷ []))

write_primary-IsChosen :
    (fmt : ℕ → Text) (t : Threshold) (cands : List Candidate) (o : Option Candidate)
    (original : List Text) (props : Dict Text Text)
    → IsBest t (dedupe_candidates cands) o
    → ((p : Candidate) → o ≡ some p → IsOffered cands p.cpe p.confidence)
    → IsChosen t cands original (write_primary fmt o original props).0
unfolding write_primary
write_primary-IsChosen fmt t cands none [] props h from = inl (refl, h)
write_primary-IsChosen fmt t cands none (s ∷ original) props h from = inl (refl, h)
write_primary-IsChosen fmt t cands (some p) original props (good, best) from =
    inr (p.cpe, p.confidence, from p refl, good, best, refl)

IsOffered-more :
    (cands more : List Candidate)
    → All (λ c. IsOffered cands c.cpe c.confidence) more
    → (x : Candidate) → All (λ c. IsOffered (x ∷ cands) c.cpe c.confidence) more
IsOffered-more cands [] h x = tt
IsOffered-more cands (c ∷ more) (p, h) x = (inr p, IsOffered-more cands more h x)

IsOffered-all : (cands : List Candidate) → All (λ c. IsOffered cands c.cpe c.confidence) cands
IsOffered-all [] = tt
IsOffered-all (x ∷ cands) = (inl (refl, refl), IsOffered-more cands cands (IsOffered-all cands) x)

primary-IsOffered :
    (fmt : ℕ → Text) (t : Threshold) (cands : List Candidate) (p : Candidate)
    → (classify fmt (dedupe_candidates cands) t).primary ≡ some p
    → IsOffered cands p.cpe p.confidence
primary-IsOffered fmt t cands =
    classify-Holds (IsOffered cands) fmt t (dedupe_candidates cands)
      (dedupe_candidates-All (IsOffered cands) cands (IsOffered-all cands))

module _ (fmt : ℕ → Text) (parse : Text → Result PurlError Purl) (error_text : PurlError → Text)
    (chain : Resolver) (t : Threshold) (include_rejected : Bool) (k : Text)
    (foreign : has_prefix k property_prefix ≡ false) where
  -- What is promised of a component after the enricher, for its candidates.
  abbrev IsWritten : List Candidate → ComponentFields → ComponentFields → Type 0
  IsWritten cands c c' = IsFramed k foreign fmt c c' × IsChosen t cands c.cpes c'.cpes

  -- All that is promised of a component after the enricher.
  abbrev pub IsEnriched : ComponentFields → ComponentFields → Type 0
  IsEnriched c c' = IsFramed k foreign fmt c c' × IsChosen t (offered parse chain c) c.cpes c'.cpes

  write_results-IsWritten :
      (cands : List Candidate) (c : ComponentFields)
      → IsWritten cands c (write_results fmt t include_rejected cands c)
  unfolding write_results write_verdict
  write_results-IsWritten cands c =
      let v = classify fmt (dedupe_candidates cands) t in
      (
        write_verdict-IsFramed k foreign fmt include_rejected v c,
        write_primary-IsChosen fmt t cands v.primary c.cpes c.properties
            (classify-IsBest fmt (dedupe_candidates cands) t []).1 (primary-IsOffered fmt t cands),
      )

  -- A property of the enricher's own and nothing else, where there is no candidate.
  set_prop-IsWritten :
      (name value : Text) (c : ComponentFields) → IsWritten [] c (set_prop fmt (own name) value c)
  unfolding dedupe_candidates
  set_prop-IsWritten name value c =
      ((insert-IsKept k foreign name value c.properties c.properties refl, refl), inl (refl, tt))

  write_if_any-IsWritten :
      (cands : List Candidate) (c : ComponentFields)
      → IsWritten cands c (write_if_any fmt t include_rejected cands c)
  write_if_any-IsWritten [] c = set_prop-IsWritten (codes "lookup") (codes "no-match") c
  write_if_any-IsWritten (x ∷ xs) c = write_results-IsWritten (x ∷ xs) c

  write_existing-IsWritten :
      (cands : List Candidate) (c : ComponentFields)
      → IsWritten cands c (write_existing fmt t include_rejected cands c)
  unfolding dedupe_candidates
  write_existing-IsWritten [] c = ((refl, refl), inl (refl, tt))
  write_existing-IsWritten (x ∷ xs) c = write_results-IsWritten (x ∷ xs) c

  -- What is promised after the clearing is promised of the component before it.
  IsWritten-cleared :
      (cands : List Candidate) (c c' : ComponentFields)
      → IsWritten cands (record c { properties = clear_cpe_properties c.properties }) c'
      → IsWritten cands c c'
  IsWritten-cleared cands c c' ((kept, framed), chosen) =
      ((kept ∙ clear-IsKept k foreign c.properties, framed), chosen)

  -- Whatever the resolver answers, the enricher changes nothing of a component but its CPEs and
  -- properties, and no property whose key does not start with `astinus:cpe:`. The candidates are the
  -- component's CPEs and the resolver's answers, none where the PURL is there and not readable. The
  -- CPEs give way to that of one candidate alone, whose confidence meets the threshold and is the
  -- highest of all candidates after they are deduplicated; they stay as they were where no
  -- deduplicated candidate meets the threshold.
  pub enrich_one-IsEnriched :
      (c : ComponentFields)
      → IsEnriched c (enrich_one fmt parse error_text chain t include_rejected c)
  unfolding enrich_one
  enrich_one-IsEnriched c =
      IsWritten-cleared (offered parse chain c) c _ (elim (Bool-cases (c.purl == [])) [
        | inl empty ↦ rw (empty) (write_existing-IsWritten cands cleared)
        | inr full ↦ rw (full) (by_purl (parse c.purl))
      ])
    where
      cleared : ComponentFields
      cleared = record c { properties = clear_cpe_properties c.properties }

      cands : List Candidate
      cands = candidates_from_existing_cpes c.cpes

      by_purl :
          (r : Result PurlError Purl)
          → IsWritten
              (elim r [ err e ↦ [] | ok purl ↦ cands ++ chain purl ])
              cleared
              (elim r [
                | err e ↦ set_prop fmt (own (codes "purl-error")) (error_text e) cleared
                | ok purl ↦ write_if_any fmt t include_rejected (cands ++ chain purl) cleared
              ])
      by_purl (ok purl) = write_if_any-IsWritten (cands ++ chain purl) cleared
      by_purl (err e) = set_prop-IsWritten (codes "purl-error") (error_text e) cleared
