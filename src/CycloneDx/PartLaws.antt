-- ===== src/CycloneDx/PartLaws.antt =====
-- internal/sbom/cyclonedx/mapper.go: types, hashes, licenses and evidence that are written and read again.
use astinus.Base.{
  ℕ, ◌≡◌, refl, ◌∙◌, sym, ap, ◌⊎◌, inl, inr, true, false, ◌&&◌, not, List, [], ◌∷◌, map, keep,
  Option, none, some, Text, codes, text_eq, nat_eq, ◌==◌, ==_iff, if◌then◌else◌, Bool-cases,
  contains, All, arith,
}
use astinus.Model.{Hash, License, EvidenceLocation, Evidence}
use astinus.Model.Hashes.{normalize_hash_algorithm}
use astinus.CycloneDx.Parts.{
  component_type_map, unknown_type, map_component_type_from_cdx, to_cdx_hash_name, hashes_from_cdx,
  hashes_to_cdx, is_empty_license, license_from_cdx, licenses_from_cdx, license_to_cdx,
  licenses_to_cdx, is_zero, location_at, read_evidence, evidence_from_cdx, identity_of,
  evidence_to_cdx,
}

-- One of the types of the map, or the unknown one.
abbrev pub IsType : Text → Type 0
IsType t = (contains component_type_map t ≡ true) ⊎ (t ≡ unknown_type)

pub map_component_type_from_cdx_known : (t : Text) → IsType t → map_component_type_from_cdx t ≡ t
unfolding map_component_type_from_cdx
map_component_type_from_cdx_known t (inl known) = rw (known) refl
map_component_type_from_cdx_known t (inr e) = rw (e) refl

choice-normalize :
    (s k w rest : Text)
    → normalize_hash_algorithm w ≡ k
    → normalize_hash_algorithm rest ≡ s
    → normalize_hash_algorithm (if s == k then w else rest) ≡ s
choice-normalize s k w rest here there = elim (Bool-cases (s == k)) [
  | inl same ↦ rw (same) (here ∙ sym ((==_iff s k).0 same))
  | inr other ↦ rw (other) there
]

pub normalize-to_cdx_hash_name :
    (s : Text) → normalize_hash_algorithm s ≡ s → normalize_hash_algorithm (to_cdx_hash_name s) ≡ s
unfolding to_cdx_hash_name normalize_hash_algorithm
normalize-to_cdx_hash_name s h = choice-normalize s (codes "md5") _ _ refl (
    choice-normalize s (codes "sha1") _ _ refl (
      choice-normalize s (codes "sha256") _ _ refl (
        choice-normalize s (codes "sha384") _ _ refl (
          choice-normalize s (codes "sha512") _ _ refl (
            choice-normalize s (codes "blake2b-256") _ _ refl (
              choice-normalize s (codes "blake2b-512") _ _ refl (
                choice-normalize s (codes "blake3") _ _ refl
                  (choice-normalize s (codes "swhid") _ _ refl h))))))))

-- The algorithm is spelled the canonical way.
abbrev pub IsHash : Hash → Type 0
IsHash h = normalize_hash_algorithm h.algorithm ≡ h.algorithm

pub hashes_from_cdx-to :
    (hashes : List Hash) → All IsHash hashes → hashes_from_cdx (hashes_to_cdx hashes) ≡ hashes
unfolding hashes_from_cdx hashes_to_cdx
hashes_from_cdx-to [] h = refl
hashes_from_cdx-to (x ∷ hashes) (h, hs) =
    rw (normalize-to_cdx_hash_name x.algorithm h) (ap (λ l. x ∷ l) (hashes_from_cdx-to hashes hs))

-- A license that says something, and only as an expression or only by its other fields.
abbrev pub IsLicense : License → Type 0
IsLicense l =
    (is_empty_license l ≡ false)
    × ((l.expression ≡ []) ⊎ ((l.spdx_id ≡ []) × (l.name ≡ []) × (l.url ≡ [])))

only_expression :
    (e : Text) (l : License)
    → l ≡ record { spdx_id = []; name = []; expression = e; url = [] }
    → is_empty_license l ≡ false
    → license_from_cdx (license_to_cdx l) ≡ (l ∷ [])
only_expression [] l same full = absurd (cc (full, ap is_empty_license same))
only_expression (c ∷ e) l same full = rw (same) refl

license_from_cdx-to : (l : License) → IsLicense l → license_from_cdx (license_to_cdx l) ≡ (l ∷ [])
license_from_cdx-to l (full, inl e) = rw (e) (rw (rw (e) at full) refl)
license_from_cdx-to l (full, inr (a, b, c)) =
    only_expression l.expression l (rw (a, b, c) refl) full

pub licenses_from_cdx-to :
    (licenses : List License)
    → All IsLicense licenses
    → licenses_from_cdx (licenses_to_cdx licenses) ≡ licenses
unfolding licenses_from_cdx licenses_to_cdx
licenses_from_cdx-to [] h = refl
licenses_from_cdx-to (l ∷ licenses) (h, hs) =
    rw (h.0, licenses_from_cdx, license_from_cdx-to l h)
      (ap (λ rest. l ∷ rest) (licenses_from_cdx-to licenses hs))

-- Evidence that says something, with places that have a path and no line.
abbrev pub IsLocation : EvidenceLocation → Type 0
IsLocation l = ((l.path == []) ≡ false) × (l.line_no ≡ 0)

locations-to :
    (locations : List EvidenceLocation)
    → All IsLocation locations
    → map location_at (keep (λ path. not (path == [])) (map (λ l. l.path) locations)) ≡ locations
locations-to [] h = refl
locations-to (l ∷ locations) ((full, line), hs) =
    let same : location_at l.path ≡ l = rw (line) refl in
    rw (full) (cc (same, locations-to locations hs))

module _ (narrow : ℕ → ℕ) where
  -- No evidence, or some that says something, has a confidence that `float32` keeps, and places with a
  -- path and without a line.
  abbrev pub IsEvidence : Option Evidence → Type 0
  IsEvidence none = Unit
  IsEvidence (some e) =
      (is_zero e ≡ false) × (narrow e.confidence ≡ e.confidence) × All IsLocation e.locations

  read_evidence-to :
      (e : Evidence)
      → narrow e.confidence ≡ e.confidence
      → All IsLocation e.locations
      → read_evidence
          (record { identity = identity_of narrow e; occurrences = map (λ l. l.path) e.locations })
        ≡ e
  read_evidence-to e exact places = elim (Bool-cases (e.method == [] && e.confidence == 0)) [
    | inl nothing ↦
        let no_method : e.method ≡ [] = ground (arith, ==_iff e.method [], nothing) in
        let no_confidence : e.confidence ≡ 0 = ground (arith, nothing) in
        rw (nothing, no_method, no_confidence, locations-to e.locations places) refl
    | inr something ↦ rw (something, exact, locations-to e.locations places) refl
  ]

  pub evidence_from_cdx-to :
      (o : Option Evidence) → IsEvidence o → evidence_from_cdx (evidence_to_cdx narrow o) ≡ o
  unfolding evidence_from_cdx evidence_to_cdx
  evidence_from_cdx-to none h = refl
  evidence_from_cdx-to (some e) (full, exact, places) =
      let back : (if is_zero e then none else some e) ≡ some e = rw (full) refl in
      rw (full)
        (ap (λ r. if is_zero r then none else some r) (read_evidence-to e exact places) ∙ back)
