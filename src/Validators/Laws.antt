-- ===== src/Validators/Laws.antt =====
-- internal/policy/builtin/compliance/ntia.go: when a validator has nothing to say.
use astinus.Base.{
  ℕ, ◌+◌, ◌≡◌, ◌≢◌, ◌<◌, ◌≤◌, refl, ◌↔◌, ◌⊎◌, inl, inr, arith, ==_iff, Bool, true, false, ◌&&◌, not,
  List, [], ◌∷◌, ◌++◌, Text, text_eq, nat_eq, ◌==◌, if◌then◌else◌, Bool-cases, leb, length, All,
}
use astinus.Model.{
  ComponentFields, SubComponents, nil, cons, Component, Tool, Time, is_zero_time, Metadata, Sbom,
}
use astinus.Compliance.{Finding}
use astinus.Validators.{flag, collect_below, collect, skips_files}
use astinus.Validators.Ntia.{
  any_named, has_sbom_author, metadata_findings, relationship_finding, check_component,
  validate_ntia,
}

module _ {ℓ} {A : Type ℓ} where
  abbrev pub IsNil : List A → Type ℓ
  IsNil xs = xs ≡ []

  pub append-IsNil : (xs ys : List A) → IsNil (xs ++ ys) ↔ (IsNil xs × IsNil ys)
  append-IsNil [] ys = (λ h. (refl, h), λ h. h.1)
  append-IsNil (x ∷ xs) ys = (λ h. absurd (cc h), λ h. absurd (cc (h.0)))

pub flag-IsNil : (b : Bool) (f : Finding) → IsNil (flag b f) ↔ (b ≡ false)
flag-IsNil true f = (λ h. absurd (cc h), λ h. absurd (cc h))
flag-IsNil false f = (λ h. refl, λ h. refl)

-- The same where the test is known to be a proposition.
pub flag_iff {κ} : {P : Type κ} (b : Bool) (f : Finding) → (b ≡ false) ↔ P → IsNil (flag b f) ↔ P
flag_iff b f (to, from) = let (g, h) = flag-IsNil b f in (λ e. to (g e), λ p. h (from p))

pub filled_iff : (s : Text) → ((s == []) ≡ false) ↔ (s ≢ [])
filled_iff s = (
  λ h e. absurd (cc (h, (==_iff s []).1 e)),
  λ h. elim (Bool-cases (s == [])) [
    | inl empty ↦ absurd (h ((==_iff s []).0 empty))
    | inr full ↦ full
  ],
)

-- Both directions for two lists that are joined.
pub append_iff {κ μ} :
    {P : Type κ} {Q : Type μ} (xs ys : List Finding)
    → IsNil xs ↔ P
    → IsNil ys ↔ Q
    → IsNil (xs ++ ys) ↔ (P × Q)
append_iff xs ys (f, g) (f', g') = (
  λ h. let (a, b) = (append-IsNil xs ys).0 h in (f a, f' b),
  λ h. (append-IsNil xs ys).1 (g h.0, g' h.1),
)

module _ (skips : ComponentFields → Bool) where
  -- The components that are not passed over, nor stand below one that is.
  unfoldable pub counted_below : SubComponents → List ComponentFields
  counted_below nil = []
  counted_below (cons c below next) =
      let rest = counted_below next in
      let inside = counted_below below in if skips c then rest else c ∷ (inside ++ rest)

  unfoldable pub counted : List Component → List ComponentFields
  unfolding counted_below
  counted [] = []
  counted (c ∷ comps) =
      let rest = counted comps in
      if skips c.fields then rest else c.fields ∷ (counted_below c.sub_components ++ rest)

pub All-append_iff {ℓ κ} :
    {A : Type ℓ} (P : A → Type κ) (xs ys : List A) → (All P xs × All P ys) ↔ All P (xs ++ ys)
All-append_iff P [] ys = (λ h. h.1, λ h. (tt, h))
All-append_iff P (x ∷ xs) ys = (
  λ h. (h.0.0, (All-append_iff P xs ys).0 (h.0.1, h.1)),
  λ h. let (a, b) = (All-append_iff P xs ys).1 h.1 in ((h.0, a), b),
)

iff_trans {ℓ κ μ} : {P : Type ℓ} {Q : Type κ} {R : Type μ} → P ↔ Q → Q ↔ R → P ↔ R
iff_trans (f, g) (f', g') = (λ p. f' (f p), λ r. g (g' r))

module _ (skips : ComponentFields → Bool) (check : ComponentFields → List Finding)
    (P : ComponentFields → Type 0) (clean : (c : ComponentFields) → IsNil (check c) ↔ P c) where
  joined :
      (c : ComponentFields) (inside rest : List Finding) (cs ds : List ComponentFields)
      → IsNil inside ↔ All P cs
      → IsNil rest ↔ All P ds
      → IsNil (check c ++ (inside ++ rest)) ↔ All P (c ∷ (cs ++ ds))
  joined c inside rest cs ds h k =
      append_iff (check c) (inside ++ rest) (clean c)
        (iff_trans (append_iff inside rest h k) (All-append_iff P cs ds))

  collect_below-IsNil :
      (below : SubComponents)
      → IsNil (collect_below skips check below) ↔ All P (counted_below skips below)
  unfolding collect_below counted_below
  collect_below-IsNil nil = (λ h. tt, λ h. refl)
  collect_below-IsNil (cons c below next) = elim (Bool-cases (skips c)) [
    | inl passed ↦ rw (passed) (collect_below-IsNil next)
    | inr here ↦ rw (here) (
        joined c (collect_below skips check below) (collect_below skips check next)
          (counted_below skips below) (counted_below skips next) (collect_below-IsNil below)
          (collect_below-IsNil next))
  ]

  -- The loop finds nothing exactly where no component that counts gives a finding.
  pub collect-IsNil :
      (comps : List Component) → IsNil (collect skips check comps) ↔ All P (counted skips comps)
  unfolding collect counted
  collect-IsNil [] = (λ h. tt, λ h. refl)
  collect-IsNil (c ∷ comps) = elim (Bool-cases (skips c.fields)) [
    | inl passed ↦ rw (passed) (collect-IsNil comps)
    | inr here ↦ rw (here) (
        joined c.fields (collect_below skips check c.sub_components) (collect skips check comps)
          (counted_below skips c.sub_components) (counted skips comps)
          (collect_below-IsNil c.sub_components) (collect-IsNil comps))
  ]

-- Some element of the list has the property.
abbrev pub Some {ℓ} : {A : Type ℓ} → (A → Type 0) → List A → Type 0
Some P [] = ⊥
Some P (x ∷ xs) = P x ⊎ Some P xs

both_filled_iff : (s t : Text) → ((s == [] && t == []) ≡ false) ↔ ((s ≢ []) ⊎ (t ≢ []))
both_filled_iff s t = elim (Bool-cases (s == [])) [
  | inr full ↦ (λ h. inl ((filled_iff s).0 full), λ h. rw (full) refl)
  | inl empty ↦ (
    λ h. inr ((filled_iff t).0 (ground (arith, h, empty))),
    λ h. elim h [
      | inl p ↦ absurd (p ((==_iff s []).0 empty))
      | inr p ↦ rw (empty, (filled_iff t).1 p) refl
    ],
  )
]

true_differs : (b : Bool) → b ≡ true → (b && true) ≡ false → ⊥
true_differs true h e = absurd (cc e)
true_differs false h e = absurd (cc h)

identifier_iff :
    (s : Text) (ts : List Text) → ((s == [] && length ts == 0) ≡ false) ↔ ((s ≢ []) ⊎ (ts ≢ []))
identifier_iff s [] = elim (Bool-cases (s == [])) [
  | inr full ↦ (λ h. inl ((filled_iff s).0 full), λ h. rw (full) refl)
  | inl empty ↦ (
    λ h. absurd (true_differs (s == []) empty h),
    λ h. elim h [ inl p ↦ absurd (p ((==_iff s []).0 empty)) | inr p ↦ absurd (p refl) ],
  )
]
identifier_iff s (t ∷ ts) = (λ h. inr (λ e. absurd (cc e)), λ h. ground arith)

-- A component with a name, a version, a supplier or an author, and a PURL or a list of CPEs.
abbrev pub IsIdentified : ComponentFields → Type 0
IsIdentified c =
    (c.name ≢ [])
    × ((c.version ≢ []) × (((c.supplier ≢ []) ⊎ (c.author ≢ [])) × ((c.purl ≢ []) ⊎ (c.cpes ≢ []))))

check_component-IsNil :
    (quote : Text → Text) (c : ComponentFields) → IsNil (check_component quote c) ↔ IsIdentified c
unfolding check_component
check_component-IsNil quote c = append_iff _ _ (flag_iff (c.name == []) _ (filled_iff c.name)) (
    append_iff _ _ (flag_iff (c.version == []) _ (filled_iff c.version)) (
      append_iff _ _ (flag_iff _ _ (both_filled_iff c.supplier c.author))
        (flag_iff _ _ (identifier_iff c.purl c.cpes))))

any_named_iff : (ts : List Tool) → (not (any_named ts) ≡ false) ↔ Some (λ t. t.name ≢ []) ts
any_named_iff [] = (λ h. absurd (cc h), λ h. absurd h)
any_named_iff (t ∷ ts) = elim (Bool-cases (t.name == [])) [
  | inl empty ↦ rw (empty) (
    λ h. inr ((any_named_iff ts).0 h),
    λ h. elim h [
      | inl p ↦ absurd (p ((==_iff t.name []).0 empty))
      | inr p ↦ (any_named_iff ts).1 p
    ],
  )
  | inr full ↦ rw (full) (λ h. inl ((filled_iff t.name).0 full), λ h. refl)
]

-- The SBOM has an author, or a tool with a name in place of one, and a time.
abbrev pub IsSigned : Sbom → Type 0
IsSigned sbom =
    ((sbom.metadata.authors ≢ []) ⊎ Some (λ t. t.name ≢ []) sbom.metadata.tools)
    × (1 ≤ sbom.metadata.timestamp.seconds + sbom.metadata.timestamp.nanos)

author_iff :
    (m : Metadata)
    → (not (has_sbom_author m) ≡ false) ↔ ((m.authors ≢ []) ⊎ Some (λ t. t.name ≢ []) m.tools)
unfolding has_sbom_author
author_iff m = by_authors m.authors
  where
    by_authors :
        (authors : List Text)
        → (not (if length authors == 0 then any_named m.tools else true) ≡ false)
          ↔ ((authors ≢ []) ⊎ Some (λ t. t.name ≢ []) m.tools)
    by_authors [] = (
      λ h. inr ((any_named_iff m.tools).0 h),
      λ h. elim h [ inl p ↦ absurd (p refl) | inr p ↦ (any_named_iff m.tools).1 p ],
    )
    by_authors (a ∷ authors) =
        let full : (length (a ∷ authors) == 0) ≡ false = ground arith in
        (λ h. inl (λ e. absurd (cc e)), λ h. rw (full) refl)

time_iff : (t : Time) → (is_zero_time t ≡ false) ↔ (1 ≤ t.seconds + t.nanos)
time_iff t = (λ h. ground (arith, h), λ h. ground (arith, h))

pub not_iff : (b : Bool) → (not b ≡ false) ↔ (b ≡ true)
not_iff true = (λ h. refl, λ h. refl)
not_iff false = (λ h. absurd (cc h), λ h. absurd (cc h))

-- Fewer than ten components, or a relationship.
abbrev pub IsRelated : Sbom → Type 0
IsRelated sbom = (length sbom.components < 10) ⊎ (1 ≤ length sbom.relationships)

related_iff : (m n : ℕ) → ((leb 10 m && n == 0) ≡ false) ↔ ((m < 10) ⊎ (1 ≤ n))
related_iff m n = elim (Bool-cases (leb 10 m)) [
  | inr few ↦ (λ h. inl (ground (arith, few)), λ h. rw (few) refl)
  | inl many ↦ (
    λ h. inr (ground (arith, h, many)),
    λ h. elim h [ inl p ↦ absurd (ground (arith, p, many)) | inr p ↦ ground (arith, p, many) ],
  )
]

-- The NTIA validator finds nothing exactly where the SBOM names an author, or a tool with a name in
-- place of one, and has a time, every component that is not a file, nor below one, has a name, a
-- version, a supplier or author, and a PURL or a list of CPEs that is not empty, and ten components
-- or more come with a relationship.
pub validate_ntia-IsNil :
    (quote : Text → Text) (sbom : Sbom)
    → (validate_ntia quote sbom ≡ [])
      ↔ (IsSigned sbom × (All IsIdentified (counted skips_files sbom.components) × IsRelated sbom))
unfolding validate_ntia metadata_findings relationship_finding
validate_ntia-IsNil quote sbom =
    append_iff _ _
      (append_iff _ _ (flag_iff _ _ (author_iff sbom.metadata))
        (flag_iff _ _ (time_iff sbom.metadata.timestamp)))
      (append_iff _ _
        (collect-IsNil skips_files (check_component quote) IsIdentified
          (check_component-IsNil quote) sbom.components)
        (flag_iff _ _ (related_iff (length sbom.components) (length sbom.relationships))))
