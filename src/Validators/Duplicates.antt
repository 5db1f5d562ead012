-- ===== src/Validators/Duplicates.antt =====
-- internal/policy/builtin/compliance/cyclonedx_structural.go: when the CycloneDX validator has nothing to say.
use mathlib.Core.Path.{subst}
use astinus.Base.{
  ◌≡◌, ◌≢◌, refl, ◌↔◌, inl, inr, true, false, not, List, [], ◌∷◌, arith, Text, codes, text_eq,
  nat_eq, ◌==◌, ==_iff, if◌then◌else◌, Bool-cases, length, contains, All, Distinct,
}
use astinus.Model.{ComponentFields, Sbom}
use astinus.Model.Walk.{all_components}
use astinus.Validators.{skips_none}
use astinus.Validators.Structural.{
  component_types, is_recognised_component_type, cdx_top_level_findings, check_cdx,
  bom_ref_duplicates, validate_cdx,
}
use astinus.Validators.Laws.{
  IsNil, flag-IsNil, flag_iff, filled_iff, not_iff, append_iff, counted, collect-IsNil,
}

-- The references that are not empty.
abbrev pub refs_of : List ComponentFields → List Text
refs_of [] = []
refs_of (c ∷ cs) = let rest = refs_of cs in if c.bom_ref == [] then rest else c.bom_ref ∷ rest

-- None of them was seen.
abbrev pub AreFresh : List Text → List Text → Type 0
AreFresh seen refs = All (λ r. contains seen r ≡ false) refs

AreFresh-cons :
    (ref : Text) (seen refs : List Text)
    → AreFresh (ref ∷ seen) refs ↔ ((contains refs ref ≡ false) × AreFresh seen refs)
AreFresh-cons ref seen [] = (λ h. (refl, tt), λ h. tt)
AreFresh-cons ref seen (r ∷ refs) = (
  λ h.
      let (missing, fresh) = (AreFresh-cons ref seen refs).0 h.1 in
      (ground (arith, h.0, missing, ==_iff ref r, ==_iff r ref), (ground (arith, h.0), fresh)),
  λ h. (
    ground (arith, h.0, h.1.0, ==_iff ref r, ==_iff r ref),
    (AreFresh-cons ref seen refs).1 (ground (arith, h.0), h.1.1),
  ),
)

bom_ref_duplicates-IsNil :
    (quote : Text → Text) (cs : List ComponentFields) (seen : List Text)
    → IsNil (bom_ref_duplicates quote seen cs)
      ↔ (Distinct (refs_of cs) × AreFresh seen (refs_of cs))
unfolding bom_ref_duplicates
bom_ref_duplicates-IsNil quote [] seen = (λ h. (tt, tt), λ h. refl)
bom_ref_duplicates-IsNil quote (c ∷ cs) seen = elim (Bool-cases (c.bom_ref == [])) [
  | inl empty ↦ rw (empty) (bom_ref_duplicates-IsNil quote cs seen)
  | inr full ↦ elim (Bool-cases (contains seen c.bom_ref)) [
    | inl known ↦ rw (full, known) (λ h. absurd (cc h), λ h. absurd (cc (h.1.0)))
    | inr new ↦
        let (f, g) = bom_ref_duplicates-IsNil quote cs (c.bom_ref ∷ seen) in
        let (to, from) = AreFresh-cons c.bom_ref seen (refs_of cs) in
        rw (full, new)
          (
            λ h.
                let (d, fresh) = f h in
                let (missing, old) = to fresh in ((missing, d), (refl, old)),
            λ h. g (h.0.1, from (h.0.0, h.1.1)),
          )
  ]
]

-- One of the ten types, each written out.
pub data IsComponentType : Text → Type 0 where
  application : IsComponentType (codes "application")
  container : IsComponentType (codes "container")
  device : IsComponentType (codes "device")
  file : IsComponentType (codes "file")
  firmware : IsComponentType (codes "firmware")
  framework : IsComponentType (codes "framework")
  library : IsComponentType (codes "library")
  operating_system : IsComponentType (codes "operating-system")
  platform : IsComponentType (codes "platform")
  unknown : IsComponentType (codes "unknown")

is_recognised_component_type-IsComponentType :
    (t : Text) → IsComponentType t → not (is_recognised_component_type t) ≡ false
is_recognised_component_type-IsComponentType _ application = refl
is_recognised_component_type-IsComponentType _ container = refl
is_recognised_component_type-IsComponentType _ device = refl
is_recognised_component_type-IsComponentType _ file = refl
is_recognised_component_type-IsComponentType _ firmware = refl
is_recognised_component_type-IsComponentType _ framework = refl
is_recognised_component_type-IsComponentType _ library = refl
is_recognised_component_type-IsComponentType _ operating_system = refl
is_recognised_component_type-IsComponentType _ platform = refl
is_recognised_component_type-IsComponentType _ unknown = refl

-- What holds of each text of a list holds of each text that the list contains.
contains-All :
    (P : Text → Type 0) (ts : List Text) (t : Text) → All P ts → contains ts t ≡ true → P t
contains-All P [] t h c = absurd (cc c)
contains-All P (x ∷ xs) t (p, h) c = elim (Bool-cases (x == t)) [
  | inl same ↦ subst P ((==_iff x t).0 same) p
  | inr other ↦ contains-All P xs t h (ground (arith, c, other))
]

IsComponentType-all : All IsComponentType component_types
IsComponentType-all = (
  application,
  (
    container,
    (
      device,
      (file, (firmware, (framework, (library, (operating_system, (platform, (unknown, tt))))))),
    ),
  ),
)

-- A component with a name and one of the ten types.
abbrev pub IsTyped : ComponentFields → Type 0
IsTyped c = (c.name ≢ []) × IsComponentType c.type

type_iff : (t : Text) → (not (is_recognised_component_type t) ≡ false) ↔ IsComponentType t
type_iff t = (
  λ h.
      contains-All IsComponentType component_types t IsComponentType-all
        ((not_iff (is_recognised_component_type t)).0 h),
  is_recognised_component_type-IsComponentType t,
)

check_cdx-IsNil :
    (quote : Text → Text) (c : ComponentFields) → IsNil (check_cdx quote c) ↔ IsTyped c
unfolding check_cdx
check_cdx-IsNil quote c =
    append_iff _ _ (flag_iff (c.name == []) _ (filled_iff c.name))
      (flag_iff (not (is_recognised_component_type c.type)) _ (type_iff c.type))

-- The CycloneDX validator finds nothing exactly where there is a component, each component at any
-- depth has a name and one of the ten types application, container, device, file, firmware,
-- framework, library, operating-system, platform and unknown, and no two of them share a reference
-- that is not empty.
pub validate_cdx-IsNil :
    (quote : Text → Text) (sbom : Sbom)
    → (validate_cdx quote sbom ≡ []) ↔ (
        ((length sbom.components == 0) ≡ false)
        × (All IsTyped (counted skips_none sbom.components)
            × (Distinct (refs_of (all_components sbom.components))
                × AreFresh [] (refs_of (all_components sbom.components)))))
unfolding validate_cdx cdx_top_level_findings
validate_cdx-IsNil quote sbom = append_iff _ _ (flag-IsNil (length sbom.components == 0) _) (
    append_iff _ _
      (collect-IsNil skips_none (check_cdx quote) IsTyped (check_cdx-IsNil quote) sbom.components)
      (bom_ref_duplicates-IsNil quote (all_components sbom.components) []))
