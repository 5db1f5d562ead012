-- ===== src/Registry/KeepLaws.antt =====
-- internal/enrich/registry/enricher.go: what applyMetadata fills, what it keeps, and that it fills once.
use astinus.Base.{
  ◌≡◌, ◌≢◌, refl, ◌⊎◌, inl, inr, true, false, ◌&&◌, ◌||◌, not, List, [], ◌∷◌, arith, Text, text_eq,
  nat_eq, ◌==◌, ==_iff, if◌then◌else◌, Bool-cases, All,
}
use astinus.Model.{Hash, License, ComponentFields}
use astinus.Model.Hashes.{normalize_hash_algorithm}
use astinus.Registry.Resolve.{RegistryLicense, Metadata}
use astinus.Validators.Laws.{filled_iff}
use astinus.Registry.Stamps.{IsStamped, stamp_registry_idem, stamp_registry-IsStamped}
use astinus.Registry.Apply.{
  format_supplier, or_given, is_same_license, license_present, merge_licenses, has_algorithm,
  merge_hashes, apply_metadata,
}
use astinus.Registry.Growing.{Grows}
use astinus.Registry.Merging.{
  HasLicense, HasHash, merge_licenses-Grows, merge_licenses-HasLicense, merge_licenses_idem,
  merge_hashes-Grows, merge_hashes-HasHash, merge_hashes_idem,
}

pub or_given_idem : (old new : Text) → or_given (or_given old new) new ≡ or_given old new
or_given_idem [] [] = refl
or_given_idem [] (x ∷ new) = refl
or_given_idem (x ∷ old) new = refl

-- Metadata that was applied to a component changes nothing when it is applied again at the same time:
-- no field, license, hash or property is added or replaced a second time.
pub apply_metadata_idem :
    (now : Text) (meta : Metadata) (c : ComponentFields)
    → apply_metadata now meta (apply_metadata now meta c) ≡ apply_metadata now meta c
unfolding apply_metadata
apply_metadata_idem now meta c =
    let supplier = if meta.supplier.name == [] then [] else format_supplier meta.supplier in
    rw
      (
        or_given_idem c.description meta.description,
        or_given_idem c.author meta.author,
        or_given_idem c.supplier supplier,
        merge_licenses_idem c.licenses meta.licenses,
        merge_hashes_idem c.hashes meta.hashes,
        stamp_registry_idem now c.purl meta c.properties,
      )
      refl

-- The old value where there is one, and the registry's where there is none.
abbrev pub IsFilled : Text → Text → Text → Type 0
IsFilled old given new = (old ≡ [] → new ≡ given) × (¬ (old ≡ []) → new ≡ old)

or_given-IsFilled : (old given : Text) → IsFilled old given (or_given old given)
or_given-IsFilled [] given = (λ h. refl, λ h. absurd (h refl))
or_given-IsFilled (x ∷ old) given = (λ h. absurd (cc h), λ h. refl)

-- The license names the given one: by its identifier, also as an expression, or by its name.
abbrev pub Names : RegistryLicense → License → Type 0
Names l e =
    ((l.spdx_id ≢ []) × ((e.spdx_id ≡ l.spdx_id) ⊎ (e.expression ≡ l.spdx_id)))
    ⊎ ((l.name ≢ []) × (e.name ≡ l.name))

abbrev pub IsNamed : RegistryLicense → List License → Type 0
IsNamed l [] = ⊥
IsNamed l (e ∷ es) = Names l e ⊎ IsNamed l es

is_same_license-Names : (l : RegistryLicense) (e : License) → is_same_license l e ≡ true → Names l e
is_same_license-Names l e h = elim (Bool-cases (l.spdx_id == [])) [
  | inl no_id ↦ by_name (ground (arith, h, no_id))
  | inr id ↦ elim (Bool-cases (e.spdx_id == l.spdx_id)) [
    | inl same ↦ inl ((filled_iff l.spdx_id).0 id, inl ((==_iff e.spdx_id l.spdx_id).0 same))
    | inr other ↦ elim (Bool-cases (e.expression == l.spdx_id)) [
      | inl same ↦ inl ((filled_iff l.spdx_id).0 id, inr ((==_iff e.expression l.spdx_id).0 same))
      | inr other' ↦ by_name (ground (arith, h, other, other'))
    ]
  ]
]
  where
    by_name : (not (l.name == []) && e.name == l.name) ≡ true → Names l e
    by_name k =
        let named : (l.name == []) ≡ false = ground (arith, k) in
        let same : (e.name == l.name) ≡ true = ground (arith, k) in
        inr ((filled_iff l.name).0 named, (==_iff e.name l.name).0 same)

license_present-IsNamed :
    (es : List License) (l : RegistryLicense) → license_present es l ≡ true → IsNamed l es
unfolding license_present
license_present-IsNamed [] l h = absurd (cc h)
license_present-IsNamed (e ∷ es) l h = elim (Bool-cases (is_same_license l e)) [
  | inl same ↦ inl (is_same_license-Names l e same)
  | inr other ↦ inr (license_present-IsNamed es l (rw (other) at h))
]

-- The given license has nothing to name it by, or one of these names it.
abbrev pub IsAnswered : List License → RegistryLicense → Type 0
IsAnswered es l = ((l.spdx_id ≡ []) × (l.name ≡ [])) ⊎ IsNamed l es

HasLicense-IsAnswered :
    (es : List License) (l : RegistryLicense) → HasLicense es l → IsAnswered es l
HasLicense-IsAnswered es l (inl empty) =
    let no_id : (l.spdx_id == []) ≡ true = ground (arith, empty) in
    let no_name : (l.name == []) ≡ true = ground (arith, empty) in
    inl ((==_iff l.spdx_id []).0 no_id, (==_iff l.name []).0 no_name)
HasLicense-IsAnswered es l (inr there) = inr (license_present-IsNamed es l there)

abbrev pub IsHashed : Text → List Hash → Type 0
IsHashed alg [] = ⊥
IsHashed alg (h ∷ hs) = (h.algorithm ≡ alg) ⊎ IsHashed alg hs

has_algorithm-IsHashed :
    (hs : List Hash) (alg : Text) → has_algorithm hs alg ≡ true → IsHashed alg hs
unfolding has_algorithm
has_algorithm-IsHashed [] alg h = absurd (cc h)
has_algorithm-IsHashed (x ∷ hs) alg h = elim (Bool-cases (x.algorithm == alg)) [
  | inl same ↦ inl ((==_iff x.algorithm alg).0 same)
  | inr other ↦ inr (has_algorithm-IsHashed hs alg (rw (other) at h))
]

-- The given hash has no value, or an algorithm whose normal form is empty, or there is a hash of that
-- algorithm.
abbrev pub IsCovered : List Hash → Text × Text → Type 0
IsCovered hs (alg, hex) =
    (hex ≡ []) ⊎ ((normalize_hash_algorithm alg ≡ []) ⊎ IsHashed (normalize_hash_algorithm alg) hs)

HasHash-IsCovered : (hs : List Hash) (h : Text × Text) → HasHash hs h → IsCovered hs h
HasHash-IsCovered hs (given, hex) h = by_name (normalize_hash_algorithm given) h
  where
    by_name :
        (alg : Text)
        → ((alg == [] || hex == []) ≡ true) ⊎ (has_algorithm hs alg ≡ true)
        → (hex ≡ []) ⊎ ((alg ≡ []) ⊎ IsHashed alg hs)
    by_name alg (inr there) = inr (inr (has_algorithm-IsHashed hs alg there))
    by_name alg (inl empty) = elim (Bool-cases (hex == [])) [
      | inl no_hex ↦ inl ((==_iff hex []).0 no_hex)
      | inr filled ↦
          let no_alg : (alg == []) ≡ true = ground (arith, empty, filled) in
          inr (inl ((==_iff alg []).0 no_alg))
    ]

All-of {ℓ} :
    {A : Type ℓ} (P Q : A → Type 0) → ((a : A) → P a → Q a) → (xs : List A) → All P xs → All Q xs
All-of P Q f [] h = tt
All-of P Q f (a ∷ xs) (p, h) = (f a p, All-of P Q f xs h)

-- What applying metadata may do to a component.
abbrev pub IsEnriched : Text → Metadata → ComponentFields → ComponentFields → Type 0
IsEnriched now meta before after =
    IsFilled before.description meta.description after.description
    × IsFilled before.author meta.author after.author
    × IsFilled before.supplier
        (if meta.supplier.name == [] then [] else format_supplier meta.supplier) after.supplier
    × (Grows before.licenses after.licenses × All (IsAnswered after.licenses) meta.licenses)
    × (Grows before.hashes after.hashes × All (IsCovered after.hashes) meta.hashes)
    × IsStamped now before.purl meta before.properties after.properties

-- Applying metadata to a component keeps each of description, author and supplier that is not empty and
-- takes the registry's for one that is; it appends to the licenses and to the hashes, after which every
-- given license with a name or an identifier is named by one of the licenses, by its identifier, also
-- as an expression, or by its name, and every given hash with a value and an algorithm has one of its
-- algorithm among the hashes; it sets the two stamps, keeps the value of every other property that has one, and gives
-- every link of the metadata a value.
pub apply_metadata-IsEnriched :
    (now : Text) (meta : Metadata) (c : ComponentFields)
    → IsEnriched now meta c (apply_metadata now meta c)
unfolding apply_metadata
apply_metadata-IsEnriched now meta c = (
  or_given-IsFilled c.description meta.description,
  or_given-IsFilled c.author meta.author,
  or_given-IsFilled c.supplier
      (if meta.supplier.name == [] then [] else format_supplier meta.supplier),
  (
    merge_licenses-Grows c.licenses meta.licenses,
    All-of (HasLicense merged) (IsAnswered merged) (HasLicense-IsAnswered merged) meta.licenses
        (merge_licenses-HasLicense c.licenses meta.licenses),
  ),
  (
    merge_hashes-Grows c.hashes meta.hashes,
    All-of (HasHash hashed) (IsCovered hashed) (HasHash-IsCovered hashed) meta.hashes
        (merge_hashes-HasHash c.hashes meta.hashes),
  ),
  stamp_registry-IsStamped now c.purl meta c.properties,
)
  where
    merged : List License
    merged = merge_licenses c.licenses meta.licenses

    hashed : List Hash
    hashed = merge_hashes c.hashes meta.hashes
