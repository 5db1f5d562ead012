-- ===== src/Registry/Merging.antt =====
-- internal/enrich/registry/enricher.go: the loops of mergeLicenses and mergeHashes, which append what is
-- not there yet.
use mathlib.Core.List.{append-nil}
use astinus.Base.{
  ◌≡◌, refl, sym, ◌⊎◌, inl, inr, Bool, true, false, ◌&&◌, ◌||◌, List, [], ◌∷◌, ◌++◌, Text, text_eq,
  ◌==◌, ==_refl, if◌then◌else◌, if_ind, Bool-cases, All, arith,
}
use astinus.Base.Dict.{Dict}
use astinus.Model.{Hash, License}
use astinus.Model.Hashes.{normalize_hash_algorithm}
use astinus.Registry.Resolve.{RegistryLicense}
use astinus.Registry.Growing.{Grows, merge-Grows, merge-IsSettled, merge-same}
use astinus.Registry.Apply.{
  is_same_license, license_present, license_of, add_license, merge_licenses, has_algorithm,
  add_hash, merge_hashes,
}

-- Nothing to add of this license, or it is there by one of its names.
abbrev pub HasLicense : List License → RegistryLicense → Type 0
HasLicense existing l =
    ((l.spdx_id == [] && l.name == []) ≡ true) ⊎ (license_present existing l ≡ true)

license_present-append :
    (xs ys : List License) (l : RegistryLicense)
    → license_present (xs ++ ys) l ≡ (license_present xs l || license_present ys l)
unfolding license_present
license_present-append [] ys l = refl
license_present-append (x ∷ xs) ys l = ground (arith, license_present-append xs ys l)

is_same_license-license_of :
    (l : RegistryLicense)
    → (l.spdx_id == [] && l.name == []) ≡ false
    → is_same_license l (license_of l) ≡ true
is_same_license-license_of l named = ground (arith, ==_refl l.spdx_id, ==_refl l.name)

add_license-HasLicense : (xs : List License) (l : RegistryLicense) → HasLicense (add_license xs l) l
unfolding add_license license_present
add_license-HasLicense xs l = elim (Bool-cases (l.spdx_id == [] && l.name == [])) [
  | inl empty ↦ inl empty
  | inr named ↦ inr (elim (Bool-cases (license_present xs l)) [
    | inl there ↦ rw (named, there) there
    | inr missing ↦
        rw
          (
            named,
            missing,
            license_present-append xs (license_of l ∷ []) l,
            missing,
            is_same_license-license_of l named,
          )
          refl
  ])
]

add_license-Grows : (xs : List License) (l : RegistryLicense) → Grows xs (add_license xs l)
unfolding add_license
add_license-Grows xs l =
    if_ind (Grows xs) (l.spdx_id == [] && l.name == []) ([], sym (append-nil xs))
      (if_ind (Grows xs) (license_present xs l) ([], sym (append-nil xs)) (license_of l ∷ [], refl))

HasLicense-Grows :
    (xs ys : List License) (l : RegistryLicense) → Grows xs ys → HasLicense xs l → HasLicense ys l
HasLicense-Grows xs ys l g (inl empty) = inl empty
HasLicense-Grows xs ys l (more, e) (inr there) =
    inr (rw (e, license_present-append xs more l, there) refl)

add_license-same :
    (xs : List License) (l : RegistryLicense) → HasLicense xs l → add_license xs l ≡ xs
unfolding add_license
add_license-same xs l (inl empty) = rw (empty) refl
add_license-same xs l (inr there) = ground (arith, there)

-- Nothing to add of this hash, or there is one of its algorithm.
abbrev pub HasHash : List Hash → Text × Text → Type 0
HasHash hashes (alg, hex) =
    ((normalize_hash_algorithm alg == [] || hex == []) ≡ true)
    ⊎ (has_algorithm hashes (normalize_hash_algorithm alg) ≡ true)

abbrev pub add_given : List Hash → Text × Text → List Hash
add_given hashes (alg, hex) = add_hash hashes (normalize_hash_algorithm alg) hex

has_algorithm-append :
    (xs ys : List Hash) (alg : Text)
    → has_algorithm (xs ++ ys) alg ≡ (has_algorithm xs alg || has_algorithm ys alg)
unfolding has_algorithm
has_algorithm-append [] ys alg = refl
has_algorithm-append (x ∷ xs) ys alg = ground (arith, has_algorithm-append xs ys alg)

add_given-HasHash : (xs : List Hash) (h : Text × Text) → HasHash (add_given xs h) h
unfolding add_hash has_algorithm
add_given-HasHash xs (given, hex) = by_name (normalize_hash_algorithm given)
  where
    by_name :
        (alg : Text)
        → ((alg == [] || hex == []) ≡ true) ⊎ (has_algorithm (add_hash xs alg hex) alg ≡ true)
    by_name alg = elim (Bool-cases (alg == [] || hex == [])) [
      | inl empty ↦ inl empty
      | inr full ↦ inr (elim (Bool-cases (has_algorithm xs alg)) [
        | inl there ↦ rw (full, there) there
        | inr missing ↦
            rw
              (
                full,
                missing,
                has_algorithm-append xs (record { algorithm = alg; value = hex } ∷ []) alg,
                missing,
                ==_refl alg,
              )
              refl
      ])
    ]

add_given-Grows : (xs : List Hash) (h : Text × Text) → Grows xs (add_given xs h)
unfolding add_hash
add_given-Grows xs (given, hex) =
    if_ind (Grows xs) (normalize_hash_algorithm given == [] || hex == []) ([], sym (append-nil xs))
      (if_ind (Grows xs) (has_algorithm xs (normalize_hash_algorithm given))
        ([], sym (append-nil xs))
        (record { algorithm = normalize_hash_algorithm given; value = hex } ∷ [], refl))

HasHash-Grows : (xs ys : List Hash) (h : Text × Text) → Grows xs ys → HasHash xs h → HasHash ys h
HasHash-Grows xs ys (given, hex) g (inl empty) = inl empty
HasHash-Grows xs ys (given, hex) (more, e) (inr there) =
    inr (rw (e, has_algorithm-append xs more (normalize_hash_algorithm given), there) refl)

add_given-same : (xs : List Hash) (h : Text × Text) → HasHash xs h → add_given xs h ≡ xs
unfolding add_hash
add_given-same xs (given, hex) (inl empty) = rw (empty) refl
add_given-same xs (given, hex) (inr there) =
    by_test (normalize_hash_algorithm given == [] || hex == [])
  where
    by_test :
        (b : Bool)
        → (if b
            then xs
            else if has_algorithm xs (normalize_hash_algorithm given)
            then xs
            else xs ++ (record { algorithm = normalize_hash_algorithm given; value = hex } ∷ []))
          ≡ xs
    by_test true = refl
    by_test false = rw (there) refl

pub merge_licenses-Grows :
    (xs : List License) (ls : List RegistryLicense) → Grows xs (merge_licenses xs ls)
unfolding merge_licenses
merge_licenses-Grows =
    merge-Grows add_license merge_licenses (λ xs. refl) (λ xs b bs. refl) add_license-Grows

pub merge_licenses-HasLicense :
    (xs : List License) (ls : List RegistryLicense) → All (HasLicense (merge_licenses xs ls)) ls
unfolding merge_licenses
merge_licenses-HasLicense =
    merge-IsSettled add_license merge_licenses (λ xs. refl) (λ xs b bs. refl) HasLicense
      (λ xs b c. HasLicense-Grows xs (add_license xs b) c (add_license-Grows xs b))
      add_license-HasLicense

pub merge_licenses_idem :
    (xs : List License) (ls : List RegistryLicense)
    → merge_licenses (merge_licenses xs ls) ls ≡ merge_licenses xs ls
unfolding merge_licenses
merge_licenses_idem xs ls =
    merge-same add_license merge_licenses (λ xs. refl) (λ xs b bs. refl) HasLicense
      (λ xs b c. HasLicense-Grows xs (add_license xs b) c (add_license-Grows xs b)) add_license-same
      (merge_licenses xs ls) ls (merge_licenses-HasLicense xs ls)

pub merge_hashes-Grows : (xs : List Hash) (hs : Dict Text Text) → Grows xs (merge_hashes xs hs)
unfolding merge_hashes
merge_hashes-Grows =
    merge-Grows add_given merge_hashes (λ xs. refl) (λ xs b bs. refl) add_given-Grows

pub merge_hashes-HasHash :
    (xs : List Hash) (hs : Dict Text Text) → All (HasHash (merge_hashes xs hs)) hs
unfolding merge_hashes
merge_hashes-HasHash =
    merge-IsSettled add_given merge_hashes (λ xs. refl) (λ xs b bs. refl) HasHash
      (λ xs b c. HasHash-Grows xs (add_given xs b) c (add_given-Grows xs b)) add_given-HasHash

pub merge_hashes_idem :
    (xs : List Hash) (hs : Dict Text Text)
    → merge_hashes (merge_hashes xs hs) hs ≡ merge_hashes xs hs
unfolding merge_hashes
merge_hashes_idem xs hs =
    merge-same add_given merge_hashes (λ xs. refl) (λ xs b bs. refl) HasHash
      (λ xs b c. HasHash-Grows xs (add_given xs b) c (add_given-Grows xs b)) add_given-same
      (merge_hashes xs hs) hs (merge_hashes-HasHash xs hs)
