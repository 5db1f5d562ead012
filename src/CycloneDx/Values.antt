-- ===== src/CycloneDx/Values.antt =====
-- internal/sbom/cyclonedx/mapper.go: maps that agree on some keys have the same values there.
use astinus.Base.{
  ◌+◌, ◌≡◌, refl, ◌∙◌, sym, ap, inl, inr, Bool, true, false, [], ◌∷◌, map, Option, none, some, Text,
  text_eq, nat_eq, ◌==◌, ==_iff, ==_refl, if◌then◌else◌, Bool-cases, contains, count, Distinct,
  arith,
}
use mathlib.Core.Path.{subst}
use mathlib.Core.Option.{some-injective}
use astinus.Base.Dict.{Dict, lookup, insert, erase, lookup-erase}
use astinus.CycloneDx.Bags.{name_of, is_there, put_all, props_from_cdx, contains-names}
use astinus.CycloneDx.Wire.{CdxProperties}
use astinus.CycloneDx.Marks.{values_of, without}

-- No key stands twice, as in every Go map.
abbrev pub IsMap : Dict Text Text → Type 0
IsMap d = Distinct (map name_of d)

contains-insert :
    (k v j : Text) (d : Dict Text Text)
    → contains (map name_of (insert k v d)) j
      ≡ (if k == j then true else contains (map name_of d) j)
unfolding insert
contains-insert k v j [] = ground arith
contains-insert k v j ((i, w) ∷ d) =
    ground (arith, ==_iff i k, ==_iff i j, ==_iff k j, contains-insert k v j d)

pub insert-IsMap : (k v : Text) (d : Dict Text Text) → IsMap d → IsMap (insert k v d)
unfolding insert
insert-IsMap k v [] h = (refl, tt)
insert-IsMap k v ((j, w) ∷ d) (fresh, h) = elim (Bool-cases (j == k)) [
  | inl same ↦
      rw (same) (subst (λ i. contains (map name_of d) i ≡ false) ((==_iff j k).0 same) fresh, h)
  | inr other ↦
      let differ : (k == j) ≡ false = ground (arith, ==_iff j k, ==_iff k j, other) in
      rw (other) (contains-insert k v j d ∙ rw (differ) fresh, insert-IsMap k v d h)
]

put_all-IsMap :
    (props : CdxProperties) (out : Dict Text Text) → IsMap out → IsMap (put_all out props)
unfolding put_all
put_all-IsMap [] out h = h
put_all-IsMap ((k, v) ∷ props) out h = put_all-IsMap props (insert k v out) (insert-IsMap k v out h)

pub props_from_cdx-IsMap : (props : CdxProperties) → IsMap (props_from_cdx props)
unfolding props_from_cdx
props_from_cdx-IsMap props = put_all-IsMap props [] tt

erase-absent : (k : Text) (d : Dict Text Text) → contains (map name_of d) k ≡ false → erase k d ≡ d
unfolding erase
erase-absent k [] h = refl
erase-absent k ((j, w) ∷ d) h = elim (Bool-cases (j == k)) [
  | inl same ↦ absurd (cc (rw (same) at h))
  | inr other ↦ rw (other, erase-absent k d (rw (other) at h)) refl
]

contains-erase :
    (k j : Text) (d : Dict Text Text)
    → contains (map name_of d) j ≡ false
    → contains (map name_of (erase k d)) j ≡ false
unfolding erase
contains-erase k j [] h = refl
contains-erase k j ((i, w) ∷ d) h = ground (arith, contains-erase k j d)

pub erase-IsMap : (k : Text) (d : Dict Text Text) → IsMap d → IsMap (erase k d)
unfolding erase
erase-IsMap k [] h = tt
erase-IsMap k ((j, w) ∷ d) (fresh, h) = elim (Bool-cases (j == k)) [
  | inl same ↦ rw (same) (erase-IsMap k d h)
  | inr other ↦ rw (other) (contains-erase k j d fresh, erase-IsMap k d h)
]

absent : (k : Text) (d : Dict Text Text) → contains (map name_of d) k ≡ false → lookup k d ≡ none
absent k d h = from_entry (lookup k d) (sym (contains-names k d) ∙ h)
  where
    from_entry : (o : Option Text) → is_there o ≡ false → o ≡ none
    from_entry none e = refl
    from_entry (some v) e = absurd (cc e)

module _ (p : Text → Bool) where
  values_of-nil :
      (d : Dict Text Text) → ((k : Text) → p k ≡ true → lookup k d ≡ none) → values_of p d ≡ []
  unfolding values_of lookup
  values_of-nil [] none_there = refl
  values_of-nil ((j, v) ∷ d) none_there = elim (Bool-cases (p j)) [
    | inl passes ↦ absurd (cc (none_there j passes, ==_refl j))
    | inr fails ↦ rw (fails) (values_of-nil d (rest fails))
  ]
    where
      rest : p j ≡ false → (k : Text) → p k ≡ true → lookup k d ≡ none
      rest fails k passes = elim (Bool-cases (j == k)) [
        | inl same ↦ absurd (cc (fails, passes, (==_iff j k).0 same))
        | inr other ↦ rw (other) at (none_there k passes)
      ]

  count-values_of :
      (x k v : Text) (d : Dict Text Text)
      → IsMap d
      → p k ≡ true
      → lookup k d ≡ some v
      → count x (values_of p d) ≡ (if v == x then 1 else 0) + count x (values_of p (erase k d))
  unfolding values_of lookup erase
  count-values_of x k v [] h passes there = absurd (cc there)
  count-values_of x k v ((j, w) ∷ d) (fresh, h) passes there = elim (Bool-cases (j == k)) [
    | inl same ↦
        let here : j ≡ k = (==_iff j k).0 same in
        let passes' : p j ≡ true = cc (passes, here) in
        let value : w ≡ v = some-injective w v (rw (same) at there) in
        let gone : erase k d ≡ d =
          erase-absent k d (subst (λ i. contains (map name_of d) i ≡ false) here fresh) in
        rw (same, passes', gone, value) (ground arith)
    | inr other ↦
        let ih = count-values_of x k v d h passes (rw (other) at there) in
        rw (other) (ground (arith, ih))
  ]

  -- Maps that agree on the keys that pass have the same values under them, in whatever order.
  pub values_of-same :
      (x : Text) (d e : Dict Text Text)
      → IsMap d
      → IsMap e
      → ((k : Text) → p k ≡ true → lookup k d ≡ lookup k e)
      → count x (values_of p d) ≡ count x (values_of p e)
  unfolding values_of lookup
  values_of-same x [] e hd he agree =
      ap (count x) (sym (values_of-nil e (λ k passes. sym (agree k passes))))
  values_of-same x ((k, v) ∷ d) e (fresh, hd) he agree = elim (Bool-cases (p k)) [
    | inl passes ↦
        let there : lookup k e ≡ some v = sym (agree k passes) ∙ rw (==_refl k) refl in
        let ih =
          values_of-same x d (erase k e) hd (erase-IsMap k e he)
            (λ j passes_j. erased j (agree j passes_j)) in
        rw (passes) (ground (arith, ih, count-values_of x k v e he passes there))
    | inr fails ↦
        rw (fails)
          (values_of-same x d e hd he (λ j passes_j. kept j fails passes_j (agree j passes_j)))
  ]
    where
      erased : (j : Text) → lookup j ((k, v) ∷ d) ≡ lookup j e → lookup j d ≡ lookup j (erase k e)
      erased j same = elim (Bool-cases (k == j)) [
        | inl here ↦
            subst (λ i. lookup i d ≡ none) ((==_iff k j).0 here) (absent k d fresh)
            ∙ sym (lookup-erase k j e ∙ rw (here) refl)
        | inr other ↦ rw (other) at same ∙ sym (lookup-erase k j e ∙ rw (other) refl)
      ]

      kept :
          (j : Text)
          → p k ≡ false
          → p j ≡ true
          → lookup j ((k, v) ∷ d) ≡ lookup j e
          → lookup j d ≡ lookup j e
      kept j fails passes same = elim (Bool-cases (k == j)) [
        | inl here ↦ absurd (cc (fails, passes, (==_iff k j).0 here))
        | inr other ↦ rw (other) at same
      ]

  pub lookup-without :
      (k : Text) (d : Dict Text Text) → lookup k (without p d) ≡ (if p k then none else lookup k d)
  unfolding without lookup
  lookup-without k [] = ground arith
  lookup-without k ((j, v) ∷ d) = ground (arith, ==_iff j k, lookup-without k d)
