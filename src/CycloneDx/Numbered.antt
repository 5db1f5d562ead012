-- ===== src/CycloneDx/Numbered.antt =====
-- internal/sbom/cyclonedx/mapper.go: further CPEs, each under its number.
use astinus.Base.{
  ℕ, suc, ◌<◌, ◌≡◌, refl, ◌∙◌, ap, inl, inr, true, false, List, [], ◌∷◌, map, none, Text, text_eq,
  nat_eq, ◌==◌, ==_iff, Bool-cases, or_else, contains, arith,
}
use mathlib.Core.List.{append_cancel_left}
use astinus.Base.Dict.{Dict, lookup, lookup-insert}
use astinus.Base.Decimal.{format_nat}
use astinus.Base.Decimal.Atoi.{format_nat_injective}
use astinus.Base.Strings.{cut_prefix}
use astinus.CycloneDx.Bags.{name_of}
use astinus.CycloneDx.Marks.{cpe_prefix, numbered_key, put_cpes, is_cpe_key, values_of}
use astinus.CycloneDx.Values.{IsMap}

-- The CPEs under their numbers.
abbrev pub numbered : ℕ → List Text → Dict Text Text
numbered i [] = []
numbered i (cpe ∷ cpes) = (numbered_key i, cpe) ∷ numbered (suc i) cpes

pub lookup-put_cpes :
    (k : Text) (i : ℕ) (cpes : List Text) (out : Dict Text Text)
    → lookup k (put_cpes i cpes out) ≡ or_else (lookup k (numbered i cpes)) (lookup k out)
unfolding put_cpes lookup
lookup-put_cpes k i [] out = refl
lookup-put_cpes k i (cpe ∷ cpes) out = elim (Bool-cases (numbered_key i == k)) [
  | inl same ↦ lookup-insert (numbered_key i) k cpe (put_cpes (suc i) cpes out) ∙ rw (same) refl
  | inr other ↦
      lookup-insert (numbered_key i) k cpe (put_cpes (suc i) cpes out)
      ∙ rw (other) (lookup-put_cpes k (suc i) cpes out)
]

numbered_key-is_cpe_key : (i : ℕ) → is_cpe_key (numbered_key i) ≡ true
unfolding cut_prefix
numbered_key-is_cpe_key i = refl

pub lookup-numbered_missing :
    (k : Text) (i : ℕ) (cpes : List Text) → is_cpe_key k ≡ false → lookup k (numbered i cpes) ≡ none
unfolding lookup
lookup-numbered_missing k i [] h = refl
lookup-numbered_missing k i (cpe ∷ cpes) h = elim (Bool-cases (numbered_key i == k)) [
  | inl same ↦ absurd (cc (h, numbered_key-is_cpe_key i, (==_iff (numbered_key i) k).0 same))
  | inr other ↦ rw (other) (lookup-numbered_missing k (suc i) cpes h)
]

fresh-numbered :
    (i j : ℕ) (cpes : List Text)
    → i < j
    → contains (map name_of (numbered j cpes)) (numbered_key i) ≡ false
fresh-numbered i j [] h = refl
fresh-numbered i j (cpe ∷ cpes) h = elim (Bool-cases (numbered_key j == numbered_key i)) [
  | inl same ↦
      let e : j ≡ i = format_nat_injective j i (
        append_cancel_left cpe_prefix (format_nat j) (format_nat i)
          ((==_iff (numbered_key j) (numbered_key i)).0 same)) in
      absurd (omega (arith, e))
  | inr other ↦ rw (other) (fresh-numbered i (suc j) cpes (omega arith))
]

pub numbered-IsMap : (i : ℕ) (cpes : List Text) → IsMap (numbered i cpes)
numbered-IsMap i [] = tt
numbered-IsMap i (cpe ∷ cpes) =
    (fresh-numbered i (suc i) cpes (omega arith), numbered-IsMap (suc i) cpes)

pub values_of-numbered : (i : ℕ) (cpes : List Text) → values_of is_cpe_key (numbered i cpes) ≡ cpes
unfolding values_of
values_of-numbered i [] = refl
values_of-numbered i (cpe ∷ cpes) =
    rw (numbered_key-is_cpe_key i) (ap (λ rest. cpe ∷ rest) (values_of-numbered (suc i) cpes))
