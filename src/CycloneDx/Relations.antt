-- ===== src/CycloneDx/Relations.antt =====
-- internal/sbom/cyclonedx/mapper.go: relationships as dependencies, one for each source.
use mathlib.Core.List.{map-append}
use astinus.Base.{
  ℕ, ◌+◌, ◌≡◌, ◌↔◌, refl, ◌∙◌, sym, ap, inl, inr, Bool, true, ◌&&◌, ◌||◌, List, [], ◌∷◌, ◌++◌, map,
  Text, codes, text_eq, nat_eq, HasEq, ◌==◌, ==_iff, ==_refl, if◌then◌else◌, Bool-cases, count,
  count-append, arith,
}
use astinus.Model.{Relationship}
use astinus.CycloneDx.Wire.{Dependency}

abbrev pub depends_on : Text
depends_on = codes "depends-on"

abbrev pub provides : Text
provides = codes "provides"

abbrev pub related : Text → Text → Text → Relationship
related type source target = record { source_ref = source; target_ref = target; type = type }

abbrev pub relationships_of : Dependency → List Relationship
relationships_of d =
    map (related depends_on d.ref) d.dependencies ++ map (related provides d.ref) d.provides

unfoldable pub relationships_from_cdx : List Dependency → List Relationship
relationships_from_cdx [] = []
relationships_from_cdx (d ∷ deps) = relationships_of d ++ relationships_from_cdx deps

-- The switch of `relationshipsToCDX`.
abbrev pub add_target : Relationship → Dependency → Dependency
add_target r d =
    if r.type == depends_on
    then record d { dependencies = d.dependencies ++ (r.target_ref ∷ []) }
    else if r.type == provides
    then record d { provides = d.provides ++ (r.target_ref ∷ []) }
    else d

abbrev pub new_dependency : Text → Dependency
new_dependency ref = record { ref = ref; dependencies = []; provides = [] }

-- The body of its loop; the sources keep the order of their first relationships.
unfoldable pub put_relationship : Relationship → List Dependency → List Dependency
put_relationship r [] = add_target r (new_dependency r.source_ref) ∷ []
put_relationship r (d ∷ deps) =
    let rest = put_relationship r deps in
    if d.ref == r.source_ref then add_target r d ∷ deps else d ∷ rest

unfoldable pub put_relationships : List Dependency → List Relationship → List Dependency
unfolding put_relationship
put_relationships out [] = out
put_relationships out (r ∷ rs) = put_relationships (put_relationship r out) rs

unfoldable pub relationships_to_cdx : List Relationship → List Dependency
unfolding put_relationships
relationships_to_cdx rs = put_relationships [] rs

abbrev pub same_relationship : Relationship → Relationship → Bool
same_relationship a b =
    a.source_ref == b.source_ref && (a.target_ref == b.target_ref && a.type == b.type)

pub same_relationship_iff : (a b : Relationship) → (same_relationship a b ≡ true) ↔ (a ≡ b)
same_relationship_iff a b = (
  λ h.
      let source : a.source_ref ≡ b.source_ref =
        ground (arith, h, ==_iff a.source_ref b.source_ref) in
      let target : a.target_ref ≡ b.target_ref =
        ground (arith, h, ==_iff a.target_ref b.target_ref) in
      let type : a.type ≡ b.type = ground (arith, h, ==_iff a.type b.type) in
      rw (source, target, type) refl,
  λ e. rw (e) (ground (arith, ==_refl b.source_ref, ==_refl b.target_ref, ==_refl b.type)),
)

instance abbrev pub relationship_eq : HasEq Relationship
relationship_eq = record { equals = same_relationship; equals_iff = same_relationship_iff }

-- CycloneDX has dependencies for this type.
abbrev pub is_expressible : Relationship → Bool
is_expressible r = r.type == depends_on || r.type == provides

abbrev one_if : Bool → ℕ
one_if b = if b then 1 else 0

count-snoc :
    (r : Relationship) (f : Text → Relationship) (t : Text) (ts : List Text)
    → count r (map f (ts ++ (t ∷ []))) ≡ one_if (f t == r) + count r (map f ts)
count-snoc r f t ts =
    ap (count r) (map-append f ts (t ∷ [])) ∙ ground (arith, count-append r (map f ts) (f t ∷ []))

count-add_target :
    (r s : Relationship) (d : Dependency)
    → d.ref ≡ s.source_ref
    → count r (relationships_of (add_target s d))
      ≡ one_if (is_expressible s && s == r) + count r (relationships_of d)
count-add_target r s d e = elim (Bool-cases (s.type == depends_on)) [
  | inl depends ↦
      let same : related depends_on d.ref s.target_ref ≡ s =
        rw (e, sym ((==_iff s.type depends_on).0 depends)) refl in
      let added =
        count-snoc r (related depends_on d.ref) s.target_ref d.dependencies
        ∙ ap (λ x. one_if (x == r) + count r depending) same in
      rw (depends) (
        omega (
          arith,
          added,
          count-append r (map (related depends_on d.ref) (d.dependencies ++ (s.target_ref ∷ [])))
              providing,
          count-append r depending providing,
        ))
  | inr other ↦ elim (Bool-cases (s.type == provides)) [
    | inl provided ↦
        let same : related provides d.ref s.target_ref ≡ s =
          rw (e, sym ((==_iff s.type provides).0 provided)) refl in
        let added =
          count-snoc r (related provides d.ref) s.target_ref d.provides
          ∙ ap (λ x. one_if (x == r) + count r providing) same in
        rw (other, provided)
          (omega (
            arith,
            added,
            count-append r depending
                (map (related provides d.ref) (d.provides ++ (s.target_ref ∷ []))),
            count-append r depending providing,
          ))
    | inr neither ↦ rw (other, neither) (omega arith)
  ]
]
  where
    depending : List Relationship
    depending = map (related depends_on d.ref) d.dependencies

    providing : List Relationship
    providing = map (related provides d.ref) d.provides

count-put_relationship :
    (r s : Relationship) (deps : List Dependency)
    → count r (relationships_from_cdx (put_relationship s deps))
      ≡ one_if (is_expressible s && s == r) + count r (relationships_from_cdx deps)
unfolding put_relationship relationships_from_cdx
count-put_relationship r s [] =
    let new = new_dependency s.source_ref in
    omega (
      arith,
      count-append r (relationships_of (add_target s new)) [],
      count-add_target r s new refl,
    )
count-put_relationship r s (d ∷ deps) = elim (Bool-cases (d.ref == s.source_ref)) [
  | inl same ↦ rw (same) (
      omega (
        arith,
        count-append r (relationships_of (add_target s d)) (relationships_from_cdx deps),
        count-add_target r s d ((==_iff d.ref s.source_ref).0 same),
        count-append r (relationships_of d) (relationships_from_cdx deps),
      ))
  | inr other ↦ rw (other) (
      omega (
        arith,
        count-append r (relationships_of d) (relationships_from_cdx (put_relationship s deps)),
        count-put_relationship r s deps,
        count-append r (relationships_of d) (relationships_from_cdx deps),
      ))
]

count-put_relationships :
    (r : Relationship) (rs : List Relationship) (out : List Dependency)
    → count r (relationships_from_cdx (put_relationships out rs))
      ≡ (if is_expressible r then count r rs else 0) + count r (relationships_from_cdx out)
unfolding put_relationships
count-put_relationships r [] out = ground arith
count-put_relationships r (s ∷ rs) out = ground (
  arith,
  count-put_relationships r rs (put_relationship s out),
  count-put_relationship r s out,
  same_relationship_iff s r,
)

-- A relationship that CycloneDX has a list for is read back as often as it was written; no other is.
pub count-relationships_from_cdx :
    (r : Relationship) (rs : List Relationship)
    → count r (relationships_from_cdx (relationships_to_cdx rs))
      ≡ (if is_expressible r then count r rs else 0)
unfolding relationships_to_cdx relationships_from_cdx
count-relationships_from_cdx r rs = ground (arith, count-put_relationships r rs [])
