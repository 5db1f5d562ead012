-- ===== src/Enrich/Ordering/Laws.antt =====
-- What `TopoSort` promises of its result and of its errors.
use mathlib.Core.List.{Perm}
use mathlib.Core.Path.{subst}
use astinus.Base.{
  ◌≤◌, ◌≡◌, refl, ap, ◌⊎◌, inl, inr, List, [], ◌∷◌, Text, text_eq, nat_eq, ◌==◌, ==_iff,
  if◌then◌else◌, Bool-cases, length, count, Result, ok, err, Result-cases,
}
use astinus.Base.Dict.{Dict}
use astinus.Enrich.Interface.{Enricher}
use astinus.Enrich.Ordering.Index.{index_by_name_error}
use astinus.Enrich.Ordering.Run.{RunsAfter, last, last-RunsAfter, last-perm}
use astinus.Enrich.Ordering.{
  OrderError, duplicate_name, names, index_by_name, cycle_error, topo_sort,
}

module _ {S : Type 0} where
  -- The outcome of a sort whose names are distinct.
  abbrev pub verdict : List (Enricher S) → List (Enricher S) → Result OrderError (List (Enricher S))
  verdict es out = if length out == length es then ok out else err (cycle_error es out)

  -- A sort indexes its input, and then returns by the length of what `kahn` gave.
  pub topo_sort-cases :
      (es : List (Enricher S))
      → ((n : Text) × (topo_sort es ≡ err (duplicate_name n)) × (2 ≤ count n (names es)))
        ⊎ ((by_name : Dict Text (Enricher S)) × (indexed : index_by_name es ≡ ok by_name)
            × (topo_sort es ≡ verdict es (last es by_name indexed).out))
  unfolding topo_sort
  topo_sort-cases [] = inr ([], refl, refl)
  topo_sort-cases (e ∷ es) = elim (Result-cases (index_by_name (e ∷ es))) [
    | inl (by_name, indexed) ↦ inr (by_name, indexed, rw (indexed, topo_sort) refl)
    | inr (error, failed) ↦
        let (n, same, twice) = index_by_name_error (e ∷ es) error failed in
        inl (n, rw (failed, topo_sort) (ap err same), twice)
  ]

  -- A successful sort runs every enricher once, each after those of its dependencies that are in
  -- the list.
  pub topo_sort-RunsAfter :
      (es out : List (Enricher S)) → topo_sort es ≡ ok out → Perm out es × RunsAfter es [] out
  topo_sort-RunsAfter es out h = elim (topo_sort-cases es) [
    | inl (n, failed, twice) ↦ absurd (cc)
    | inr (by_name, indexed, e) ↦
        elim (Bool-cases (length (last es by_name indexed).out == length es)) [
          | inl full ↦
              let same : (last es by_name indexed).out ≡ out = cc (rw full at e) in
              subst (λ l. Perm l es × RunsAfter es [] l) same
                (
                  last-perm es by_name indexed ((==_iff _ _).0 full),
                  last-RunsAfter es by_name indexed,
                )
          | inr part ↦ absurd (cc (rw part at e))
        ]
  ]
