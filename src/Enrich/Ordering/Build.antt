-- ===== src/Enrich/Ordering/Build.antt =====
-- What `buildGraph` computes: the degrees and successors of the edges between known enrichers.
use mathlib.Core.List.{append_assoc, append-nil}
use astinus.Base.{
  ◌+◌, ◌≡◌, sym, ◌∙◌, ap, true, inl, inr, List, [], ◌∷◌, ◌++◌, arith, Text, text_eq, ==_iff,
  if◌then◌else◌, Bool-cases,
}
use astinus.Base.Dict.{Dict, lookup}
use astinus.Enrich.Interface.{Enricher}
use astinus.Enrich.Ordering.Graph.{Edges, left, targets, left-append, targets-append}
use astinus.Enrich.Ordering.{
  is_some, DependencyGraph, add_dependency, add_dependencies, build_graph_from, build_graph,
}

module _ {S : Type 0} (by_name : Dict Text (Enricher S)) where
  unfoldable pub edges_of : Text → List Text → Edges
  edges_of name [] = []
  edges_of name (dep ∷ deps) =
      if is_some (lookup dep by_name) then (dep, name) ∷ edges_of name deps else edges_of name deps

  unfoldable pub edges : List (Enricher S) → Edges
  edges [] = []
  edges (e ∷ es) = edges_of e.name e.dependencies ++ edges es

  -- `g'` is `g` with the edges `h` added.
  record Adds (g g' : DependencyGraph) (h : Edges) : Type 0 where
    in_degree : (n : Text) → g'.in_degree n ≡ g.in_degree n + left h [] n
    dependents : (d : Text) → g'.dependents d ≡ g.dependents d ++ targets h d

  Adds-trans :
      {g g' g'' : DependencyGraph} (h h' : Edges)
      → Adds g g' h
      → Adds g' g'' h'
      → Adds g g'' (h ++ h')
  Adds-trans {g} {g'} {g''} h h' a b = record {
    in_degree = λ n. omega (arith, a.in_degree n, b.in_degree n, left-append h h' [] n);
    dependents = λ d.
        b.dependents d
        ∙ ap (λ l. l ++ targets h' d) (a.dependents d)
        ∙ append_assoc (g.dependents d) (targets h d) (targets h' d)
        ∙ ap (λ l. g.dependents d ++ l) (sym (targets-append h h' d));
  }

  Adds-nil : (g : DependencyGraph) → Adds g g []
  unfolding left targets
  Adds-nil g = record {
    in_degree = λ n. omega arith;
    dependents = λ d. sym (append-nil (g.dependents d));
  }

  Adds-known :
      (g : DependencyGraph) (name dep : Text)
      → is_some (lookup dep by_name) ≡ true
      → Adds g (add_dependency by_name name g dep) ((dep, name) ∷ [])
  unfolding left targets add_dependency
  Adds-known g name dep known = rw known (record {
    in_degree = λ n. ground (arith, ==_iff name n);
    dependents = λ d. elim (Bool-cases (text_eq.equals dep d)) [
      | inl same ↦ rw (same, (==_iff dep d).0 same)
      | inr other ↦ rw other (sym (append-nil (g.dependents d)))
    ];
  })

  Adds-dependencies :
      (g : DependencyGraph) (name : Text) (deps : List Text)
      → Adds g (add_dependencies by_name name g deps) (edges_of name deps)
  unfolding edges_of add_dependencies
  Adds-dependencies g name [] = Adds-nil g
  Adds-dependencies g name (dep ∷ deps) = elim (Bool-cases (is_some (lookup dep by_name))) [
    | inl known ↦ rw known (
        Adds-trans ((dep, name) ∷ []) (edges_of name deps)
          (rw (known, add_dependency) at (Adds-known g name dep known))
          (rw (known, add_dependency) at
            (Adds-dependencies (add_dependency by_name name g dep) name deps)))
    | inr unknown ↦ rw unknown (Adds-dependencies g name deps)
  ]

  Adds-build :
      (g : DependencyGraph) (es : List (Enricher S))
      → Adds g (build_graph_from by_name g es) (edges es)
  unfolding edges build_graph_from
  Adds-build g [] = Adds-nil g
  Adds-build g (e ∷ es) =
      Adds-trans (edges_of e.name e.dependencies) (edges es)
        (Adds-dependencies g e.name e.dependencies)
        (Adds-build (add_dependencies by_name e.name g e.dependencies) es)

  pub in_degree-build_graph :
      (es : List (Enricher S)) (n : Text)
      → (build_graph es by_name).in_degree n ≡ left (edges es) [] n
  unfolding build_graph
  in_degree-build_graph es n = omega (arith, (Adds-build _ es).in_degree n)

  pub dependents-build_graph :
      (es : List (Enricher S)) (d : Text)
      → (build_graph es by_name).dependents d ≡ targets (edges es) d
  unfolding build_graph
  dependents-build_graph es d = (Adds-build _ es).dependents d
