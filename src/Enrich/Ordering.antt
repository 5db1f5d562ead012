-- ===== src/Enrich/Ordering.antt =====
-- internal/enrich/ordering.go: the topological sort that fixes the pipeline's order.
-- A `map[string]int` whose missing keys read 0 is a function into ℕ, and so is the map of slices
-- whose missing keys read nil. The input-order stamp of `indexByName` is never read and is left out.
pub mod Graph
pub mod Build
pub mod Index
mod Listed
pub mod Run
pub mod Retire
pub mod Loop
pub mod Laws
pub mod Cycles
mod Tests
use astinus.Base.{
  ℕ, zero, suc, ◌+◌, ◌-◌, Bool, true, false, not, List, [], ◌∷◌, ◌++◌, map, Option, none, some,
  Text, text_eq, nat_eq, ◌==◌, if◌then◌else◌, length, keep, contains, Result, ok, err, ◌>>=◌,
}
use astinus.Base.Dict.{Dict, lookup, insert}
use astinus.Enrich.Interface.{Enricher}

pub data OrderError : Type 0 where
  duplicate_name : Text → OrderError
  cyclic_dependency : List Text → OrderError

abbrev pub is_some {ℓ} : {A : Type ℓ} → Option A → Bool
is_some none = false
is_some (some a) = true

-- `m[k] = v` on a map that is a function.
abbrev pub update {ℓ} : {V : Type ℓ} → (Text → V) → Text → V → Text → V
update f k v j = if k == j then v else f j

pub record DependencyGraph : Type 0 where
  pub in_degree : Text → ℕ
  pub dependents : Text → List Text

pub record KahnState (S : Type 0) : Type 0 where
  pub queue : List (Enricher S)
  pub out : List (Enricher S)
  pub in_degree : Text → ℕ

module _ {S : Type 0} where
  abbrev pub names : List (Enricher S) → List Text
  names = map (λ e. e.name)

  unfoldable pub index_by_name_from :
      Dict Text (Enricher S) → List (Enricher S) → Result OrderError (Dict Text (Enricher S))
  index_by_name_from by_name [] = ok by_name
  index_by_name_from by_name (e ∷ es) =
      let rest = index_by_name_from (insert e.name e by_name) es in
      if is_some (lookup e.name by_name) then err (duplicate_name e.name) else rest

  unfoldable pub index_by_name : List (Enricher S) → Result OrderError (Dict Text (Enricher S))
  unfolding index_by_name_from
  index_by_name es = index_by_name_from [] es

  -- The body of the inner loop of `buildGraph`; an unknown dependency is dropped.
  unfoldable pub add_dependency :
      Dict Text (Enricher S) → Text → DependencyGraph → Text → DependencyGraph
  add_dependency by_name name g dep =
      if is_some (lookup dep by_name)
      then record {
        in_degree = update g.in_degree name (g.in_degree name + 1);
        dependents = update g.dependents dep (g.dependents dep ++ name ∷ []);
      }
      else g

  unfoldable pub add_dependencies :
      Dict Text (Enricher S) → Text → DependencyGraph → List Text → DependencyGraph
  unfolding add_dependency
  add_dependencies by_name name g [] = g
  add_dependencies by_name name g (dep ∷ deps) =
      add_dependencies by_name name (add_dependency by_name name g dep) deps

  unfoldable pub build_graph_from :
      Dict Text (Enricher S) → DependencyGraph → List (Enricher S) → DependencyGraph
  unfolding add_dependencies
  build_graph_from by_name g [] = g
  build_graph_from by_name g (e ∷ es) =
      build_graph_from by_name (add_dependencies by_name e.name g e.dependencies) es

  unfoldable pub build_graph : List (Enricher S) → Dict Text (Enricher S) → DependencyGraph
  unfolding build_graph_from
  build_graph es by_name =
      build_graph_from by_name (record { in_degree = λ _. 0; dependents = λ _. [] }) es

  -- The search `for _, e := range enrichers { if e.Name() == name … break }`.
  unfoldable pub find : List (Enricher S) → Text → Option (Enricher S)
  find [] name = none
  find (e ∷ es) name = if e.name == name then some e else find es name

  abbrev pub append_found : List (Enricher S) → Option (Enricher S) → List (Enricher S)
  append_found queue none = queue
  append_found queue (some e) = queue ++ e ∷ []

  -- One round of the loop over `dependents[head.Name()]`. A degree is positive when it is
  -- decremented (`degree-Covers`), so the subtraction on ℕ is the source's.
  unfoldable pub decrement : List (Enricher S) → KahnState S → Text → KahnState S
  unfolding find
  decrement es s name =
      let degree = s.in_degree name - 1 in
      record {
        queue = if degree == 0 then append_found s.queue (find es name) else s.queue;
        out = s.out;
        in_degree = update s.in_degree name degree;
      }

  unfoldable pub decrement_all : List (Enricher S) → KahnState S → List Text → KahnState S
  unfolding decrement
  decrement_all es s [] = s
  decrement_all es s (name ∷ ns) = decrement_all es (decrement es s name) ns

  -- `for len(queue) > 0`, on fuel.
  unfoldable pub kahn_loop : List (Enricher S) → (Text → List Text) → ℕ → KahnState S → KahnState S
  unfolding decrement_all
  kahn_loop es dependents zero s = s
  kahn_loop es dependents (suc fuel) s = elim s.queue [
    | [] ↦ s
    | head ∷ queue ↦ kahn_loop es dependents fuel (
        decrement_all es
          (record { queue = queue; out = s.out ++ head ∷ []; in_degree = s.in_degree })
          (dependents head.name))
  ]

  -- The state in which the loop of `kahn` ends; its `out` is what `kahn` returns.
  unfoldable pub kahn : List (Enricher S) → DependencyGraph → KahnState S
  unfolding kahn_loop
  kahn es g =
      kahn_loop es g.dependents (suc (length es)) (record {
        queue = keep (λ e. g.in_degree e.name == 0) es;
        out = [];
        in_degree = g.in_degree;
      })

  -- The names that `cycleError` lists.
  unfoldable pub cycle_error : List (Enricher S) → List (Enricher S) → OrderError
  cycle_error es out = cyclic_dependency (names (keep (λ e. not (contains (names out) e.name)) es))

  unfoldable pub topo_sort : List (Enricher S) → Result OrderError (List (Enricher S))
  unfolding index_by_name build_graph kahn cycle_error
  topo_sort [] = ok []
  topo_sort (e ∷ es) = do
    by_name ← index_by_name (e ∷ es)
    let out = (kahn (e ∷ es) (build_graph (e ∷ es) by_name)).out
    if length out == length (e ∷ es) then ok out else err (cycle_error (e ∷ es) out)
