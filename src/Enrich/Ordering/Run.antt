-- ===== src/Enrich/Ordering/Run.antt =====
-- One run of `kahn` over the graph of distinct enrichers: its invariant, and that it reaches its end.
use mathlib.Core.List.{Perm}
use astinus.Base.{
  suc, ◌≤◌, ◌≡◌, ◌∙◌, true, List, [], ◌∷◌, ◌++◌, arith, Text, text_eq, nat_eq, ◌==◌, length,
  length-map, keep, contains, count, count_of_contains, count_of_not-contains, count-eq_of_length,
  All, ok,
}
use astinus.Base.Dict.{Dict}
use astinus.Enrich.Interface.{Enricher}
use astinus.Enrich.Ordering.Build.{edges, in_degree-build_graph, dependents-build_graph}
use astinus.Enrich.Ordering.Index.{
  keys-index_by_name, IsDistinct-index_by_name, edges-target, Waits, Waits-edges,
}
use astinus.Enrich.Ordering.Listed.{All-IsListed, count-keep, All-keep, perm_of_names}
use astinus.Enrich.Ordering.Retire.{IsListed}
use astinus.Enrich.Ordering.Loop.{Ordered, Inv, loop-Inv}
use astinus.Enrich.Ordering.{KahnState, names, index_by_name, build_graph, kahn}

module _ {S : Type 0} where
  -- Every dependency on an enricher of the run is on one that is done.
  abbrev pub DependsOn : List (Enricher S) → List Text → List Text → Type 0
  DependsOn es done deps = All (λ d. contains (names es) d ≡ true → contains done d ≡ true) deps

  -- Each enricher runs after all of its dependencies that are in the run.
  abbrev pub RunsAfter : List (Enricher S) → List Text → List (Enricher S) → Type 0
  RunsAfter es done [] = Unit
  RunsAfter es done (e ∷ rest) =
      DependsOn es done e.dependencies × RunsAfter es (done ++ e.name ∷ []) rest

  module _ (es : List (Enricher S)) (by_name : Dict Text (Enricher S))
      (indexed : index_by_name es ≡ ok by_name) where
    abbrev pub last : KahnState S
    last = kahn es (build_graph es by_name)

    -- The invariant of the loop over the graph of this run.
    abbrev pub RunInv : KahnState S → Type 0
    RunInv =
        Inv es (build_graph es by_name).dependents (edges by_name es) (edges-target by_name es)
          (dependents-build_graph by_name es)

    start-Inv : RunInv (record {
      queue = keep (λ e. (build_graph es by_name).in_degree e.name == 0) es;
      out = [];
      in_degree = (build_graph es by_name).in_degree;
    })
    start-Inv = record {
      degree = in_degree-build_graph by_name es;
      placed = λ n. ground (
        arith,
        count-keep (λ m. (build_graph es by_name).in_degree m == 0) es n,
        in_degree-build_graph by_name es n,
        IsDistinct-index_by_name es by_name n indexed,
        count_of_contains n (names es),
        count_of_not-contains n (names es),
      );
      ordered = tt;
      queue_listed =
          All-keep (IsListed es) _ es
            (All-IsListed es (λ n. IsDistinct-index_by_name es by_name n indexed));
      out_listed = tt;
    }

    pub last-Inv : RunInv last × (last.queue ≡ [])
    unfolding kahn
    last-Inv = loop-Inv es _ _ _ _ (suc (length es)) _ start-Inv (omega arith)

    -- Before it leaves the queue an enricher has no open edge.
    RunsAfter-Ordered :
        (done : List Text) (l : List (Enricher S))
        → Ordered (edges by_name es) done (names l)
        → All (IsListed es) l
        → RunsAfter es done l
    RunsAfter-Ordered done [] o h = tt
    RunsAfter-Ordered done (e ∷ l) (k, o) (h, hs) = (
      known e.dependencies (Waits-edges by_name es done e h k),
      RunsAfter-Ordered (done ++ e.name ∷ []) l o hs,
    )
      where
        known : (deps : List Text) → Waits by_name done deps → DependsOn es done deps
        known [] w = tt
        known (d ∷ deps) (w, ws) =
            (λ m. w (keys-index_by_name es by_name d indexed ∙ m), known deps ws)

    pub last-RunsAfter : RunsAfter es [] last.out
    last-RunsAfter = RunsAfter-Ordered [] last.out last-Inv.0.ordered last-Inv.0.out_listed

    -- A name has run at most as often as it is listed.
    pub count-last-le : (n : Text) → count n (names last.out) ≤ count n (names es)
    count-last-le n = ground (arith, last-Inv.0.placed n, count_of_contains n (names es))

    pub last-perm : length last.out ≡ length es → Perm last.out es
    last-perm h =
        perm_of_names es last.out es last-Inv.0.out_listed
          (All-IsListed es (λ n. IsDistinct-index_by_name es by_name n indexed))
          (count-eq_of_length (names last.out) (names es) count-last-le (
            omega (
              arith,
              length-map last.out (λ (e : Enricher S). e.name),
              length-map es (λ (e : Enricher S). e.name),
            )))

    -- When `kahn` returns, its queue is empty: its fuel is never what stops it.
    pub kahn_ends : last.queue ≡ []
    kahn_ends = last-Inv.1
