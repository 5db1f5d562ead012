-- ===== src/Enrich/Ordering/Cycles.antt =====
-- The errors of `TopoSort`: when it reports a cycle, what it names, and when it must succeed.
use mathlib.Core.Path.{subst}
use mathlib.Core.Option.{some-injective}
use astinus.Base.{
  Distinct, count-le-one, some, ◌&&◌, contains_of_count, count_of_not-contains, All-of_count, ℕ,
  zero, suc, ◌≤◌, ◌<◌, ◌≡◌, ◌≢◌, refl, ap, Bool, true, false, not, inl, inr, List, [], ◌∷◌, arith,
  Text, text_eq, nat_eq, ◌==◌, ==_iff, ==_refl, if◌then◌else◌, Bool-cases, length, length-map, keep,
  contains, count, count_of_contains, All, ok, err, length-le_of_count, All-at,
}
use native.Mathlib.Decide.{dec_lt}
use astinus.Base.Dict.{Dict, lookup}
use astinus.Enrich.Interface.{Enricher}
use astinus.Enrich.Ordering.Graph.{left, left-append}
use astinus.Enrich.Ordering.Build.{edges_of, edges}
use astinus.Enrich.Ordering.Index.{edges_of-target, keys-index_by_name, IsDistinct-index_by_name}
use astinus.Enrich.Ordering.Retire.{IsListed, find-name}
use astinus.Enrich.Ordering.Listed.{All-IsListed, count-keep}
use astinus.Enrich.Ordering.Run.{last, last-Inv, kahn_ends, count-last-le}
use astinus.Enrich.Ordering.Laws.{topo_sort-cases}
use astinus.Enrich.Ordering.{
  KahnState, find, cyclic_dependency, is_some, names, index_by_name, cycle_error, topo_sort,
}

-- One of the dependencies is on a name that `p` accepts.
abbrev pub HasDep : (Text → Bool) → List Text → Type 0
HasDep p deps = (d : Text) × (contains deps d ≡ true) × (p d ≡ true)

module _ {S : Type 0} where
  module _ (by_name : Dict Text (Enricher S)) (done : List Text) where
    abbrev open_dep : Text → Bool
    open_dep d = if is_some (lookup d by_name) then not (contains done d) else false

    HasDep-edges_of :
        (m n : Text) (deps : List Text)
        → 0 < left (edges_of by_name m deps) done n
        → HasDep open_dep deps
    unfolding edges_of left
    HasDep-edges_of m n [] h = absurd (omega arith)
    HasDep-edges_of m n (d ∷ deps) h = elim (Bool-cases (open_dep d)) [
      | inl here ↦ (d, ground (arith, ==_refl d), here)
      | inr none_here ↦
          let (c, listed, o) = HasDep-edges_of m n deps (ground (arith, h, none_here)) in
          (c, ground (arith, listed), o)
    ]

    -- Where an edge into `n` is open, an enricher of that name has an open dependency.
    HasDep-edges :
        (P : Enricher S → Type 0) (l : List (Enricher S)) (n : Text)
        → All P l
        → 0 < left (edges by_name l) done n
        → (e : Enricher S) × P e × (e.name ≡ n) × HasDep open_dep e.dependencies
    unfolding edges left
    HasDep-edges P [] n a h = absurd (omega arith)
    HasDep-edges P (x ∷ l) n (px, a) h =
        let split = left-append (edges_of by_name x.name x.dependencies) (edges by_name l) done n in
        elim (dec_lt 0 (left (edges_of by_name x.name x.dependencies) done n)) [
          | yes here ↦ (
            x,
            px,
            edges_of-target by_name x.name x.dependencies done n here,
            HasDep-edges_of x.name n x.dependencies here,
          )
          | no above ↦ HasDep-edges P l n a (omega (arith, split))
        ]

  module _ (es : List (Enricher S)) where
    -- Each listed name is that of an enricher with a dependency on a listed name.
    abbrev pub AllStuck : List Text → Type 0
    AllStuck ns =
        All (λ n. (e : Enricher S) × (find es n ≡ some e) × HasDep (contains ns) e.dependencies) ns

    module _ (by_name : Dict Text (Enricher S)) (indexed : index_by_name es ≡ ok by_name) where
      abbrev run : KahnState S
      run = last es by_name indexed

      abbrev stuck : List Text
      stuck = names (keep (λ e. not (contains (names run.out) e.name)) es)

      stuck_iff :
          (d : Text)
          → contains stuck d ≡ (contains (names es) d && not (contains (names run.out) d))
      stuck_iff d = ground (
        arith,
        count-keep (λ m. not (contains (names run.out) m)) es d,
        contains_of_count d stuck,
        count_of_contains d stuck,
        contains_of_count d (names es),
        count_of_contains d (names es),
      )

      stuck-open :
          (n : Text) → contains stuck n ≡ true → 0 < left (edges by_name es) (names run.out) n
      stuck-open n h = ground (
        arith,
        stuck_iff n,
        h,
        (last-Inv es by_name indexed).0.placed n,
        ap (λ q. count n (names q)) (kahn_ends es by_name indexed),
        count_of_not-contains n (names run.out),
      )

      stuck_dep :
          (deps : List Text)
          → HasDep (open_dep by_name (names run.out)) deps
          → HasDep (contains stuck) deps
      stuck_dep deps (d, dep, o) =
          (d, dep, ground (arith, o, stuck_iff d, keys-index_by_name es by_name d indexed))

      stuck-AllStuck : AllStuck stuck
      stuck-AllStuck = All-of_count _ stuck λ n p.
          let (e, listed, named, open_one) =
            HasDep-edges by_name (names run.out) (IsListed es) es n
              (All-IsListed es (λ m. IsDistinct-index_by_name es by_name m indexed))
              (stuck-open n (contains_of_count n stuck p)) in
          (e, subst (λ m. find es m ≡ some e) named listed, stuck_dep e.dependencies open_one)

      stuck-ne-nil : (length run.out == length es) ≡ false → stuck ≢ []
      stuck-ne-nil short none_left =
          let le = length-le_of_count (names es) (names run.out) (λ d. ground (
            arith,
            stuck_iff d,
            ap (λ l. contains l d) none_left,
            IsDistinct-index_by_name es by_name d indexed,
            count_of_contains d (names run.out),
            count_of_not-contains d (names es),
          )) in
          let ge =
            length-le_of_count (names run.out) (names es) (count-last-le es by_name indexed) in
          let same : length run.out ≡ length es = omega (
            arith,
            length-map run.out (λ (e : Enricher S). e.name),
            length-map es (λ (e : Enricher S). e.name),
          ) in
          cc ((==_iff (length run.out) (length es)).1 same)

  -- A cycle error lists at least one name, and each name that it lists is that of an enricher that
  -- depends on a listed name.
  pub topo_sort-AllStuck :
      (es : List (Enricher S)) (ns : List Text)
      → topo_sort es ≡ err (cyclic_dependency ns)
      → (ns ≢ []) × AllStuck es ns
  unfolding cycle_error
  topo_sort-AllStuck es ns h = elim (topo_sort-cases es) [
    | inl (n, failed, twice) ↦ absurd (cc)
    | inr (by_name, indexed, e) ↦
        elim (Bool-cases (length (last es by_name indexed).out == length es)) [
          | inl full ↦ absurd (cc (rw full at e))
          | inr part ↦
              let same : stuck es by_name indexed ≡ ns = cc (rw part at e) in
              subst (λ l. (l ≢ []) × AllStuck es l) same
                (stuck-ne-nil es by_name indexed part, stuck-AllStuck es by_name indexed)
        ]
  ]

  -- `rank` falls along every dependency within the run, so the run has no cycle.
  abbrev pub IsRanked : (Text → ℕ) → List (Enricher S) → Type 0
  IsRanked rank es =
      All (λ e. All (λ d. contains (names es) d ≡ true → rank d < rank e.name) e.dependencies) es

  All-find :
      (P : Enricher S → Type 0) (l : List (Enricher S)) (n : Text) (e : Enricher S)
      → All P l
      → find l n ≡ some e
      → P e
  unfolding find
  All-find P [] n e a h = absurd (cc h)
  All-find P (x ∷ l) n e (p, a) h = elim (Bool-cases (text_eq.equals x.name n)) [
    | inl same ↦ subst P (some-injective x e (rw same at h)) p
    | inr other ↦ All-find P l n e a (rw other at h)
  ]

  contains_of_find :
      (l : List (Enricher S)) (n : Text) (e : Enricher S)
      → find l n ≡ some e
      → contains (names l) n ≡ true
  unfolding find
  contains_of_find [] n e h = absurd (cc h)
  contains_of_find (x ∷ l) n e h = ground (arith, contains_of_find l n e)

  -- Where every listed name waits on a listed one, ranks have no bound.
  AllStuck-rank :
      (rank : Text → ℕ) (es : List (Enricher S)) (ns : List Text)
      → IsRanked rank es
      → AllStuck es ns
      → (k : ℕ) (n : Text) → contains ns n ≡ true
      → k ≤ rank n
  AllStuck-rank rank es ns ranked waits zero n h = omega arith
  AllStuck-rank rank es ns ranked waits (suc k) n h =
      let (e, found, stuck_on) = All-at _ ns n waits h in
      let (d, dep, listed) = stuck_on in
      let (f, known, _) = All-at _ ns d waits listed in
      let falls = All-at _ e.dependencies d (All-find _ es n e ranked found) dep in
      let below : rank d < rank n =
        subst (λ m. rank d < rank m) (find-name es es n e found)
          (falls (contains_of_find es d f known)) in
      omega (arith, below, AllStuck-rank rank es ns ranked waits k d listed)

  -- Enrichers of distinct names are always sorted if some rank of the names falls along each
  -- dependency that is in the list, as it does where there is no cycle.
  pub topo_sort_total :
      (rank : Text → ℕ) (es : List (Enricher S))
      → Distinct (names es)
      → IsRanked rank es
      → (out : List (Enricher S)) × (topo_sort es ≡ ok out)
  unfolding cycle_error
  topo_sort_total rank es distinct ranked = elim (topo_sort-cases es) [
    | inl (n, failed, twice) ↦ absurd (omega (arith, count-le-one (names es) n distinct))
    | inr (by_name, indexed, e) ↦
        elim (Bool-cases (length (last es by_name indexed).out == length es)) [
          | inl full ↦ ((last es by_name indexed).out, rw full at e)
          | inr part ↦
              let (some_stuck, waits) =
                topo_sort-AllStuck es (stuck es by_name indexed) (rw (part, cycle_error) at e) in
              absurd (no_rank (stuck es by_name indexed) some_stuck waits)
        ]
  ]
    where
      no_rank : (ns : List Text) → ns ≢ [] → AllStuck es ns → ⊥
      no_rank [] nonempty waits = nonempty refl
      no_rank (n ∷ ns) nonempty waits = omega (
        arith,
        AllStuck-rank rank es (n ∷ ns) ranked waits (suc (rank n)) n (rw (==_refl n) refl),
      )
