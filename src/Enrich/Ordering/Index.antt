-- ===== src/Enrich/Ordering/Index.antt =====
-- What `indexByName` accepts, and the edges of the accepted enrichers.
use mathlib.Core.Path.{subst}
use mathlib.Core.Option.{some-injective}
use astinus.Base.{
  some, sym, ◌+◌, ◌≤◌, ◌<◌, ◌≡◌, true, ◌||◌, inl, inr, List, [], ◌∷◌, arith, Text, text_eq, ==_iff,
  ==_refl, if◌then◌else◌, Bool-cases, contains, count, All, ok, err,
}
use astinus.Base.Dict.{Dict, lookup, insert, lookup-insert}
use astinus.Enrich.Interface.{Enricher}
use astinus.Enrich.Ordering.Graph.{left, left-append}
use astinus.Enrich.Ordering.Build.{edges_of, edges}
use astinus.Enrich.Ordering.{
  OrderError, duplicate_name, is_some, names, find, index_by_name_from, index_by_name,
}

module _ {S : Type 0} where
  -- What the map of names holds after a run of the loop that meets no name twice.
  record Indexed (old new : Dict Text (Enricher S)) (l : List (Enricher S)) : Type 0 where
    keys : (d : Text) → is_some (lookup d new) ≡ (is_some (lookup d old) || contains (names l) d)
    distinct : (d : Text) → count d (names l) + (if is_some (lookup d old) then 1 else 0) ≤ 1

  Indexed-index_by_name_from :
      (old new : Dict Text (Enricher S)) (l : List (Enricher S))
      → index_by_name_from old l ≡ ok new
      → Indexed old new l
  unfolding index_by_name_from
  Indexed-index_by_name_from old new [] h = record {
    keys = λ d. ground (arith, h);
    distinct = λ d. ground arith;
  }
  Indexed-index_by_name_from old new (x ∷ l) h = elim (Bool-cases (is_some (lookup x.name old))) [
    | inl dup ↦ absurd (cc (rw dup at h))
    | inr first ↦
        let i = Indexed-index_by_name_from (insert x.name x old) new l (rw first at h) in
        record {
          keys = λ d. ground (arith, i.keys d, lookup-insert x.name d x old, ==_iff x.name d);
          distinct = λ d.
              ground (arith, i.distinct d, lookup-insert x.name d x old, ==_iff x.name d, first);
        }
  ]

  pub keys-index_by_name :
      (l : List (Enricher S)) (by_name : Dict Text (Enricher S)) (d : Text)
      → index_by_name l ≡ ok by_name
      → is_some (lookup d by_name) ≡ contains (names l) d
  unfolding index_by_name lookup
  keys-index_by_name l by_name d h = (Indexed-index_by_name_from [] by_name l h).keys d

  pub IsDistinct-index_by_name :
      (l : List (Enricher S)) (by_name : Dict Text (Enricher S)) (d : Text)
      → index_by_name l ≡ ok by_name
      → count d (names l) ≤ 1
  unfolding index_by_name lookup
  IsDistinct-index_by_name l by_name d h =
      ground (arith, (Indexed-index_by_name_from [] by_name l h).distinct d)

  index_by_name_from_error :
      (old : Dict Text (Enricher S)) (l : List (Enricher S)) (e : OrderError)
      → index_by_name_from old l ≡ err e
      → (n : Text) × (e ≡ duplicate_name n)
        × (2 ≤ count n (names l) + (if is_some (lookup n old) then 1 else 0))
  unfolding index_by_name_from
  index_by_name_from_error old [] e h = absurd (cc h)
  index_by_name_from_error old (x ∷ l) e h = elim (Bool-cases (is_some (lookup x.name old))) [
    | inl dup ↦ (x.name, ground (arith, rw dup at h), ground (arith, ==_refl x.name, dup))
    | inr first ↦
        let (n, same, twice) = index_by_name_from_error (insert x.name x old) l e (rw first at h) in
        (n, same, ground (arith, twice, lookup-insert x.name n x old, ==_iff x.name n, first))
  ]

  -- `indexByName` fails only on a name that stands twice.
  pub index_by_name_error :
      (l : List (Enricher S)) (e : OrderError)
      → index_by_name l ≡ err e
      → (n : Text) × (e ≡ duplicate_name n) × (2 ≤ count n (names l))
  unfolding index_by_name lookup
  index_by_name_error l e h =
      let (n, same, twice) = index_by_name_from_error [] l e h in (n, same, ground (arith, twice))

  module _ (by_name : Dict Text (Enricher S)) where
    pub edges_of-target :
        (m : Text) (deps : List Text) (seen : List Text) (n : Text)
        → 0 < left (edges_of by_name m deps) seen n
        → m ≡ n
    unfolding edges_of left
    edges_of-target m [] seen n h = absurd (omega arith)
    edges_of-target m (d ∷ deps) seen n h =
        ground (arith, edges_of-target m deps seen n, ==_iff m n)

    -- Edges end in listed enrichers.
    pub edges-target :
        (l : List (Enricher S)) (seen : List Text) (n : Text)
        → 0 < left (edges by_name l) seen n
        → contains (names l) n ≡ true
    unfolding edges left
    edges-target [] seen n h = absurd (omega arith)
    edges-target (x ∷ l) seen n h = ground (
      arith,
      left-append (edges_of by_name x.name x.dependencies) (edges by_name l) seen n,
      edges_of-target x.name x.dependencies seen n,
      edges-target l seen n,
      ==_iff x.name n,
    )

    -- No edge into an enricher is open exactly when its known dependencies are all done.
    abbrev pub Waits : List Text → List Text → Type 0
    Waits done deps = All (λ d. is_some (lookup d by_name) ≡ true → contains done d ≡ true) deps

    Waits-edges_of :
        (m : Text) (deps done : List Text)
        → left (edges_of by_name m deps) done m ≡ 0
        → Waits done deps
    unfolding edges_of left
    Waits-edges_of m [] done h = tt
    Waits-edges_of m (d ∷ deps) done h = (
      λ k. ground (arith, ==_refl m, k, h),
      Waits-edges_of m deps done (ground (arith, ==_refl m, h)),
    )

    pub Waits-edges :
        (l : List (Enricher S)) (done : List Text) (e : Enricher S)
        → find l e.name ≡ some e
        → left (edges by_name l) done e.name ≡ 0
        → Waits done e.dependencies
    unfolding edges find
    Waits-edges [] done e h k = absurd (cc h)
    Waits-edges (x ∷ l) done e h k =
        let split =
          left-append (edges_of by_name x.name x.dependencies) (edges by_name l) done e.name in
        elim (Bool-cases (text_eq.equals x.name e.name)) [
          | inl same ↦
              let named : x.name ≡ e.name = (==_iff x.name e.name).0 same in
              let closed : left (edges_of by_name x.name x.dependencies) done e.name ≡ 0 =
                omega (arith, split) in
              subst (λ y. Waits done y.dependencies) (some-injective x e (rw same at h))
                (Waits-edges_of x.name x.dependencies done (
                  subst (λ n. left (edges_of by_name x.name x.dependencies) done n ≡ 0) (sym named)
                    closed))
          | inr other ↦ Waits-edges l done e (rw other at h) (omega (arith, split))
        ]
