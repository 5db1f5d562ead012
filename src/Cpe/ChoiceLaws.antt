-- ===== src/Cpe/ChoiceLaws.antt =====
-- internal/enrich/cpe/confidence.go: what `Classify` promises of its three lists.
use astinus.Base.{
  ℕ, ◌+◌, ◌≤◌, ◌<◌, ◌≡◌, refl, ◌∙◌, ap, inl, inr, false, List, [], ◌∷◌, map, Option, none, some,
  arith, leb, Text, text_eq, if_ind, Bool-cases, count, All,
}
use astinus.Base.Sort.{
  sort_stable, sort_stable-IsAscending, All-of_sort_stable, count-sort_stable, IsAscending,
}
use astinus.Cpe.Candidates.{
  Candidate, Threshold, Verdict, outranks, add_later, classify_later, classify_from, classify,
}

abbrev pub cpes_of : List Candidate → List Text
cpes_of cs = map (λ c. c.cpe) cs

abbrev pub as_list : Option Candidate → List Candidate
as_list none = []
as_list (some c) = c ∷ []

-- How often a name stands in the three lists together.
abbrev pub total : Text → Verdict → ℕ
total h v =
    count h (cpes_of (as_list v.primary))
    + (count h (cpes_of v.alternatives) + count h (cpes_of v.rejected))

-- The primary is one of the best, and good enough; without one, none is good enough.
abbrev pub IsBest : Threshold → List Candidate → Option Candidate → Type 0
IsBest t cs none = All (λ c. c.confidence < t.primary_min) cs
IsBest t cs (some p) = (t.primary_min ≤ p.confidence) × All (λ c. c.confidence ≤ p.confidence) cs

-- The threshold for alternatives divides the rest.
abbrev pub IsDivided : Threshold → Verdict → Type 0
IsDivided t v =
    All (λ c. t.alternative_min ≤ c.confidence) v.alternatives
    × All (λ c. c.confidence < t.alternative_min) v.rejected

module _ (fmt : ℕ → Text) (t : Threshold) where
  pub add_later-primary : (c : Candidate) (v : Verdict) → (add_later fmt t c v).primary ≡ v.primary
  add_later-primary c v =
      if_ind (λ (w : Verdict). w.primary ≡ v.primary) (leb t.alternative_min c.confidence) refl refl

  add_later-total :
      (h : Text) (c : Candidate) (v : Verdict)
      → total h (add_later fmt t c v) ≡ count h (c.cpe ∷ []) + total h v
  add_later-total h c v =
      if_ind (λ w. total h w ≡ count h (c.cpe ∷ []) + total h v)
        (leb t.alternative_min c.confidence) (ground arith) (ground arith)

  add_later-IsDivided :
      (c : Candidate) (v : Verdict) → IsDivided t v → IsDivided t (add_later fmt t c v)
  add_later-IsDivided c v (above, below) = elim (Bool-cases (leb t.alternative_min c.confidence)) [
    | inl kept ↦ rw (kept) ((ground (arith, kept), above), below)
    | inr dropped ↦ rw (dropped) (above, (ground (arith, dropped), below))
  ]

  classify_later-IsSorted_out :
      (h : Text) (cs : List Candidate)
      → (total h (classify_later fmt t cs) ≡ count h (cpes_of cs))
        × IsDivided t (classify_later fmt t cs)
        × ((classify_later fmt t cs).primary ≡ none)
  unfolding classify_later
  classify_later-IsSorted_out h [] = (refl, (tt, tt), refl)
  classify_later-IsSorted_out h (c ∷ cs) =
      let (same, divided, no_primary) = classify_later-IsSorted_out h cs in
      (
        ground (arith, add_later-total h c (classify_later fmt t cs), same),
        add_later-IsDivided c (classify_later fmt t cs) divided,
        add_later-primary c (classify_later fmt t cs) ∙ no_primary,
      )

  classify_from-total :
      (h : Text) (cs : List Candidate) → total h (classify_from fmt t cs) ≡ count h (cpes_of cs)
  unfolding classify_from
  classify_from-total h [] = refl
  classify_from-total h (c ∷ cs) =
      let (same, _, no_primary) = classify_later-IsSorted_out h cs in
      if_ind (λ v. total h v ≡ count h (cpes_of (c ∷ cs))) (leb t.primary_min c.confidence)
        (ground (arith, same, ap (λ o. count h (cpes_of (as_list o))) no_primary))
        (ground (arith, add_later-total h c (classify_from fmt t cs), classify_from-total h cs))

  classify_from-IsDivided : (cs : List Candidate) → IsDivided t (classify_from fmt t cs)
  unfolding classify_from
  classify_from-IsDivided [] = (tt, tt)
  classify_from-IsDivided (c ∷ cs) =
      if_ind (IsDivided t) (leb t.primary_min c.confidence) (classify_later-IsSorted_out [] cs).1
        (add_later-IsDivided c (classify_from fmt t cs) (classify_from-IsDivided cs))

  classify_from-none :
      (cs : List Candidate)
      → All (λ c. c.confidence < t.primary_min) cs
      → (classify_from fmt t cs).primary ≡ none
  unfolding classify_from
  classify_from-none [] h = refl
  classify_from-none (c ∷ cs) (low, h) =
      let closed : leb t.primary_min c.confidence ≡ false = ground (arith, low) in
      rw (closed) (add_later-primary c (classify_from fmt t cs) ∙ classify_from-none cs h)

  All-lt_of_le :
      (n k : ℕ) (cs : List Candidate)
      → n < k
      → All (λ c. c.confidence ≤ n) cs
      → All (λ c. c.confidence < k) cs
  All-lt_of_le n k [] h le = tt
  All-lt_of_le n k (c ∷ cs) h (l, le) = (omega (arith, h, l), All-lt_of_le n k cs h le)

  not_outranked :
      (x : Candidate) (ys : List Candidate)
      → All (λ y. outranks y x ≡ false) ys
      → All (λ y. y.confidence ≤ x.confidence) ys
  not_outranked x [] h = tt
  not_outranked x (y ∷ ys) (p, h) = (ground (arith, p), not_outranked x ys h)

  classify_from-IsBest :
      (cs : List Candidate) → IsAscending outranks cs → IsBest t cs (classify_from fmt t cs).primary
  unfolding classify_from
  classify_from-IsBest [] h = tt
  classify_from-IsBest (c ∷ cs) (h, hs) = elim (Bool-cases (leb t.primary_min c.confidence)) [
    | inl good ↦
        let itself : c.confidence ≤ c.confidence = omega arith in
        rw (good) (ground (arith, good), (itself, not_outranked c cs h))
    | inr low ↦
        let below : c.confidence < t.primary_min = ground (arith, low) in
        let rest = All-lt_of_le c.confidence t.primary_min cs below (not_outranked c cs h) in
        rw (low, add_later-primary c (classify_from fmt t cs), classify_from-none cs rest)
          (below, rest)
  ]

IsBest-sorted :
    (t : Threshold) (cs : List Candidate) (o : Option Candidate)
    → IsBest t (sort_stable outranks cs) o
    → IsBest t cs o
IsBest-sorted t cs none h = All-of_sort_stable outranks _ cs h
IsBest-sorted t cs (some p) (good, h) = (good, All-of_sort_stable outranks _ cs h)

-- Every candidate's name goes into the three lists as often as it was given. The primary has the
-- highest confidence of all and meets its threshold, and it is missing only where no candidate meets
-- it. Each alternative meets the lower threshold, and each rejected candidate misses it.
pub classify-IsBest :
    (fmt : ℕ → Text) (cands : List Candidate) (t : Threshold) (h : Text)
    → (total h (classify fmt cands t) ≡ count h (cpes_of cands))
      × IsBest t cands (classify fmt cands t).primary
      × IsDivided t (classify fmt cands t)
unfolding classify
classify-IsBest fmt cands t h = (
  classify_from-total fmt t h sorted ∙ count-sort_stable outranks (λ c. c.cpe) h cands,
  IsBest-sorted t cands (classify_from fmt t sorted).primary (
      classify_from-IsBest fmt t sorted (
        sort_stable-IsAscending outranks (λ x y p. ground (arith, p))
          (λ x y z p q. ground (arith, p, q)) cands)),
  classify_from-IsDivided fmt t sorted,
)
  where
    sorted : List Candidate
    sorted = sort_stable outranks cands
