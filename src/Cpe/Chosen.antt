-- ===== src/Cpe/Chosen.antt =====
-- internal/enrich/cpe/confidence.go: what holds of the name and the confidence of every candidate holds of the
-- primary too.
use mathlib.Core.Option.{some-injective}
use mathlib.Core.Path.{subst}
use astinus.Base.{
  ℕ, ◌≡◌, sym, List, [], ◌∷◌, map, Option, some, ltb, leb, Text, text_eq, ◌==◌, if_ind, length, All,
}
use astinus.Base.Sort.{sort_stable, sort_stable-All}
use astinus.Cpe.Candidates.{
  Candidate, Threshold, Verdict, Slot, outranks, classify_from, classify, add_candidate, slots_of,
  from_slot, dedupe_candidates,
}
use astinus.Cpe.ChoiceLaws.{add_later-primary}
use astinus.Cpe.DedupeLaws.{from_slot-kept}

module _ (P : Text → ℕ → Type 0) where
  -- The property of a candidate's name and confidence.
  abbrev Holds : Candidate → Type 0
  Holds c = P c.cpe c.confidence

  add_candidate-All :
      (c : Candidate) (slots : List Slot)
      → Holds c
      → All (λ s. Holds s.best) slots
      → All (λ s. Holds s.best) (add_candidate c slots)
  unfolding add_candidate
  add_candidate-All c [] p h = (p, tt)
  add_candidate-All c (s ∷ slots) p (q, h) =
      if_ind (All (λ s. Holds s.best)) (s.best.cpe == c.cpe)
        (if_ind Holds (ltb s.best.confidence c.confidence) p q, h)
        (q, add_candidate-All c slots p h)

  slots_of-All :
      (slots : List Slot) (cs : List Candidate)
      → All (λ s. Holds s.best) slots
      → All Holds cs
      → All (λ s. Holds s.best) (slots_of slots cs)
  unfolding slots_of
  slots_of-All slots [] h k = h
  slots_of-All slots (c ∷ cs) h (p, k) =
      slots_of-All (add_candidate c slots) cs (add_candidate-All c slots p h) k

  from_slot-Holds : (s : Slot) → Holds s.best → Holds (from_slot s)
  from_slot-Holds s p = let (e, e') = from_slot-kept s in rw (e, e') p

  map-from_slot :
      (slots : List Slot) → All (λ s. Holds s.best) slots → All Holds (map from_slot slots)
  map-from_slot [] h = tt
  map-from_slot (s ∷ slots) (p, h) = (from_slot-Holds s p, map-from_slot slots h)

  pub dedupe_candidates-All :
      (cands : List Candidate) → All Holds cands → All Holds (dedupe_candidates cands)
  unfolding dedupe_candidates
  dedupe_candidates-All cands h =
      if_ind (All Holds) (leb (length cands) 1) h
        (map-from_slot (slots_of [] cands) (slots_of-All [] cands tt h))

  module _ (fmt : ℕ → Text) (t : Threshold) where
    -- The primary, if there is one, has the property.
    abbrev HoldsOf : Option Candidate → Type 0
    HoldsOf o = (p : Candidate) → o ≡ some p → Holds p

    classify_from-HoldsOf :
        (cs : List Candidate) → All Holds cs → HoldsOf (classify_from fmt t cs).primary
    unfolding classify_from
    classify_from-HoldsOf [] h = λ p e. absurd (cc e)
    classify_from-HoldsOf (c ∷ cs) (q, h) =
        if_ind (λ (v : Verdict). HoldsOf v.primary) (leb t.primary_min c.confidence)
          (λ p e. subst Holds (some-injective c p e) q)
          (subst HoldsOf (sym (add_later-primary fmt t c (classify_from fmt t cs)))
            (classify_from-HoldsOf cs h))

    pub classify-Holds : (cs : List Candidate) → All Holds cs → HoldsOf (classify fmt cs t).primary
    unfolding classify
    classify-Holds cs h =
        classify_from-HoldsOf (sort_stable outranks cs) (sort_stable-All outranks Holds cs h)
