-- ===== src/Cpe/DedupeLaws.antt =====
-- internal/enrich/cpe/confidence.go: `DedupeCandidates` against the highest confidence of each name.
use mathlib.Core.Path.{subst}
use astinus.Base.{
  ℕ, ◌≡◌, refl, sym, ◌∙◌, ap, inl, inr, false, ◌||◌, List, [], ◌∷◌, map, Option, none, some, arith,
  ltb, leb, Text, text_eq, ◌==◌, ==_iff, if◌then◌else◌, if_ind, Bool-cases, length, contains,
  Distinct,
}
use astinus.Cpe.Candidates.{
  Candidate, Slot, join_slot, add_candidate, slots_of, from_slot, dedupe_candidates,
}
use astinus.Cpe.ChoiceLaws.{cpes_of}

-- The confidence of the first candidate with a name.
abbrev pub confidence_of : Text → List Candidate → Option ℕ
confidence_of h [] = none
confidence_of h (c ∷ cs) =
    let rest = confidence_of h cs in if c.cpe == h then some c.confidence else rest

abbrev pub higher : Option ℕ → ℕ → Option ℕ
higher none n = some n
higher (some m) n = some (if ltb m n then n else m)

-- The highest confidence of a name, after those seen.
abbrev pub highest : Text → Option ℕ → List Candidate → Option ℕ
highest h seen [] = seen
highest h seen (c ∷ cs) = highest h (if c.cpe == h then higher seen c.confidence else seen) cs

abbrev bests : List Slot → List Candidate
bests slots = map (λ s. s.best) slots

join_slot-cpe : (c : Candidate) (s : Slot) → s.best.cpe ≡ c.cpe → (join_slot c s).best.cpe ≡ c.cpe
join_slot-cpe c s h =
    if_ind (λ (b : Candidate). b.cpe ≡ c.cpe) (ltb s.best.confidence c.confidence) refl h

join_slot-confidence :
    (c : Candidate) (s : Slot)
    → some (join_slot c s).best.confidence ≡ higher (some s.best.confidence) c.confidence
join_slot-confidence c s = ground arith

-- The first entry of a list with another candidate of the same name in its place.
confidence_of-replaced :
    (h : Text) (c b b' : Candidate) (rest : Option ℕ)
    → b.cpe ≡ c.cpe
    → b'.cpe ≡ c.cpe
    → some b'.confidence ≡ higher (some b.confidence) c.confidence
    → (if b'.cpe == h then some b'.confidence else rest) ≡ (
        if c.cpe == h
        then higher (if b.cpe == h then some b.confidence else rest) c.confidence
        else if b.cpe == h
        then some b.confidence
        else rest)
confidence_of-replaced h c b b' rest e e' up = elim (Bool-cases (c.cpe == h)) [
  | inl this ↦ rw (e, e', this) up
  | inr other ↦ rw (e, e', other) refl
]

confidence_of-add_candidate :
    (h : Text) (c : Candidate) (slots : List Slot)
    → confidence_of h (bests (add_candidate c slots)) ≡ (
        if c.cpe == h
        then higher (confidence_of h (bests slots)) c.confidence
        else confidence_of h (bests slots))
unfolding add_candidate
confidence_of-add_candidate h c [] = refl
confidence_of-add_candidate h c (s ∷ slots) = elim (Bool-cases (s.best.cpe == c.cpe)) [
  | inl same ↦
      let eq = (==_iff s.best.cpe c.cpe).0 same in
      rw (same) (
        confidence_of-replaced h c s.best (join_slot c s).best (confidence_of h (bests slots)) eq
          (join_slot-cpe c s eq) (join_slot-confidence c s))
  | inr other ↦ rw (other) (
      grind (
        arith,
        confidence_of-add_candidate h c slots,
        ==_iff s.best.cpe h,
        ==_iff c.cpe h,
        ==_iff s.best.cpe c.cpe,
      ))
]

contains-add_candidate :
    (h : Text) (c : Candidate) (slots : List Slot)
    → contains (cpes_of (bests (add_candidate c slots))) h
      ≡ (contains (cpes_of (bests slots)) h || c.cpe == h)
unfolding add_candidate
contains-add_candidate h c [] = ground arith
contains-add_candidate h c (s ∷ slots) = elim (Bool-cases (s.best.cpe == c.cpe)) [
  | inl same ↦
      let eq = (==_iff s.best.cpe c.cpe).0 same in
      rw (same, join_slot-cpe c s eq, eq) (ground arith)
  | inr other ↦ rw (other) (ground (arith, contains-add_candidate h c slots))
]

confidence_of-slots_of :
    (h : Text) (cs : List Candidate) (slots : List Slot)
    → confidence_of h (bests (slots_of slots cs)) ≡ highest h (confidence_of h (bests slots)) cs
unfolding slots_of
confidence_of-slots_of h [] slots = refl
confidence_of-slots_of h (c ∷ cs) slots =
    confidence_of-slots_of h cs (add_candidate c slots)
    ∙ ap (λ o. highest h o cs) (confidence_of-add_candidate h c slots)

add_candidate-Distinct :
    (c : Candidate) (slots : List Slot)
    → Distinct (cpes_of (bests slots))
    → Distinct (cpes_of (bests (add_candidate c slots)))
unfolding add_candidate
add_candidate-Distinct c [] d = (refl, tt)
add_candidate-Distinct c (s ∷ slots) (fresh, d) = elim (Bool-cases (s.best.cpe == c.cpe)) [
  | inl same ↦
      let eq = (==_iff s.best.cpe c.cpe).0 same in
      rw (same, join_slot-cpe c s eq) ((rw (eq) at fresh), d)
  | inr other ↦ rw (other) (
    contains-add_candidate s.best.cpe c slots
        ∙ ground (arith, fresh, other, ==_iff s.best.cpe c.cpe, ==_iff c.cpe s.best.cpe),
    add_candidate-Distinct c slots d,
  )
]

slots_of-Distinct :
    (cs : List Candidate) (slots : List Slot)
    → Distinct (cpes_of (bests slots))
    → Distinct (cpes_of (bests (slots_of slots cs)))
unfolding slots_of
slots_of-Distinct [] slots d = d
slots_of-Distinct (c ∷ cs) slots d =
    slots_of-Distinct cs (add_candidate c slots) (add_candidate-Distinct c slots d)

-- The merged source changes neither name nor confidence.
pub from_slot-kept :
    (s : Slot) → ((from_slot s).cpe ≡ s.best.cpe) × ((from_slot s).confidence ≡ s.best.confidence)
unfolding from_slot
from_slot-kept s =
    if_ind (λ (c : Candidate). (c.cpe ≡ s.best.cpe) × (c.confidence ≡ s.best.confidence))
      (ltb 1 (length s.sources)) (refl, refl) (refl, refl)

cpes_of-from_slot : (slots : List Slot) → cpes_of (map from_slot slots) ≡ cpes_of (bests slots)
cpes_of-from_slot [] = refl
cpes_of-from_slot (s ∷ slots) = rw ((from_slot-kept s).0, cpes_of-from_slot slots) refl

confidence_of-from_slot :
    (h : Text) (slots : List Slot)
    → confidence_of h (map from_slot slots) ≡ confidence_of h (bests slots)
confidence_of-from_slot h [] = refl
confidence_of-from_slot h (s ∷ slots) =
    rw ((from_slot-kept s).0, (from_slot-kept s).1, confidence_of-from_slot h slots) refl

-- No name stands twice in the result, and each name has the highest confidence that it has in any
-- of the candidates; a name that none of them bears is not there.
pub dedupe_candidates-highest :
    (cands : List Candidate) (h : Text)
    → Distinct (cpes_of (dedupe_candidates cands))
      × (confidence_of h (dedupe_candidates cands) ≡ highest h none cands)
unfolding dedupe_candidates
dedupe_candidates-highest [] h = ((tt, refl))
dedupe_candidates-highest (c ∷ []) h = ((refl, tt), refl)
dedupe_candidates-highest (c ∷ d ∷ cs) h =
    let long : leb (length (c ∷ d ∷ cs)) 1 ≡ false = ground arith in
    let slots = slots_of [] (c ∷ d ∷ cs) in
    rw (long) (
      subst Distinct (sym (cpes_of-from_slot slots)) (slots_of-Distinct (c ∷ d ∷ cs) [] tt),
      confidence_of-from_slot h slots ∙ confidence_of-slots_of h (c ∷ d ∷ cs) [],
    )
