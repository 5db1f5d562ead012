-- ===== src/Cpe/Candidates.antt =====
-- internal/enrich/cpe: candidate.go and confidence.go, the choice among candidates. A confidence is a whole
-- number of hundredths. What `%.2f` writes is a parameter.
use astinus.Base.{
  ℕ, Bool, List, [], ◌∷◌, ◌++◌, map, Option, none, some, ltb, leb, Text, codes, text_eq, nat_eq,
  ◌==◌, if◌then◌else◌, length, contains,
}
use astinus.Base.Strings.{join_with}
use astinus.Base.Sort.{text_less, sort_stable}

pub record Candidate : Type 0 where
  pub cpe : Text
  pub confidence : ℕ
  pub source : Text
  pub evidence : Text
  pub rejected_reason : Text

pub record Threshold : Type 0 where
  pub primary_min : ℕ
  pub alternative_min : ℕ

abbrev pub default_threshold : Threshold
default_threshold = record { primary_min = 70; alternative_min = 50 }

-- What `Classify` returns.
pub record Verdict : Type 0 where
  pub primary : Option Candidate
  pub alternatives : List Candidate
  pub rejected : List Candidate

-- The order of the sort: descending by confidence.
abbrev pub outranks : Candidate → Candidate → Bool
outranks x y = ltb y.confidence x.confidence

module _ (format_confidence : ℕ → Text) where
  abbrev pub give_reason : Threshold → Candidate → Candidate
  give_reason t c = record c {
    rejected_reason =
        if c.rejected_reason == []
        then codes "confidence "
          ++ (format_confidence c.confidence
              ++ (codes " below threshold " ++ format_confidence t.alternative_min))
        else c.rejected_reason;
  }

  -- What the switch does where the primary is taken.
  abbrev pub add_later : Threshold → Candidate → Verdict → Verdict
  add_later t c v =
      if leb t.alternative_min c.confidence
      then record v { alternatives = c ∷ v.alternatives }
      else record v { rejected = give_reason t c ∷ v.rejected }

  -- The loop of `Classify` after the primary.
  unfoldable pub classify_later : Threshold → List Candidate → Verdict
  classify_later t [] = record { primary = none; alternatives = []; rejected = [] }
  classify_later t (c ∷ cs) = add_later t c (classify_later t cs)

  -- The loop as long as there is no primary.
  unfoldable pub classify_from : Threshold → List Candidate → Verdict
  unfolding classify_later
  classify_from t [] = record { primary = none; alternatives = []; rejected = [] }
  classify_from t (c ∷ cs) =
      let first = classify_later t cs in
      let open_still = classify_from t cs in
      if leb t.primary_min c.confidence
      then record first { primary = some c }
      else add_later t c open_still

  unfoldable pub classify : List Candidate → Threshold → Verdict
  unfolding classify_from sort_stable
  classify cands t = classify_from t (sort_stable outranks cands)

-- An entry of the output of `DedupeCandidates` with the sources of its slot, each once.
pub record Slot : Type 0 where
  pub best : Candidate
  pub sources : List Text

abbrev pub with_source : Text → List Text → List Text
with_source s sources = if contains sources s then sources else s ∷ sources

abbrev pub join_slot : Candidate → Slot → Slot
join_slot c s = record {
  best = if ltb s.best.confidence c.confidence then c else s.best;
  sources = with_source c.source s.sources;
}

-- The first loop: a slot is found by its CPE, and a new one goes to the end.
unfoldable pub add_candidate : Candidate → List Slot → List Slot
add_candidate c [] = record { best = c; sources = c.source ∷ [] } ∷ []
add_candidate c (s ∷ slots) =
    let rest = add_candidate c slots in
    if s.best.cpe == c.cpe then join_slot c s ∷ slots else s ∷ rest

unfoldable pub slots_of : List Slot → List Candidate → List Slot
unfolding add_candidate
slots_of slots [] = slots
slots_of slots (c ∷ cs) = slots_of (add_candidate c slots) cs

unfoldable pub merge_sources : List Text → Text
unfolding join_with sort_stable
merge_sources set = join_with (codes "+") (sort_stable text_less set)

unfoldable pub from_slot : Slot → Candidate
unfolding merge_sources
from_slot s =
    if ltb 1 (length s.sources) then record s.best { source = merge_sources s.sources } else s.best

unfoldable pub dedupe_candidates : List Candidate → List Candidate
unfolding slots_of from_slot
dedupe_candidates cands = if leb (length cands) 1 then cands else map from_slot (slots_of [] cands)
