-- ===== src/Dedup/Run.antt =====
-- `Run`: the buckets of the first pass, and the second pass that emits each bucket once.
use astinus.Base.{
  ℕ, suc, ◌+◌, Bool, true, false, List, [], ◌∷◌, ◌++◌, Option, none, some, Text, text_eq, nat_eq,
  ◌==◌, if◌then◌else◌, contains,
}
use astinus.Base.Dict.{Dict, lookup, insert}
use astinus.Model.{Component, Sbom}
use astinus.Dedup.Key.{dedup_key, Indexed, pick_primary}
use astinus.Dedup.Merge.{merge_pair}

abbrev pub Buckets : Type 0
Buckets = Dict Text Indexed

abbrev pub members : Option Indexed → Indexed
members none = []
members (some idxs) = idxs

-- One round of the first pass: the component at index `i` joins the bucket of its key.
unfoldable pub add_to_bucket : Buckets → ℕ → Component → Buckets
add_to_bucket buckets i c =
    if dedup_key c == []
    then buckets
    else insert (dedup_key c) (members (lookup (dedup_key c) buckets) ++ (i, c) ∷ []) buckets

unfoldable pub bucketize : Buckets → ℕ → List Component → Buckets
unfolding add_to_bucket
bucketize buckets i [] = buckets
bucketize buckets i (c ∷ cs) = bucketize (add_to_bucket buckets i c) (i + 1) cs

-- Folds the rest of a bucket into its primary.
unfoldable pub merge_rest : ℕ → Component → Indexed → Component
unfolding merge_pair
merge_rest primary merged [] = merged
merge_rest primary merged ((idx, c) ∷ idxs) =
    merge_rest primary (if idx == primary then merged else merge_pair merged c) idxs

-- What is emitted for a bucket when its first component `c` is met, and whether it was merged.
unfoldable pub emit : Component → Indexed → Component × Bool
unfolding merge_rest
emit c [] = (c, false)
emit c (x ∷ []) = (c, false)
emit c (x ∷ y ∷ idxs) =
    let (primary, best) = pick_primary x (y ∷ idxs) in
    (merge_rest primary best (x ∷ y ∷ idxs), true)

-- The second pass, with the keys emitted so far.
unfoldable pub emit_all : Buckets → List Text → List Component → List Component × ℕ
unfolding emit
emit_all buckets emitted [] = ([], 0)
emit_all buckets emitted (c ∷ cs) =
    let k = dedup_key c in
    let passed = emit_all buckets emitted cs in
    let fresh = emit_all buckets (k ∷ emitted) cs in
    if k == []
    then (c ∷ passed.0, passed.1)
    else if contains emitted k
    then passed
    else let (out, merged) = emit c (members (lookup k buckets)) in
      (out ∷ fresh.0, (if merged then suc fresh.1 else fresh.1))

unfoldable pub run : List Component → List Component × ℕ
unfolding bucketize emit_all
run comps = emit_all (bucketize [] 0 comps) [] comps

-- `Enrich`: the components of the SBOM are replaced.
unfoldable pub enrich : Sbom → Sbom
enrich sbom = record sbom { components = (run sbom.components).0 }
