-- ===== src/Dedup/Key.antt =====
-- The identity of a component: `dedupKey` and its helpers, and the choice of a group's primary.
use astinus.Base.{
  ℕ, ◌+◌, Bool, true, false, ◌&&◌, not, List, [], ◌∷◌, ◌++◌, Option, none, some, ltb, Text, codes,
  text_eq, nat_eq, ◌==◌, if◌then◌else◌, length,
}
use astinus.Base.Strings.{to_lower, trim_space, before_any}
use astinus.Model.{Hash, Evidence, Component}

-- `strings.IndexByte(p, '?')`, when it is positive, cuts the qualifiers off.
unfoldable pub canonical_purl : Text → Text
canonical_purl p = elim (before_any (λ c. c == b'?') p) [
  | none ↦ to_lower p
  | some base ↦ if base == [] then to_lower p else to_lower base
]

unfoldable pub canonical_cpe : Text → Text
canonical_cpe cpe = to_lower (trim_space cpe)

-- The loop of `findHash`, over the hashes of the component.
unfoldable pub find_hash : List Hash → Text → Text
find_hash [] algorithm = []
find_hash (h ∷ hs) algorithm =
    if to_lower h.algorithm == to_lower algorithm && not (h.value == [])
    then h.value
    else find_hash hs algorithm

unfoldable pub first_non_empty : List Text → Text
first_non_empty [] = []
first_non_empty (v ∷ s) = if not (trim_space v == []) then v else first_non_empty s

abbrev pub hash_algorithm_sha256 : Text
hash_algorithm_sha256 = codes "sha256"

-- The last two steps of `dedupKey`, for a component without PURL and CPE.
unfoldable pub weak_key : Component → Text
weak_key c =
    let h = find_hash c.hashes hash_algorithm_sha256 in
    if not (h == [])
    then codes "sha256:" ++ to_lower h
    else if not (c.name == []) && not (c.version == [])
    then codes "nvt:"
      ++ (to_lower c.type ++ (b':' ∷ (to_lower c.name ++ (b':' ∷ to_lower c.version))))
    else []

unfoldable pub dedup_key : Component → Text
unfolding weak_key
dedup_key c =
    let cpe = first_non_empty c.cpes in
    if not (c.purl == [])
    then codes "purl:" ++ canonical_purl c.purl
    else if not (cpe == [])
    then codes "cpe:" ++ canonical_cpe cpe
    else weak_key c

abbrev evidence_score : Option Evidence → ℕ
evidence_score none = 0
evidence_score (some e) = length e.locations

abbrev is_nil {ℓ} : {A : Type ℓ} → List A → Bool
is_nil [] = true
is_nil (x ∷ xs) = false

unfoldable pub primary_score : Component → ℕ
primary_score c =
    (if c.purl == [] then 0 else 100)
    + (if is_nil c.cpes then 0 else 10)
    + evidence_score c.evidence

-- A slice of indices, each with the component that it denotes in the slice of components.
abbrev pub Indexed : Type 0
Indexed = List (ℕ × Component)

-- One round of the loop of `pickPrimary`.
unfoldable pub better : ℕ × Component → ℕ × Component → ℕ × Component
better (best, b) (i, c) =
    let s = primary_score c in
    let best_score = primary_score b in
    if ltb best_score s then (i, c) else if s == best_score && ltb i best then (i, c) else (best, b)

unfoldable pub pick_primary : ℕ × Component → Indexed → ℕ × Component
unfolding better
pick_primary best [] = best
pick_primary best (x ∷ idxs) = pick_primary (better best x) idxs
