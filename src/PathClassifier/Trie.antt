-- ===== src/PathClassifier/Trie.antt =====
-- internal/enrich/untracked/pathclassifier/trie.go. The root holds no rule, since an empty pattern is
-- not inserted, so a trie is the children of its root.
use astinus.Base.Tests.{or_else}
use astinus.Base.{ℕ, List, [], ◌∷◌, Option, none, some, Text, nat_eq, ◌==◌, if◌then◌else◌}

-- `children` of a node: a byte, the rule and the children of the node it leads to, and the others.
pub data Trie (R : Type 0) : Type 0 where
  leaf : Trie R
  child : ℕ → Option R → Trie R → Trie R → Trie R

module _ {R : Type 0} where
  -- The new nodes for the rest of a pattern after the byte `c`.
  unfoldable pub branch : ℕ → Text → R → Trie R
  branch c [] r = child c (some r) leaf leaf
  branch c (d ∷ s) r = child c none (branch d s r) leaf

  -- `insert` of the pattern `c ∷ s`; the first rule of a pattern stays.
  unfoldable pub insert_at : Trie R → ℕ → Text → R → Trie R
  unfolding branch
  insert_at leaf c s r = branch c s r
  insert_at (child d rule below others) c [] r =
      let beside = insert_at others c [] r in
      if d == c then child d (or_else rule (some r)) below others else child d rule below beside
  insert_at (child d rule below others) c (e ∷ s) r =
      let inside = insert_at below e s r in
      let beside = insert_at others c (e ∷ s) r in
      if d == c then child d rule inside others else child d rule below beside

  unfoldable pub insert_pattern : Trie R → Text → R → Trie R
  unfolding insert_at
  insert_pattern t [] r = t
  insert_pattern t (c ∷ s) r = insert_at t c s r

  -- The loop of `longestMatch`, with the best rule so far.
  unfoldable pub walk_trie : Trie R → Option R → Text → Option R
  walk_trie leaf best s = best
  walk_trie (child d rule below others) best [] = best
  walk_trie (child d rule below others) best (c ∷ s) =
      let deeper = walk_trie below (or_else rule best) s in
      let beside = walk_trie others best (c ∷ s) in if d == c then deeper else beside

  unfoldable pub longest_match : Trie R → Text → Option R
  unfolding walk_trie
  longest_match t s = walk_trie t none s

  unfoldable pub insert_all : Trie R → List (Text × R) → Trie R
  unfolding insert_pattern
  insert_all t [] = t
  insert_all t ((p, r) ∷ patterns) = insert_all (insert_pattern t p r) patterns
