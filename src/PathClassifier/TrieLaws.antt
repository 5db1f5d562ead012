-- ===== src/PathClassifier/TrieLaws.antt =====
-- The trie finds the rule of the longest pattern that the text starts with.
use astinus.Base.Tests.{or_else}
use astinus.Base.{
  ℕ, ◌≡◌, refl, ◌∙◌, sym, ap, inl, inr, Bool, true, false, List, [], ◌∷◌, Option, none, some, arith,
  Text, text_eq, nat_eq, ◌==◌, if◌then◌else◌, Bool-cases,
}
use astinus.PathClassifier.Trie.{
  Trie, leaf, child, branch, insert_at, insert_pattern, walk_trie, longest_match, insert_all,
}

module _ {R : Type 0} where
  -- The rule at the end of a path of bytes.
  abbrev pub rule_at : Trie R → Text → Option R
  rule_at t [] = none
  rule_at leaf (c ∷ s) = none
  rule_at (child d rule below others) (c ∷ []) =
      let beside = rule_at others (c ∷ []) in if d == c then rule else beside
  rule_at (child d rule below others) (c ∷ e ∷ s) =
      let inside = rule_at below (e ∷ s) in
      let beside = rule_at others (c ∷ e ∷ s) in if d == c then inside else beside

  -- The rule of the longest prefix that has one.
  abbrev pub best_prefix : (Text → Option R) → Text → Option R
  best_prefix rule_of [] = none
  best_prefix rule_of (c ∷ s) = or_else (best_prefix (λ q. rule_of (c ∷ q)) s) (rule_of (c ∷ []))

  -- The first rule in the list whose pattern is the text.
  abbrev pub first_rule : List (Text × R) → Text → Option R
  first_rule [] q = none
  first_rule ((p, r) ∷ patterns) q =
      let rest = first_rule patterns q in if p == q then some r else rest

  rule_at-branch :
      (c : ℕ) (s : Text) (r : R) (q : Text)
      → rule_at (branch c s r) q ≡ (if (c ∷ s) == q then some r else none)
  unfolding branch
  rule_at-branch c [] r [] = refl
  rule_at-branch c [] r (x ∷ []) = ground arith
  rule_at-branch c [] r (x ∷ y ∷ q) = ground arith
  rule_at-branch c (d ∷ s) r [] = refl
  rule_at-branch c (d ∷ s) r (x ∷ []) = ground arith
  rule_at-branch c (d ∷ s) r (x ∷ y ∷ q) = ground (arith, rule_at-branch d s r (y ∷ q))

  rule_at-insert_at :
      (t : Trie R) (c : ℕ) (s : Text) (r : R) (q : Text)
      → rule_at (insert_at t c s r) q
        ≡ or_else (rule_at t q) (if (c ∷ s) == q then some r else none)
  unfolding insert_at
  rule_at-insert_at leaf c s r [] = rule_at-branch c s r []
  rule_at-insert_at leaf c s r (x ∷ q) = rule_at-branch c s r (x ∷ q)
  rule_at-insert_at (child d rule below others) c [] r [] = refl
  rule_at-insert_at (child d rule below others) c [] r (x ∷ []) =
      ground (arith, rule_at-insert_at others c [] r (x ∷ []))
  rule_at-insert_at (child d rule below others) c [] r (x ∷ y ∷ q) =
      ground (arith, rule_at-insert_at others c [] r (x ∷ y ∷ q))
  rule_at-insert_at (child d rule below others) c (e ∷ s) r [] = refl
  rule_at-insert_at (child d rule below others) c (e ∷ s) r (x ∷ []) =
      ground (arith, rule_at-insert_at others c (e ∷ s) r (x ∷ []))
  rule_at-insert_at (child d rule below others) c (e ∷ s) r (x ∷ y ∷ q) = ground (
    arith,
    rule_at-insert_at others c (e ∷ s) r (x ∷ y ∷ q),
    rule_at-insert_at below e s r (y ∷ q),
  )

  or_else_assoc : (a b c : Option R) → or_else a (or_else b c) ≡ or_else (or_else a b) c
  or_else_assoc none b c = refl
  or_else_assoc (some a) b c = refl

  or_else-none : (o : Option R) → or_else o none ≡ o
  or_else-none none = refl
  or_else-none (some r) = refl

  best_prefix-nothing :
      (rule_of : Text → Option R) (s : Text)
      → ((q : Text) → rule_of q ≡ none)
      → best_prefix rule_of s ≡ none
  best_prefix-nothing rule_of [] h = refl
  best_prefix-nothing rule_of (c ∷ s) h =
      rw (best_prefix-nothing (λ q. rule_of (c ∷ q)) s (λ q. h (c ∷ q)), h (c ∷ [])) refl

  best_prefix-agree :
      (f g : Text → Option R) (s : Text)
      → ((c : ℕ) (q : Text) → f (c ∷ q) ≡ g (c ∷ q))
      → best_prefix f s ≡ best_prefix g s
  best_prefix-agree f g [] h = refl
  best_prefix-agree f g (c ∷ s) h =
      rw (best_prefix-agree (λ q. f (c ∷ q)) (λ q. g (c ∷ q)) s (λ d q. h c (d ∷ q)), h c []) refl

  rule_at-leaf : (q : Text) → rule_at leaf q ≡ none
  rule_at-leaf [] = refl
  rule_at-leaf (c ∷ q) = refl

  module _ (d c : ℕ) (rule : Option R) (below others : Trie R) where
    rule_at-below :
        (e : ℕ) (q : Text)
        → (d == c) ≡ true
        → rule_at (child d rule below others) (c ∷ e ∷ q) ≡ rule_at below (e ∷ q)
    rule_at-below e q h = rw (h, rule_at) refl

    rule_at-here : (d == c) ≡ true → rule_at (child d rule below others) (c ∷ []) ≡ rule
    rule_at-here h = rw (h, rule_at) refl

    rule_at-others :
        (q : Text)
        → (d == c) ≡ false
        → rule_at (child d rule below others) (c ∷ q) ≡ rule_at others (c ∷ q)
    rule_at-others [] h = rw (h, rule_at) refl
    rule_at-others (e ∷ q) h = rw (h, rule_at) refl

    walk-below :
        (best : Option R) (s : Text)
        → (d == c) ≡ true
        → walk_trie (child d rule below others) best (c ∷ s) ≡ walk_trie below (or_else rule best) s
    unfolding walk_trie
    walk-below best s h = rw (h, walk_trie) refl

    walk-others :
        (best : Option R) (s : Text)
        → (d == c) ≡ false
        → walk_trie (child d rule below others) best (c ∷ s) ≡ walk_trie others best (c ∷ s)
    unfolding walk_trie
    walk-others best s h = rw (h, walk_trie) refl

  walk_trie-best_prefix :
      (t : Trie R) (best : Option R) (s : Text)
      → walk_trie t best s ≡ or_else (best_prefix (rule_at t) s) best
  unfolding walk_trie
  walk_trie-best_prefix leaf best s =
      sym (ap (λ o. or_else o best) (best_prefix-nothing (rule_at leaf) s rule_at-leaf))
  walk_trie-best_prefix (child d rule below others) best [] = refl
  walk_trie-best_prefix (child d rule below others) best (c ∷ s) = elim (Bool-cases (d == c)) [
    | inl here ↦
        walk-below d c rule below others best s here
        ∙ walk_trie-best_prefix below (or_else rule best) s
        ∙ or_else_assoc (best_prefix (rule_at below) s) rule best
        ∙ sym (
            ap (λ o. or_else o best)
              (ap (λ o. or_else o (rule_at (child d rule below others) (c ∷ [])))
                  (best_prefix-agree (λ q. rule_at (child d rule below others) (c ∷ q))
                    (rule_at below) s (λ e q. rule_at-below d c rule below others e q here))
                ∙ ap (or_else (best_prefix (rule_at below) s))
                    (rule_at-here d c rule below others here)))
    | inr other ↦
        walk-others d c rule below others best s other
        ∙ walk_trie-best_prefix others best (c ∷ s)
        ∙ sym (
            ap (λ o. or_else o best)
              (ap (λ o. or_else o (rule_at (child d rule below others) (c ∷ [])))
                  (best_prefix-agree (λ q. rule_at (child d rule below others) (c ∷ q))
                    (λ q. rule_at others (c ∷ q)) s
                    (λ e q. rule_at-others d c rule below others (e ∷ q) other))
                ∙ ap (or_else (best_prefix (λ q. rule_at others (c ∷ q)) s))
                    (rule_at-others d c rule below others [] other)))
  ]

  -- A pattern that is inserted stands at the end of its path, unless a rule stands there.
  rule_at-insert_all :
      (t : Trie R) (patterns : List (Text × R)) (c : ℕ) (q : Text)
      → rule_at (insert_all t patterns) (c ∷ q)
        ≡ or_else (rule_at t (c ∷ q)) (first_rule patterns (c ∷ q))
  unfolding insert_all insert_pattern
  rule_at-insert_all t [] c q = sym (or_else-none (rule_at t (c ∷ q)))
  rule_at-insert_all t (([], r) ∷ patterns) c q = rule_at-insert_all t patterns c q
  rule_at-insert_all t ((d ∷ p, r) ∷ patterns) c q =
      rule_at-insert_all (insert_at t d p r) patterns c q
      ∙ ap (λ o. or_else o (first_rule patterns (c ∷ q))) (rule_at-insert_at t d p r (c ∷ q))
      ∙ by_pattern ((d ∷ p) == (c ∷ q)) (rule_at t (c ∷ q)) (first_rule patterns (c ∷ q))
    where
      by_pattern :
          (same : Bool) (old rest : Option R)
          → or_else (or_else old (if same then some r else none)) rest
            ≡ or_else old (if same then some r else rest)
      by_pattern true none rest = refl
      by_pattern true (some x) rest = refl
      by_pattern false none rest = refl
      by_pattern false (some x) rest = refl

  -- The trie of some patterns gives for a text the rule of the longest pattern that the text starts
  -- with, the first rule of that pattern, and nothing if it starts with none.
  pub longest_match-insert_all :
      (patterns : List (Text × R)) (s : Text)
      → longest_match (insert_all leaf patterns) s ≡ best_prefix (first_rule patterns) s
  unfolding longest_match
  longest_match-insert_all patterns s =
      walk_trie-best_prefix (insert_all leaf patterns) none s
      ∙ or_else-none (best_prefix (rule_at (insert_all leaf patterns)) s)
      ∙ best_prefix-agree (rule_at (insert_all leaf patterns)) (first_rule patterns) s
          (λ c q. rule_at-insert_all leaf patterns c q)
