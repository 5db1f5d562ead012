-- ===== src/PathClassifier/Laws.antt =====
-- What the classifier that `New` makes decides by its prefix rules.
use mathlib.Core.Path.{subst}
use astinus.Base.{
  ◌≡◌, refl, ◌∙◌, sym, ap, false, List, [], ◌∷◌, ◌++◌, map, none, some, Text, text_eq, nat_eq, ◌==◌,
  if_ind, Result, ok, err, IfOk, IfOk-bind, IfOk-elim,
}
use astinus.Base.Dict.{lookup}
use astinus.Base.Paths.{base_of}
use astinus.PathClassifier.Trie.{Trie, leaf, insert_pattern, insert_all, longest_match}
use astinus.PathClassifier.TrieLaws.{best_prefix, first_rule, longest_match-insert_all}
use astinus.PathClassifier.Classify.{
  PatternType, prefix_pattern, suffix_pattern, filename_exact, glob, regex, unknown_type, Rule,
  Engines, Classifier, empty_classifier, RuleError, insert_prefixes, first_refused, index_as,
  with_confidence, is_empty, index_rules, set_confidences, new_classifier, decision_for, classify,
}

-- The prefixes of a rule that is a prefix rule, each with the rule.
abbrev pub prefixes_as : Rule → PatternType → List (Text × Rule)
prefixes_as r prefix_pattern = map (λ v. (v, r)) r.values
prefixes_as r t = []

-- The prefixes of all rules in order, each with its rule.
abbrev pub prefixes_of : Engines → List Rule → List (Text × Rule)
prefixes_of engines [] = []
prefixes_of engines (r ∷ rules) =
    prefixes_as (with_confidence engines r) (with_confidence engines r).pattern_type
    ++ prefixes_of engines rules

insert_all-append :
    (t : Trie Rule) (a b : List (Text × Rule))
    → insert_all t (a ++ b) ≡ insert_all (insert_all t a) b
unfolding insert_all
insert_all-append t [] b = refl
insert_all-append t ((p, r) ∷ a) b = insert_all-append (insert_pattern t p r) a b

insert_prefixes-all :
    (t : Trie Rule) (values : List Text) (r : Rule)
    → insert_prefixes t values r ≡ insert_all t (map (λ v. (v, r)) values)
unfolding insert_prefixes insert_all
insert_prefixes-all t [] r = refl
insert_prefixes-all t (v ∷ values) r = insert_prefixes-all (insert_pattern t v r) values r

-- The prefix trie of a classifier is that of another with more patterns.
abbrev pub Extends : Classifier → List (Text × Rule) → Classifier → Type 0
Extends c patterns c' = c'.prefix_trie ≡ insert_all c.prefix_trie patterns

index_as-Extends :
    (engines : Engines) (c : Classifier) (r : Rule) (t : PatternType)
    → IfOk (Extends c (prefixes_as r t)) (index_as engines c r t)
unfolding index_as insert_all
index_as-Extends engines c r prefix_pattern = insert_prefixes-all c.prefix_trie r.values r
index_as-Extends engines c r suffix_pattern = refl
index_as-Extends engines c r filename_exact = refl
index_as-Extends engines c r glob =
    IfOk-elim (Extends c []) _ _ (first_refused engines.glob_valid r.values) refl (λ v. tt)
index_as-Extends engines c r regex =
    IfOk-elim (Extends c []) _ _ (first_refused engines.regex_valid r.values) refl (λ v. tt)
index_as-Extends engines c r (unknown_type t) = tt

Extends-more :
    (c c' : Classifier) (here more : List (Text × Rule)) (r : Result RuleError Classifier)
    → Extends c here c'
    → IfOk (Extends c' more) r
    → IfOk (Extends c (here ++ more)) r
Extends-more c c' here more (ok after) h h' =
    h' ∙ ap (λ t. insert_all t more) h ∙ sym (insert_all-append c.prefix_trie here more)
Extends-more c c' here more (err e) h h' = tt

index_rules-Extends :
    (engines : Engines) (c : Classifier) (rules : List Rule)
    → IfOk (Extends c (prefixes_of engines rules)) (index_rules engines c rules)
unfolding index_rules insert_all
index_rules-Extends engines c [] = refl
index_rules-Extends engines c (r ∷ rules) =
    if_ind (IfOk (Extends c (prefixes_of engines (r ∷ rules)))) (is_empty r.values) tt (
      IfOk-bind (Extends c here) (Extends c (here ++ prefixes_of engines rules))
        (index_as engines c rated rated.pattern_type) (λ c'. index_rules engines c' rules)
        (index_as-Extends engines c rated rated.pattern_type)
        (λ c' h.
          Extends-more c c' here (prefixes_of engines rules) (index_rules engines c' rules) h
            (index_rules-Extends engines c' rules)))
  where
    rated : Rule
    rated = with_confidence engines r

    here : List (Text × Rule)
    here = prefixes_as rated rated.pattern_type

-- A classifier that `New` returns decides a path that is not empty, cleaned or not, by the longest
-- prefix pattern that the path starts with, and by the first rule of that pattern, unless a rule
-- names the last piece of the path exactly.
pub classify-prefix :
    (engines : Engines) (rules : List Rule) (c : Classifier) (p : Text) (r : Rule)
    → new_classifier engines rules ≡ ok c
    → (p == []) ≡ false
    → lookup (base_of p) c.exact_names ≡ none
    → best_prefix (first_rule (prefixes_of engines rules)) p ≡ some r
    → classify engines c p ≡ decision_for r
unfolding new_classifier classify
classify-prefix engines rules c p r made filled unnamed longest =
    rw (unnamed, filled, found, classify) refl
  where
    first : Classifier
    first = record empty_classifier { rules = set_confidences engines rules }

    indexed : c.prefix_trie ≡ insert_all leaf (prefixes_of engines rules)
    indexed =
        subst (IfOk (Extends first (prefixes_of engines rules))) made
          (index_rules-Extends engines first rules)

    found : longest_match c.prefix_trie p ≡ some r
    found =
        ap (λ t. longest_match t p) indexed
        ∙ longest_match-insert_all (prefixes_of engines rules) p
        ∙ longest
