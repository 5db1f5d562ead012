-- ===== src/PathClassifier/Tests.antt =====
-- A small rule set, and the theorems at it.
use astinus.Base.{
  ℕ, ◌≡◌, refl, true, false, List, [], ◌∷◌, map, none, some, Text, codes, text_eq, nat_eq, ◌==◌, ok,
}
use astinus.Base.Dict.{lookup, insert}
use astinus.Base.Paths.{base_of, split_slash, last_filled}
use astinus.PathClassifier.Trie.{
  leaf, branch, insert_at, insert_pattern, walk_trie, longest_match, insert_all,
}
use astinus.PathClassifier.TrieLaws.{best_prefix, first_rule, longest_match-insert_all}
use astinus.PathClassifier.Classify.{
  PatternType, prefix_pattern, suffix_pattern, filename_exact, glob, Rule, Engines, Classifier,
  insert_prefixes, insert_suffixes, insert_names, index_as, index_rules, set_confidences,
  new_classifier, decision_for, classify, merge_rules, validate_rules, last_named, override_all,
  unused, known_action, first_refused, first_matching,
}
use astinus.PathClassifier.MergeLaws.{validate_rules-merge_rules}
use astinus.PathClassifier.Laws.{classify-prefix}

classifying : Unit {0}
unfolding longest_match insert_all insert_pattern insert_at branch walk_trie new_classifier classify
    merge_rules validate_rules base_of split_slash last_filled lookup insert first_refused
    first_matching insert_prefixes insert_suffixes insert_names index_as index_rules set_confidences
    last_named override_all unused known_action
classifying = tt

abbrev patterns : List (Text × ℕ)
patterns = (codes "/usr", 1) ∷ (codes "/usr/lib", 2) ∷ ([], 3) ∷ (codes "/usr", 4) ∷ []

run_trie :
    (longest_match (insert_all leaf patterns) (codes "/usr/lib64") ≡ some 2)
    × (longest_match (insert_all leaf patterns) (codes "/usr/li") ≡ some 1)
    × (longest_match (insert_all leaf patterns) (codes "/us") ≡ none)
unfolding classifying
run_trie = (refl, refl, refl)

longest_match-insert_all_example :
    longest_match (insert_all leaf patterns) (codes "/usr/lib64")
    ≡ best_prefix (first_rule patterns) (codes "/usr/lib64")
longest_match-insert_all_example = longest_match-insert_all patterns (codes "/usr/lib64")

abbrev rule : Text → PatternType → List Text → Rule
rule name type values = record {
  name = name;
  description = [];
  action = codes "skip";
  pattern_type = type;
  values = values;
  rationale = [];
  confidence = 0;
  applies_to = [];
}

abbrev engines : Engines
engines = record {
  glob_valid = λ v. true;
  glob_match = λ v p. v == p;
  regex_valid = λ v. true;
  regex_match = λ v p. false;
  full = 100;
}

abbrev rules : List Rule
rules =
    rule (codes "docs") prefix_pattern (codes "/usr/share/doc" ∷ codes "/usr/share/man" ∷ [])
    ∷ rule (codes "bytecode") suffix_pattern (codes ".pyc" ∷ [])
    ∷ rule (codes "hosts") filename_exact (codes "hosts" ∷ [])
    ∷ rule (codes "share") prefix_pattern (codes "/usr/share" ∷ [])
    ∷ []

abbrev rated : Text → PatternType → List Text → Rule
rated name type values = record (rule name type values) { confidence = 100 }

abbrev share : Rule
share = rated (codes "share") prefix_pattern (codes "/usr/share" ∷ [])

abbrev docs : Rule
docs = rated (codes "docs") prefix_pattern (codes "/usr/share/doc" ∷ codes "/usr/share/man" ∷ [])

abbrev indexed : Classifier
indexed = record {
  rules =
      docs
      ∷ rated (codes "bytecode") suffix_pattern (codes ".pyc" ∷ [])
      ∷ rated (codes "hosts") filename_exact (codes "hosts" ∷ [])
      ∷ share
      ∷ [];
  prefix_trie =
      insert_pattern
        (insert_pattern (insert_pattern leaf (codes "/usr/share/doc") docs) (codes "/usr/share/man")
          docs)
        (codes "/usr/share") share;
  suffix_trie =
      insert_pattern leaf (codes "cyp.")
        (rated (codes "bytecode") suffix_pattern (codes ".pyc" ∷ []));
  exact_names = (codes "hosts", rated (codes "hosts") filename_exact (codes "hosts" ∷ [])) ∷ [];
  glob_rules = [];
  regex_rules = [];
}

new-indexed : new_classifier engines rules ≡ ok indexed
unfolding classifying
new-indexed = refl

run_classify : (classify engines indexed (codes "/usr/share/doc/hosts")).rule_name ≡ codes "hosts"
unfolding classifying
run_classify = refl

-- A slash at the end does not hide the name.
run_classify_slash :
    (classify engines indexed (codes "/usr/share/doc/hosts/")).rule_name ≡ codes "hosts"
unfolding classifying
run_classify_slash = refl

run_merge :
    map
      (λ r. r.name)
      (merge_rules rules (rule (codes "share") glob [] ∷ rule (codes "mine") glob [] ∷ []))
    ≡ codes "docs" ∷ codes "bytecode" ∷ codes "hosts" ∷ codes "share" ∷ codes "mine" ∷ []
unfolding classifying
run_merge = refl

classify-prefix_example :
    classify engines indexed (codes "/usr/share/icons/x.pyc") ≡ decision_for share
classify-prefix_example =
    classify-prefix engines rules indexed (codes "/usr/share/icons/x.pyc") share new-indexed refl
      unnamed refl
  where
    unnamed : lookup (base_of (codes "/usr/share/icons/x.pyc")) indexed.exact_names ≡ none
    unnamed = unfold classifying in refl

abbrev custom : List Rule
custom = rule (codes "share") glob [] ∷ rule (codes "mine") glob [] ∷ []

validate_rules-merge_rules_example : validate_rules [] 0 (merge_rules rules custom) ≡ none
validate_rules-merge_rules_example =
    validate_rules-merge_rules rules custom (unfold classifying in refl)
      (unfold classifying in refl)
