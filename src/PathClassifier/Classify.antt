-- ===== src/PathClassifier/Classify.antt =====
-- internal/enrich/untracked/pathclassifier: rule.go, classifier.go and the rule lists of loader.go.
-- Glob and regular expressions are engines of their own: what they accept as a pattern and what they
-- match are parameters. A confidence is a whole number, of which `full` is 1.0.
use mathlib.Core.List.{reverse}
use astinus.Base.Tests.{or_else}
use astinus.Base.{
  ℕ, suc, Bool, true, false, ◌||◌, not, List, [], ◌∷◌, ◌++◌, Option, none, some, Text, codes,
  text_eq, nat_eq, ◌==◌, if◌then◌else◌, contains, Result, ok, err, ◌>>=◌,
}
use astinus.Base.Dict.{Dict, lookup, insert}
use astinus.Base.Paths.{base_of}
use astinus.PathClassifier.Trie.{Trie, leaf, insert_pattern, longest_match}

pub data PatternType : Type 0 where
  prefix_pattern : PatternType
  suffix_pattern : PatternType
  filename_exact : PatternType
  glob : PatternType
  regex : PatternType
  unknown_type : Text → PatternType

pub record Rule : Type 0 where
  pub name : Text
  pub description : Text
  pub action : Text
  pub pattern_type : PatternType
  pub values : List Text
  pub rationale : Text
  pub confidence : ℕ
  pub applies_to : List Text

pub record Decision : Type 0 where
  pub action : Text
  pub rule_name : Text
  pub reason : Text
  pub confidence : ℕ

-- What `filepath.Match`, `regexp.Compile` and `MatchString` answer, and the value of 1.0.
pub record Engines : Type 0 where
  pub glob_valid : Text → Bool
  pub glob_match : Text → Text → Bool
  pub regex_valid : Text → Bool
  pub regex_match : Text → Text → Bool
  pub full : ℕ

pub data RuleError : Type 0 where
  empty_values : Text → RuleError
  invalid_glob : Text → Text → RuleError
  invalid_regex : Text → Text → RuleError
  unknown_pattern_type : Text → Text → RuleError

pub record Classifier : Type 0 where
  pub rules : List Rule
  pub prefix_trie : Trie Rule
  pub suffix_trie : Trie Rule
  pub exact_names : Dict Text Rule
  pub glob_rules : List Rule
  pub regex_rules : List Rule

abbrev pub empty_classifier : Classifier
empty_classifier = record {
  rules = [];
  prefix_trie = leaf;
  suffix_trie = leaf;
  exact_names = [];
  glob_rules = [];
  regex_rules = [];
}

unfoldable pub insert_prefixes : Trie Rule → List Text → Rule → Trie Rule
insert_prefixes t [] r = t
insert_prefixes t (v ∷ values) r = insert_prefixes (insert_pattern t v r) values r

unfoldable pub insert_suffixes : Trie Rule → List Text → Rule → Trie Rule
insert_suffixes t [] r = t
insert_suffixes t (v ∷ values) r = insert_suffixes (insert_pattern t (reverse v) r) values r

abbrev pub keep_name : Option Rule → Text → Rule → Dict Text Rule → Dict Text Rule
keep_name none v r names = insert v r names
keep_name (some old) v r names = names

unfoldable pub insert_names : Dict Text Rule → List Text → Rule → Dict Text Rule
insert_names names [] r = names
insert_names names (v ∷ values) r = insert_names (keep_name (lookup v names) v r names) values r

-- The first value that the test refuses.
unfoldable pub first_refused : (Text → Bool) → List Text → Option Text
first_refused valid [] = none
first_refused valid (v ∷ values) =
    let rest = first_refused valid values in if valid v then rest else some v

-- The cases of `indexRule`.
unfoldable pub index_as : Engines → Classifier → Rule → PatternType → Result RuleError Classifier
unfolding insert_prefixes insert_suffixes insert_names first_refused
index_as engines c r prefix_pattern =
    ok (record c { prefix_trie = insert_prefixes c.prefix_trie r.values r })
index_as engines c r suffix_pattern =
    ok (record c { suffix_trie = insert_suffixes c.suffix_trie r.values r })
index_as engines c r filename_exact =
    ok (record c { exact_names = insert_names c.exact_names r.values r })
index_as engines c r glob = elim (first_refused engines.glob_valid r.values) [
  | none ↦ ok (record c { glob_rules = c.glob_rules ++ r ∷ [] })
  | some v ↦ err (invalid_glob r.name v)
]
index_as engines c r regex = elim (first_refused engines.regex_valid r.values) [
  | none ↦ ok (record c { regex_rules = c.regex_rules ++ r ∷ [] })
  | some v ↦ err (invalid_regex r.name v)
]
index_as engines c r (unknown_type t) = err (unknown_pattern_type r.name t)

-- `indexRule`
abbrev pub index_rule : Engines → Classifier → Rule → Result RuleError Classifier
index_rule engines c r = index_as engines c r r.pattern_type

abbrev pub with_confidence : Engines → Rule → Rule
with_confidence engines r = if r.confidence == 0 then record r { confidence = engines.full } else r

abbrev pub is_empty : List Text → Bool
is_empty [] = true
is_empty (v ∷ values) = false

-- The loop of `New`.
unfoldable pub index_rules : Engines → Classifier → List Rule → Result RuleError Classifier
unfolding index_as
index_rules engines c [] = ok c
index_rules engines c (r ∷ rules) =
    if is_empty r.values
    then err (empty_values r.name)
    else index_rule engines c (with_confidence engines r) >>= λ c'. index_rules engines c' rules

unfoldable pub set_confidences : Engines → List Rule → List Rule
set_confidences engines [] = []
set_confidences engines (r ∷ rules) = with_confidence engines r ∷ set_confidences engines rules

-- `New`
unfoldable pub new_classifier : Engines → List Rule → Result RuleError Classifier
unfolding index_rules set_confidences
new_classifier engines rules =
    index_rules engines (record empty_classifier { rules = set_confidences engines rules }) rules

abbrev pub decision_for : Rule → Decision
decision_for r = record {
  action = r.action;
  rule_name = r.name;
  reason = r.rationale;
  confidence = r.confidence;
}

abbrev pub no_decision : Decision
no_decision = record { action = []; rule_name = []; reason = []; confidence = 0 }

unfoldable pub any_matches : (Text → Text → Bool) → List Text → Text → Bool
any_matches matches [] p = false
any_matches matches (v ∷ values) p =
    let rest = any_matches matches values p in if matches v p then true else rest

-- The loops of `matchGlob` and of `matchRegex`: the first rule with a pattern that matches.
unfoldable pub first_matching : (Text → Text → Bool) → List Rule → Text → Option Rule
unfolding any_matches
first_matching matches [] p = none
first_matching matches (r ∷ rules) p =
    let rest = first_matching matches rules p in
    if any_matches matches r.values p then some r else rest

abbrev pub decide : Option Rule → Decision
decide none = no_decision
decide (some r) = decision_for r

-- `Classify`
unfoldable pub classify : Engines → Classifier → Text → Decision
unfolding first_matching longest_match base_of
classify engines c p =
    if p == []
    then no_decision
    else decide (
        or_else (lookup (base_of p) c.exact_names) (
          or_else (longest_match c.prefix_trie p) (
            or_else (longest_match c.suffix_trie (reverse p)) (
              or_else (first_matching engines.glob_match c.glob_rules p)
                (first_matching engines.regex_match c.regex_rules p)))))

-- `Merge`: the custom rule of each name, the last one of the name being the override.
unfoldable pub last_named : List Rule → Text → Option Rule
last_named [] n = none
last_named (r ∷ custom) n =
    let rest = last_named custom n in or_else rest (if r.name == n then some r else none)

unfoldable pub override_all : List Rule → List Rule → List Rule
override_all custom [] = []
override_all custom (d ∷ defaults) =
    elim (last_named custom d.name) [ none ↦ d | some c ↦ c ] ∷ override_all custom defaults

abbrev pub rule_names : List Rule → List Text
rule_names [] = []
rule_names (r ∷ rules) = r.name ∷ rule_names rules

-- The custom rules whose name no default has.
unfoldable pub unused : List Text → List Rule → List Rule
unused names [] = []
unused names (c ∷ custom) =
    let rest = unused names custom in if contains names c.name then rest else c ∷ rest

unfoldable pub merge_rules : List Rule → List Rule → List Rule
unfolding last_named override_all unused
merge_rules defaults custom = override_all custom defaults ++ unused (rule_names defaults) custom

pub data LoadError : Type 0 where
  no_name : ℕ → LoadError
  duplicate_rule : Text → LoadError
  unknown_action : Text → Text → LoadError

unfoldable pub known_action : Text → Bool
known_action a =
    a == codes "skip"
    || a == codes "redundant_under_archive"
    || a == codes "mark_as_noise"
    || a == codes "mark_as_redundant"

-- `validateRules`, from the rule of number `i` on; its error, if there is one.
unfoldable pub validate_rules : List Text → ℕ → List Rule → Option LoadError
unfolding known_action
validate_rules seen i [] = none
validate_rules seen i (r ∷ rules) =
    let rest = validate_rules (r.name ∷ seen) (suc i) rules in
    if r.name == []
    then some (no_name i)
    else if contains seen r.name
    then some (duplicate_rule r.name)
    else if not (known_action r.action)
    then some (unknown_action r.name r.action)
    else rest
