-- ===== src/Validators/Config.antt =====
-- internal/policy/builtin/compliance/severity_config.go: the operator's overrides of the severity policy.
-- Reading YAML is a parameter.
use mathlib.Core.Path.{subst}
use astinus.Base.{
  ℕ, suc, ◌+◌, ◌≡◌, ◌≢◌, refl, sym, ap, ◌⊎◌, inl, inr, Bool, true, ◌||◌, List, [], ◌∷◌, ◌++◌, arith,
  Text, codes, text_eq, ◌==◌, ==_iff, if◌then◌else◌, Bool-cases, length, All, Result, ok, err,
  ◌>>=◌,
}
use astinus.Compliance.{Severity, critical, high, medium, low, info, ignored, parse_severity}
use astinus.Compliance.Policy.{SeverityRule, with_overrides}
use astinus.Validators.Laws.{filled_iff}
use astinus.Compliance.Rules.{default_rules}

pub record SeverityOverride : Type 0 where
  pub rule_id : Text
  pub component_type : Text
  pub ecosystem : Text
  pub severity : Text
  pub reason : Text

-- The error of an entry, with its number; or that of reading the file or its YAML.
pub data ConfigError : Type 0 where
  unreadable : Text → ConfigError
  rule_id_required : ℕ → ConfigError
  unknown_severity : ℕ → Text → ConfigError

abbrev pub default_if_empty : Text → Text → Text
default_if_empty s fallback = if s == [] then fallback else s

abbrev pub rule_of : SeverityOverride → Severity → SeverityRule
rule_of o sev = record {
  rule_id = o.rule_id;
  component_type = o.component_type;
  ecosystem = o.ecosystem;
  severity = sev;
  reason = default_if_empty o.reason (codes "operator override via --compliance-config");
}

-- `convertOverrides`, from the entry of number `i` on.
unfoldable pub convert_overrides :
    ℕ → List SeverityOverride → Result ConfigError (List SeverityRule)
unfolding parse_severity
convert_overrides i [] = ok []
convert_overrides i (o ∷ overrides) =
    let rest = convert_overrides (suc i) overrides in
    let sev = parse_severity o.severity in
    if o.rule_id == []
    then err (rule_id_required i)
    else if sev.1
    then (rest >>= λ rules. ok (rule_of o sev.0 ∷ rules))
    else err (unknown_severity i o.severity)

module _ (parse_yaml : Text → Result ConfigError (List SeverityOverride)) where
  unfoldable pub load_severity_policy_from_bytes : Text → Result ConfigError (List SeverityRule)
  unfolding convert_overrides
  load_severity_policy_from_bytes body = do
    cfg ← parse_yaml body
    overrides ← convert_overrides 0 cfg
    ok (with_overrides default_rules overrides)

  unfoldable pub load_severity_policy_from_file :
      (Text → Result ConfigError Text) → Text → Result ConfigError (List SeverityRule)
  unfolding load_severity_policy_from_bytes
  load_severity_policy_from_file read_file path =
      if path == [] then ok default_rules else read_file path >>= load_severity_policy_from_bytes

-- The texts of a severity, the empty one being that of info.
pub data IsSeverity : Text → Severity → Type 0 where
  of_critical : IsSeverity (codes "critical") critical
  of_high : IsSeverity (codes "high") high
  of_medium : IsSeverity (codes "medium") medium
  of_low : IsSeverity (codes "low") low
  of_info : IsSeverity (codes "info") info
  of_empty : IsSeverity [] info
  of_ignored : IsSeverity (codes "ignored") ignored

IsSeverity-parsed : (t : Text) (s : Severity) → IsSeverity t s → parse_severity t ≡ (s, true)
unfolding parse_severity
IsSeverity-parsed _ _ of_critical = refl
IsSeverity-parsed _ _ of_high = refl
IsSeverity-parsed _ _ of_medium = refl
IsSeverity-parsed _ _ of_low = refl
IsSeverity-parsed _ _ of_info = refl
IsSeverity-parsed _ _ of_empty = refl
IsSeverity-parsed _ _ of_ignored = refl

-- A result that says that it is good is right.
abbrev IsRead : Text → Severity × Bool → Type 0
IsRead t r = r.1 ≡ true → IsSeverity t r.0

IsRead-if :
    (t u : Text) (s : Severity) (rest : Severity × Bool)
    → IsSeverity u s
    → IsRead t rest
    → IsRead t (if t == u then (s, true) else rest)
IsRead-if t u s rest p h = elim (Bool-cases (t == u)) [
  | inl same ↦ rw (same) (λ _. subst (λ x. IsSeverity x s) (sym ((==_iff t u).0 same)) p)
  | inr other ↦ rw (other) h
]

IsRead-if_either :
    (t u v : Text) (s : Severity) (rest : Severity × Bool)
    → IsSeverity u s
    → IsSeverity v s
    → IsRead t rest
    → IsRead t (if t == u || t == v then (s, true) else rest)
IsRead-if_either t u v s rest p q h = elim (Bool-cases (t == u)) [
  | inl same ↦ rw (same) (λ _. subst (λ x. IsSeverity x s) (sym ((==_iff t u).0 same)) p)
  | inr other ↦ rw (other) (IsRead-if t v s rest q h)
]

parse_severity-IsRead : (t : Text) → IsRead t (parse_severity t)
unfolding parse_severity
parse_severity-IsRead t = IsRead-if t (codes "critical") critical _ of_critical (
    IsRead-if t (codes "high") high _ of_high (
      IsRead-if t (codes "medium") medium _ of_medium (
        IsRead-if t (codes "low") low _ of_low (
          IsRead-if_either t (codes "info") [] info _ of_info of_empty
            (IsRead-if t (codes "ignored") ignored _ of_ignored (λ h. absurd (cc h)))))))

-- An entry with a rule and the text of a severity.
abbrev pub IsValid : SeverityOverride → Type 0
IsValid o = (o.rule_id ≢ []) × (s : Severity) × IsSeverity o.severity s

-- The reason of an entry, or the one that stands for none.
abbrev pub IsReason : Text → Text → Type 0
IsReason given out =
    ((given ≢ []) × (out ≡ given))
    ⊎ ((given ≡ []) × (out ≡ codes "operator override via --compliance-config"))

-- The rule that an entry asks for, field by field.
abbrev pub IsRuleOf : SeverityOverride → SeverityRule → Type 0
IsRuleOf o r =
    (r.rule_id ≡ o.rule_id)
    × (r.component_type ≡ o.component_type)
    × (r.ecosystem ≡ o.ecosystem)
    × IsSeverity o.severity r.severity
    × IsReason o.reason r.reason

-- As many rules as entries, each that of its entry.
abbrev pub AreRulesOf : List SeverityOverride → List SeverityRule → Type 0
AreRulesOf [] [] = Unit
AreRulesOf [] (r ∷ rules) = ⊥
AreRulesOf (o ∷ overrides) [] = ⊥
AreRulesOf (o ∷ overrides) (r ∷ rules) = IsRuleOf o r × AreRulesOf overrides rules

-- What is wrong with the entry of a number.
abbrev pub IsFault : ℕ → SeverityOverride → ConfigError → Type 0
IsFault i o e =
    ((o.rule_id ≡ []) × (e ≡ rule_id_required i))
    ⊎ ((o.rule_id ≢ [])
        × ((s : Severity) → ¬ (IsSeverity o.severity s))
        × (e ≡ unknown_severity i o.severity))

-- The conversion as a whole: all entries are valid and each becomes its rule, or the error is that
-- of the first that is not, by its number.
abbrev pub IsConverted : ℕ → List SeverityOverride → Result ConfigError (List SeverityRule) → Type 0
IsConverted i overrides r =
    (All IsValid overrides
      × (rules : List SeverityRule) × (r ≡ ok rules)
      × AreRulesOf overrides rules)
    ⊎ ((good : List SeverityOverride) × (bad : SeverityOverride) × (rest : List SeverityOverride)
        × (e : ConfigError) × (overrides ≡ good ++ (bad ∷ rest))
        × All IsValid good
        × IsFault (i + length good) bad e
        × (r ≡ err e))

bad_first :
    (i : ℕ) (o : SeverityOverride) (overrides : List SeverityOverride) (e : ConfigError)
    (r : Result ConfigError (List SeverityRule))
    → IsFault i o e
    → r ≡ err e
    → IsConverted i (o ∷ overrides) r
bad_first i o overrides e r fault h =
    inr ([], o, overrides, e, refl, tt, subst (λ n. IsFault n o e) (omega arith) fault, h)

good_first :
    (i : ℕ) (o : SeverityOverride) (overrides : List SeverityOverride) (rule : SeverityRule)
    (r : Result ConfigError (List SeverityRule))
    → IsValid o
    → IsRuleOf o rule
    → IsConverted (suc i) overrides r
    → IsConverted i (o ∷ overrides) (r >>= λ rules. ok (rule ∷ rules))
good_first i o overrides rule r valid made (inl (all_valid, rules, same, all_made)) =
    inl ((valid, all_valid), rule ∷ rules, rw (same) refl, (made, all_made))
good_first i o overrides rule r valid made
      (inr (good, bad, rest, e, split, all_valid, fault, failed)) =
    let same : suc i + length good ≡ i + length (o ∷ good) = omega arith in
    inr (
      o ∷ good,
      bad,
      rest,
      e,
      ap (λ os. o ∷ os) split,
      (valid, all_valid),
      subst (λ n. IsFault n bad e) same fault,
      rw (failed) refl,
    )

default_if_empty-IsReason :
    (given : Text)
    → IsReason given (default_if_empty given (codes "operator override via --compliance-config"))
default_if_empty-IsReason given = elim (Bool-cases (given == [])) [
  | inl empty ↦ rw (empty) (inr ((==_iff given []).0 empty, refl))
  | inr full ↦ rw (full) (inl ((filled_iff given).0 full, refl))
]

rule_of-IsRuleOf :
    (o : SeverityOverride)
    → (parse_severity o.severity).1 ≡ true
    → IsRuleOf o (rule_of o (parse_severity o.severity).0)
rule_of-IsRuleOf o known =
    (refl, refl, refl, parse_severity-IsRead o.severity known, default_if_empty-IsReason o.reason)

IsConverted-from : (i : ℕ) (os : List SeverityOverride) → IsConverted i os (convert_overrides i os)
unfolding convert_overrides
IsConverted-from i [] = inl (tt, [], refl, tt)
IsConverted-from i (o ∷ os) = elim (Bool-cases (o.rule_id == [])) [
  | inl missing ↦
      bad_first i o os (rule_id_required i) (convert_overrides i (o ∷ os))
        (inl ((==_iff o.rule_id []).0 missing, refl)) (rw (missing, convert_overrides) refl)
  | inr there ↦ elim (Bool-cases (parse_severity o.severity).1) [
    | inl known ↦
        let filled = (filled_iff o.rule_id).0 there in
        let read = parse_severity-IsRead o.severity known in
        rw (there, known, convert_overrides)
          (good_first i o os (rule_of o (parse_severity o.severity).0)
            (convert_overrides (suc i) os) (filled, (parse_severity o.severity).0, read)
            (rule_of-IsRuleOf o known) (IsConverted-from (suc i) os))
    | inr odd ↦
        bad_first i o os (unknown_severity i o.severity) (convert_overrides i (o ∷ os))
          (inr (
            (filled_iff o.rule_id).0 there,
            λ s p. absurd (cc (odd, ap (λ r. r.1) (IsSeverity-parsed o.severity s p))),
            refl,
          ))
          (rw (there, odd, convert_overrides) refl)
  ]
]

-- The overrides are converted as a whole: where each entry has a rule and the text of a severity,
-- the empty text being that of info, each becomes the rule with its own four fields and its reason,
-- or the reason that stands for none, in order; else no rule is returned but the error of the first
-- entry that lacks its rule or has another severity, with that entry's number.
pub convert_overrides-IsConverted :
    (overrides : List SeverityOverride) → IsConverted 0 overrides (convert_overrides 0 overrides)
convert_overrides-IsConverted overrides = IsConverted-from 0 overrides
