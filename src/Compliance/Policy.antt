-- ===== src/Compliance/Policy.antt =====
-- internal/policy/builtin/compliance/severity_policy.go: the rules that rate a finding.
use astinus.Base.{
  ℕ, Bool, ◌&&◌, ◌||◌, List, [], ◌∷◌, ◌++◌, Option, none, some, Text, codes, text_eq, nat_eq, ◌==◌,
  if◌then◌else◌,
}
use astinus.Base.Strings.{to_lower, cut_prefix, before_any}
use astinus.Model.{ComponentFields}
use astinus.Compliance.{Severity}

pub record SeverityRule : Type 0 where
  pub rule_id : Text
  pub component_type : Text
  pub ecosystem : Text
  pub severity : Severity
  pub reason : Text

-- `strings.IndexAny(rest, "/@?#")`
abbrev pub ends_ecosystem : ℕ → Bool
ends_ecosystem c = c == b'/' || c == b'@' || c == b'?' || c == b'#'

unfoldable pub ecosystem_from_purl : Text → Text
ecosystem_from_purl purl = if purl == [] then [] else elim (cut_prefix purl (codes "pkg:")) [
  | none ↦ []
  | some rest ↦ elim (before_any ends_ecosystem rest) [
    | none ↦ to_lower rest
    | some type ↦ to_lower type
  ]
]

-- The type and the ecosystem of a component, empty without one.
unfoldable pub component_context : Option ComponentFields → Text × Text
unfolding ecosystem_from_purl
component_context none = ([], [])
component_context (some c) = (c.type, ecosystem_from_purl c.purl)

-- The three guards of the loop of `Severity`.
abbrev pub applies : Text → Text × Text → SeverityRule → Bool
applies rule_id (type, ecosystem) r =
    r.rule_id == rule_id
    && (r.component_type == [] || r.component_type == type)
    && (r.ecosystem == [] || r.ecosystem == ecosystem)

-- The loop, with the best rating so far.
unfoldable pub rate :
    Text → Text × Text → List SeverityRule → Option (Severity × Text) → Option (Severity × Text)
rate rule_id context [] best = best
rate rule_id context (r ∷ rules) best =
    rate rule_id context rules
      (if applies rule_id context r then some (r.severity, r.reason) else best)

-- `Severity`: its rating and reason, or nothing where no rule matched. The policy is its rules.
unfoldable pub severity_of :
    List SeverityRule → Text → Option ComponentFields → Option (Severity × Text)
unfolding rate component_context
severity_of rules rule_id c = rate rule_id (component_context c) rules none

-- `WithOverrides`
abbrev pub with_overrides : List SeverityRule → List SeverityRule → List SeverityRule
with_overrides rules overrides = rules ++ overrides
