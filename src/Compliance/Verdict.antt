-- ===== src/Compliance/Verdict.antt =====
-- internal/enrich/compliance/enricher.go: what the policy makes of the findings, and their counts.
use astinus.Base.Tests.{or_else}
use astinus.Base.{
  ℕ, suc, Bool, true, false, List, [], ◌∷◌, Option, none, some, Text, codes, text_eq, nat_eq, ◌==◌,
  if◌then◌else◌,
}
use astinus.Model.{ComponentFields, SubComponents, nil, cons, Component}
use astinus.Compliance.{Severity, ignored, medium, high, at_least, same_severity, Finding}
use astinus.Compliance.Policy.{SeverityRule, severity_of}

-- `findComponentByBOMRef` below the top level.
unfoldable pub find_below : SubComponents → Text → Option ComponentFields
find_below nil ref = none
find_below (cons f below next) ref =
    let inside = find_below below ref in
    let after = find_below next ref in if f.bom_ref == ref then some f else or_else inside after

unfoldable pub find_component_by_bom_ref : List Component → Text → Option ComponentFields
unfolding find_below
find_component_by_bom_ref [] ref = none
find_component_by_bom_ref (c ∷ comps) ref =
    let after = find_component_by_bom_ref comps ref in
    if c.bom_ref == ref then some c.fields else or_else (find_below c.sub_components ref) after

unfoldable pub component_for_finding : List Component → Finding → Option ComponentFields
unfolding find_component_by_bom_ref
component_for_finding comps f =
    if f.component == [] then none else find_component_by_bom_ref comps f.component

-- One round of the loop of `applyPolicy`: the finding with its rating, or nothing if it is ignored.
unfoldable pub apply_rule : List SeverityRule → List Component → Finding → Option Finding
unfolding component_for_finding
apply_rule rules comps f = elim (severity_of rules f.rule_id (component_for_finding comps f)) [
  | none ↦ some f
  | some rated ↦
      if same_severity rated.0 ignored then none else some (record f { severity = rated.0 })
]

abbrev pub collect : Option Finding → List Finding × ℕ → List Finding × ℕ
collect none (out, dropped) = (out, suc dropped)
collect (some f) (out, dropped) = (f ∷ out, dropped)

-- `applyPolicy`: the findings that count, and how many were ignored. The policy is never nil.
unfoldable pub apply_policy : List SeverityRule → List Component → List Finding → List Finding × ℕ
unfolding apply_rule
apply_policy rules comps [] = ([], 0)
apply_policy rules comps (f ∷ raw) =
    collect (apply_rule rules comps f) (apply_policy rules comps raw)

unfoldable pub count_severity : List Finding → Severity → ℕ
count_severity [] s = 0
count_severity (f ∷ fs) s =
    let n = count_severity fs s in if same_severity f.severity s then suc n else n

unfoldable pub count_actionable : List Finding → ℕ
count_actionable [] = 0
count_actionable (f ∷ fs) =
    let n = count_actionable fs in if at_least f.severity medium then suc n else n

unfoldable pub has_failure : List Finding → Bool
has_failure [] = false
has_failure (f ∷ fs) = let rest = has_failure fs in if at_least f.severity high then true else rest

unfoldable pub status_for : List Finding → Text
unfolding has_failure
status_for [] = codes "passed"
status_for (f ∷ fs) = if has_failure (f ∷ fs) then codes "failed" else codes "passed-with-warnings"
