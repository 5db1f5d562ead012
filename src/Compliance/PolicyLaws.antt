-- ===== src/Compliance/PolicyLaws.antt =====
-- How the rules of a policy rate: the last that applies wins.
use astinus.Base.Tests.{or_else}
use astinus.Base.{
  ◌≡◌, refl, ◌∙◌, sym, ap, inl, inr, List, [], ◌∷◌, ◌++◌, Option, none, some, Text, text_eq, nat_eq,
  Bool-cases,
}
use astinus.Model.{ComponentFields}
use astinus.Compliance.{Severity}
use astinus.Compliance.Policy.{
  SeverityRule, component_context, applies, rate, severity_of, with_overrides,
}

rate-append :
    (id : Text) (context : Text × Text) (rules more : List SeverityRule)
    (best : Option (Severity × Text))
    → rate id context (rules ++ more) best ≡ rate id context more (rate id context rules best)
unfolding rate
rate-append id context [] more best = refl
rate-append id context (r ∷ rules) more best = rate-append id context rules more _

or_else-some {ℓ} :
    {A : Type ℓ} (o : Option A) (a : A) (best : Option A)
    → or_else (or_else o (some a)) best ≡ or_else o (some a)
or_else-some none a best = refl
or_else-some (some x) a best = refl

rate-best :
    (id : Text) (context : Text × Text) (rules : List SeverityRule)
    (best : Option (Severity × Text))
    → rate id context rules best ≡ or_else (rate id context rules none) best
unfolding rate
rate-best id context [] best = refl
rate-best id context (r ∷ rules) best =
    let rated = rate-best id context rules (some (r.severity, r.reason)) in
    elim (Bool-cases (applies id context r)) [
      | inl applied ↦ rw (applied) (
          rated
          ∙ sym (or_else-some (rate id context rules none) (r.severity, r.reason) best)
          ∙ sym (ap (λ o. or_else o best) rated))
      | inr passed ↦ rw (passed) (rate-best id context rules best)
    ]

-- A rating that the overrides give stands; where they give none, the policy's own stands.
pub severity_of-with_overrides :
    (rules overrides : List SeverityRule) (id : Text) (c : Option ComponentFields)
    → severity_of (with_overrides rules overrides) id c
      ≡ or_else (severity_of overrides id c) (severity_of rules id c)
unfolding severity_of
severity_of-with_overrides rules overrides id c =
    rate-append id (component_context c) rules overrides none
    ∙ rate-best id (component_context c) overrides (rate id (component_context c) rules none)
