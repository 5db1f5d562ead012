-- ===== src/Compliance/VerdictLaws.antt =====
-- What the verdict on the findings promises.
use astinus.Base.{
  ℕ, suc, ◌+◌, ◌≤◌, ◌≡◌, ◌≢◌, refl, ◌∙◌, ap, ◌↔◌, inl, inr, true, false, List, [], ◌∷◌, Option,
  none, some, arith, Text, codes, text_eq, nat_eq, ==_differ, Bool-cases, Option-cases, length,
}
use astinus.Model.{Component}
use astinus.Compliance.{
  Severity, ignored, info, low, medium, high, critical, rank, same_severity, Finding,
}
use astinus.Compliance.Policy.{SeverityRule, severity_of}
use astinus.Compliance.Verdict.{
  component_for_finding, apply_rule, apply_policy, count_severity, count_actionable, has_failure,
  status_for,
}

rank-le : (s : Severity) → rank s ≤ 5
rank-le ignored = omega arith
rank-le info = omega arith
rank-le low = omega arith
rank-le medium = omega arith
rank-le high = omega arith
rank-le critical = omega arith

-- The counts of the severities add up to the number of findings.
count_severity-total :
    (fs : List Finding)
    → count_severity fs ignored
        + count_severity fs info
        + count_severity fs low
        + count_severity fs medium
        + count_severity fs high
        + count_severity fs critical
      ≡ length fs
unfolding count_severity
count_severity-total [] = refl
count_severity-total (f ∷ fs) = ground (arith, rank-le f.severity, count_severity-total fs)

-- The actionable findings are the medium, the high and the critical ones.
pub count_actionable-sum :
    (fs : List Finding)
    → count_actionable fs
      ≡ count_severity fs medium + count_severity fs high + count_severity fs critical
unfolding count_actionable count_severity
count_actionable-sum [] = refl
count_actionable-sum (f ∷ fs) = ground (arith, rank-le f.severity, count_actionable-sum fs)

has_failure_iff :
    (fs : List Finding)
    → (has_failure fs ≡ true) ↔ (1 ≤ count_severity fs high + count_severity fs critical)
unfolding has_failure count_severity
has_failure_iff [] = ground arith
has_failure_iff (f ∷ fs) = ground (arith, rank-le f.severity, has_failure_iff fs)

-- The status fails exactly on a high or critical finding, and passes exactly without findings.
pub status_for-counts :
    (fs : List Finding)
    → ((status_for fs ≡ codes "failed") ↔ (1 ≤ count_severity fs high + count_severity fs critical))
      × ((status_for fs ≡ codes "passed") ↔ (fs ≡ []))
unfolding status_for
status_for-counts [] = (
  (
    λ h. absurd (==_differ (codes "passed") (codes "failed") refl h),
    λ h. absurd (omega (arith, h, none_of high, none_of critical)),
  ),
  (λ h. refl, λ h. refl),
)
  where
    none_of : (s : Severity) → count_severity [] s ≡ 0
    none_of s = unfold count_severity in refl
status_for-counts (f ∷ fs) = elim (Bool-cases (has_failure (f ∷ fs))) [
  | inl failed ↦
      rw (failed, status_for)
        (
          (λ h. (has_failure_iff (f ∷ fs)).0 failed, λ h. refl),
          (λ h. absurd (==_differ (codes "failed") (codes "passed") refl h), λ h. absurd (cc h)),
        )
  | inr fine ↦
      rw (fine, status_for)
        (
          (
            λ h. absurd (==_differ (codes "passed-with-warnings") (codes "failed") refl h),
            λ h. absurd (cc (fine, (has_failure_iff (f ∷ fs)).1 h)),
          ),
          (
            λ h. absurd (==_differ (codes "passed-with-warnings") (codes "passed") refl h),
            λ h. absurd (cc h),
          ),
        )
]

-- What the policy says of a finding: the severity, if a rule rates it.
abbrev pub rating : List SeverityRule → List Component → Finding → Option (Severity × Text)
rating rules comps f = severity_of rules f.rule_id (component_for_finding comps f)

-- What a verdict on the findings has to be, one finding after the other: the findings that no rule
-- rates as they are, those that a rule rates with its severity in place of theirs, none that a rule
-- ignores, and the number of those.
pub data IsVerdict (rules : List SeverityRule) (comps : List Component)
    : List Finding → List Finding × ℕ → Type 0 where
  no_findings : IsVerdict rules comps [] ([], 0)
  unrated :
      {f : Finding} {raw out : List Finding} {dropped : ℕ}
      → rating rules comps f ≡ none
      → IsVerdict rules comps raw (out, dropped)
      → IsVerdict rules comps (f ∷ raw) (f ∷ out, dropped)
  rated :
      {f : Finding} {raw out : List Finding} {dropped : ℕ} (s : Severity) (reason : Text)
      → rating rules comps f ≡ some (s, reason)
      → s ≢ ignored
      → IsVerdict rules comps raw (out, dropped)
      → IsVerdict rules comps (f ∷ raw) (record f { severity = s } ∷ out, dropped)
  left_out :
      {f : Finding} {raw out : List Finding} {dropped : ℕ} (reason : Text)
      → rating rules comps f ≡ some (ignored, reason)
      → IsVerdict rules comps raw (out, dropped)
      → IsVerdict rules comps (f ∷ raw) (out, suc dropped)

not_ignored : (s : Severity) → same_severity s ignored ≡ false → s ≢ ignored
not_ignored s h e = absurd (cc (h, ap (λ t. same_severity t ignored) e))

same_severity-ignored : (s : Severity) → same_severity s ignored ≡ true → s ≡ ignored
same_severity-ignored ignored h = refl
same_severity-ignored info h = absurd (cc h)
same_severity-ignored low h = absurd (cc h)
same_severity-ignored medium h = absurd (cc h)
same_severity-ignored high h = absurd (cc h)
same_severity-ignored critical h = absurd (cc h)

-- The policy goes through the findings in order: it keeps a finding that no rule rates as it is, it
-- replaces the severity of one that a rule rates and nothing else of it, and it leaves out and counts
-- exactly those that a rule rates as ignored.
pub apply_policy-IsVerdict :
    (rules : List SeverityRule) (comps : List Component) (raw : List Finding)
    → IsVerdict rules comps raw (apply_policy rules comps raw)
unfolding apply_policy apply_rule
apply_policy-IsVerdict rules comps [] = no_findings
apply_policy-IsVerdict rules comps (f ∷ raw) =
    let rest = apply_policy-IsVerdict rules comps raw in
    elim (Option-cases (rating rules comps f)) [
      | inl e ↦ rw (e, apply_rule) (unrated e rest)
      | inr ((s, reason), e) ↦ elim (Bool-cases (same_severity s ignored)) [
        | inl drop ↦
            let e' = e ∙ ap (λ t. some (t, reason)) (same_severity-ignored s drop) in
            rw (e, drop, apply_rule) (left_out reason e' rest)
        | inr keep ↦ rw (e, keep, apply_rule) (rated s reason e (not_ignored s keep) rest)
      ]
    ]
