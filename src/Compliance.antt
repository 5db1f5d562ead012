-- ===== src/Compliance.antt =====
-- internal/policy/finding.go: severities and findings; the children are the severity policy of
-- internal/policy/builtin/compliance and the enricher of internal/enrich/compliance.
pub mod Policy
pub mod Rules
pub mod Verdict
pub mod Stamp
pub mod Run
pub mod PolicyLaws
pub mod VerdictLaws
pub mod StampLaws
mod Tests
use astinus.Base.{
  ℕ, ◌≡◌, refl, Bool, true, false, ◌||◌, List, [], Text, codes, text_eq, ◌==◌, if◌then◌else◌, leb,
  nat_eq,
}

pub data Severity : Type 0 where
  ignored : Severity
  info : Severity
  low : Severity
  medium : Severity
  high : Severity
  critical : Severity

-- The `int` of a severity plus one, since that of `ignored` is -1.
abbrev pub rank : Severity → ℕ
rank ignored = 0
rank info = 1
rank low = 2
rank medium = 3
rank high = 4
rank critical = 5

-- `AtLeast`
abbrev pub at_least : Severity → Severity → Bool
at_least s floor = leb (rank floor) (rank s)

-- `==` on severities.
abbrev pub same_severity : Severity → Severity → Bool
same_severity s t = rank s == rank t

-- `String`
unfoldable pub severity_text : Severity → Text
severity_text critical = codes "critical"
severity_text high = codes "high"
severity_text medium = codes "medium"
severity_text low = codes "low"
severity_text ignored = codes "ignored"
severity_text info = codes "info"

unfoldable pub parse_severity : Text → Severity × Bool
parse_severity s =
    if s == codes "critical"
    then (critical, true)
    else if s == codes "high"
    then (high, true)
    else if s == codes "medium"
    then (medium, true)
    else if s == codes "low"
    then (low, true)
    else if s == codes "info" || s == []
    then (info, true)
    else if s == codes "ignored"
    then (ignored, true)
    else (info, false)

pub record Finding : Type 0 where
  pub severity : Severity
  pub rule_id : Text
  pub component : Text
  pub message : Text
  pub reference : Text

-- Parsing what `String` prints gives the severity back.
parse_severity-severity_text : (s : Severity) → parse_severity (severity_text s) ≡ (s, true)
unfolding parse_severity severity_text
parse_severity-severity_text critical = refl
parse_severity-severity_text high = refl
parse_severity-severity_text medium = refl
parse_severity-severity_text low = refl
parse_severity-severity_text info = refl
parse_severity-severity_text ignored = refl
