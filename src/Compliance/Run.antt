-- ===== src/Compliance/Run.antt =====
-- internal/enrich/compliance/enricher.go: `Enrich` and `Findings`. A validator only reads the SBOM.
use astinus.Base.{List, [], ◌∷◌, ◌++◌, Option, none, some, Text, codes, text_eq, Result, ok, err}
use astinus.Base.Dict.{Dict, insert}
use astinus.Model.{Sbom}
use astinus.Compliance.{Finding}
use astinus.Compliance.Policy.{SeverityRule}
use astinus.Compliance.Verdict.{apply_policy, status_for}
use astinus.Compliance.Stamp.{stamp_verdict, stamp_per_component}

pub record Validator : Type 0 where
  pub name : Text
  pub validate : Sbom → Result Text (List Finding)

-- `validatorRun`: the findings, or nothing where the validator failed.
abbrev pub ValidatorRun : Type 0
ValidatorRun = Option (List Finding)

abbrev pub run_of : Result Text (List Finding) → ValidatorRun
run_of (ok findings) = some findings
run_of (err e) = none

-- The loop over the validators: the runs by name, and all findings.
unfoldable pub run_validators :
    List Validator
    → Sbom
    → Dict Text ValidatorRun
    → List Finding
    → Dict Text ValidatorRun × List Finding
run_validators [] sbom runs raw = (runs, raw)
run_validators (v ∷ validators) sbom runs raw = elim (v.validate sbom) [
  | err e ↦ run_validators validators sbom (insert v.name none runs) raw
  | ok findings ↦
      run_validators validators sbom (insert v.name (some findings) runs) (raw ++ findings)
]

abbrev pub status_of : List SeverityRule → Sbom → ValidatorRun → Text
status_of rules sbom none = codes "errored"
status_of rules sbom (some findings) = status_for (apply_policy rules sbom.components findings).0

unfoldable pub statuses_of : List SeverityRule → Sbom → Dict Text ValidatorRun → Dict Text Text
statuses_of rules sbom [] = []
statuses_of rules sbom ((name, r) ∷ runs) =
    (name, status_of rules sbom r) ∷ statuses_of rules sbom runs

unfoldable pub enrich_compliance : List Validator → List SeverityRule → Sbom → Sbom
unfolding run_validators statuses_of
enrich_compliance validators rules sbom =
    let (runs, raw) = run_validators validators sbom [] [] in
    let (all, dropped) = apply_policy rules sbom.components raw in
    let stamped = stamp_verdict (statuses_of rules sbom runs) all sbom in
    record stamped { components = stamp_per_component all stamped.components }

-- `Findings`, which cli/enrich.go calls with the SBOM that `Enrich` has changed.
unfoldable pub findings : List Validator → List SeverityRule → Sbom → List Finding
unfolding run_validators
findings validators rules sbom =
    (apply_policy rules sbom.components (run_validators validators sbom [] []).1).0
