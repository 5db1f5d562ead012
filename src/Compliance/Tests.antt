-- ===== src/Compliance/Tests.antt =====
-- A verdict on a small SBOM, and the theorems at it.
use astinus.Base.{
  ◌≡◌, ◌↔◌, ◌≤◌, ◌+◌, refl, List, [], ◌∷◌, none, some, Text, codes, text_eq, nat_eq, ok, err,
}
use astinus.Base.Dict.{lookup, insert}
use astinus.Base.Strings.{to_lower, cut_prefix, before_any}
use astinus.Base.Decimal.{format_nat}
use astinus.Model.{ComponentFields, nil, cons, Component, Sbom}
use astinus.Compliance.{info, medium, high, critical, Finding, severity_text}
use astinus.Compliance.Policy.{ecosystem_from_purl, severity_of}
use astinus.Compliance.Rules.{default_rules}
use astinus.Compliance.Verdict.{
  find_component_by_bom_ref, apply_policy, count_severity, count_actionable, has_failure,
  status_for,
}
use astinus.Compliance.Stamp.{
  mark_first, stamp_verdict, stamp_per_component, stamp_statuses, stamp_counts,
}
use astinus.Compliance.Run.{Validator, enrich_compliance, findings}
use astinus.Compliance.VerdictLaws.{IsVerdict, apply_policy-IsVerdict, status_for-counts}

judging : Unit {0}
unfolding stamp_verdict ecosystem_from_purl to_lower cut_prefix before_any severity_of apply_policy
    count_severity count_actionable has_failure status_for stamp_per_component enrich_compliance
    findings stamp_statuses stamp_counts lookup insert find_component_by_bom_ref mark_first
    format_nat severity_text
judging = tt

abbrev fields : Text → Text → Text → ComponentFields
fields ref type purl = record {
  bom_ref = ref;
  type = type;
  group = [];
  name = ref;
  version = [];
  description = [];
  scope = [];
  purl = purl;
  cpes = [];
  hashes = [];
  licenses = [];
  supplier = [];
  author = [];
  publisher = [];
  copyright = [];
  properties = [];
  evidence = none;
  layer_info = none;
  origin = [];
}

abbrev app : Component
app = record {
  fields = fields (codes "app") (codes "application") [];
  sub_components =
      cons (fields (codes "lib") (codes "library") (codes "pkg:NPM/left-pad@1")) nil nil;
}

abbrev conf : Component
conf = record { fields = fields (codes "conf") (codes "file") []; sub_components = nil }

abbrev sbom : Sbom
sbom = record {
  metadata = record {
    timestamp = record { seconds = 1; nanos = 0 };
    authors = [];
    tools = [];
    component = none;
    properties = [];
  };
  components = app ∷ conf ∷ [];
  relationships = [];
  properties = [];
  source_format = codes "spdx-json";
}

abbrev finding : Text → Text → Finding
finding rule ref = record {
  severity = medium;
  rule_id = rule;
  component = ref;
  message = [];
  reference = [];
}

abbrev raw : List Finding
raw =
    finding (codes "NTIA-SUPPLIER") (codes "lib")
    ∷ finding (codes "NTIA-SUPPLIER") (codes "conf")
    ∷ finding (codes "NTIA-VERSION") (codes "app")
    ∷ []

abbrev validators : List Validator
validators =
    record { name = codes "ntia"; validate = λ _. ok raw }
    ∷ record { name = codes "spdx"; validate = λ _. err (codes "broken") }
    ∷ []

run_findings :
    findings validators default_rules (enrich_compliance validators default_rules sbom)
    ≡ record (finding (codes "NTIA-SUPPLIER") (codes "lib")) { severity = info }
      ∷ record (finding (codes "NTIA-VERSION") (codes "app")) { severity = critical }
      ∷ []
unfolding judging
run_findings = refl

run_status :
    lookup
      (codes "astinus:compliance:ntia:status")
      (enrich_compliance validators default_rules sbom).metadata.properties
    ≡ some (codes "failed")
unfolding judging
run_status = refl

apply_policy-IsVerdict_example :
    IsVerdict default_rules (app ∷ conf ∷ []) raw (apply_policy default_rules (app ∷ conf ∷ []) raw)
apply_policy-IsVerdict_example = apply_policy-IsVerdict default_rules (app ∷ conf ∷ []) raw

status_for-counts_example :
    ((status_for raw ≡ codes "failed")
      ↔ (1 ≤ count_severity raw high + count_severity raw critical))
    × ((status_for raw ≡ codes "passed") ↔ (raw ≡ []))
status_for-counts_example = status_for-counts raw
