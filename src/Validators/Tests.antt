-- ===== src/Validators/Tests.antt =====
-- Small SBOMs, what the validators say of them, and the theorems at them.
use astinus.Base.{
  ◌≡◌, refl, ◌↔◌, false, List, [], ◌∷◌, map, Text, codes, text_eq, nat_eq, ◌==◌, length, All,
  Distinct, err,
}
use astinus.Base.Dict.{lookup}
use astinus.Model.{ComponentFields, nil, cons, Sbom}
use astinus.Model.Samples.{bare, leaf, sbom_of}
use astinus.Model.Walk.{all_components}
use astinus.Compliance.{Finding}
use astinus.Validators.{skips_files, skips_none}
use astinus.Validators.Ntia.{validate_ntia}
use astinus.Validators.Structural.{validate_cdx, validate_spdx}
use astinus.Validators.EuCra.{validate_cra}
use astinus.Validators.Config.{
  SeverityOverride, unknown_severity, convert_overrides, IsConverted, convert_overrides-IsConverted,
}
use astinus.Validators.Laws.{IsSigned, IsIdentified, IsRelated, counted, validate_ntia-IsNil}
use astinus.Validators.Duplicates.{IsTyped, refs_of, AreFresh, validate_cdx-IsNil}

abbrev quote : Text → Text
quote s = s

abbrev library : Text → ComponentFields
library ref = record (bare ref) { name = ref; type = codes "library"; version = codes "1" }

-- Two components share a reference, one below a file.
abbrev sbom : Sbom
sbom = sbom_of (
    leaf (library (codes "a"))
    ∷ record {
      fields = record (library (codes "f")) { type = codes "file" };
      sub_components = cons (library (codes "a")) nil nil;
    }
    ∷ [])

abbrev rules : List Finding → List Text
rules findings = map (λ f. f.rule_id) findings

validate_ntia_example :
    rules (validate_ntia quote sbom)
    ≡ codes "NTIA-METADATA-AUTHOR"
      ∷ codes "NTIA-METADATA-TIMESTAMP"
      ∷ codes "NTIA-SUPPLIER"
      ∷ codes "NTIA-IDENTIFIER"
      ∷ []
unfolding validate_ntia
validate_ntia_example = refl

validate_cdx_example : rules (validate_cdx quote sbom) ≡ codes "CDX-BOMREF-DUPLICATE" ∷ []
unfolding validate_cdx all_components
validate_cdx_example = refl

validate_cra_example : rules (validate_cra quote sbom) ≡ codes "EU-CRA-ART13-VULN-HANDLING" ∷ []
unfolding validate_cra all_components lookup
validate_cra_example = refl

validate_spdx_example : rules (validate_spdx quote (sbom_of [])) ≡ codes "SPDX-EMPTY-PACKAGES" ∷ []
unfolding validate_spdx
validate_spdx_example = refl

validate_ntia-IsNil_example :
    (validate_ntia quote sbom ≡ [])
    ↔ (IsSigned sbom × (All IsIdentified (counted skips_files sbom.components) × IsRelated sbom))
validate_ntia-IsNil_example = validate_ntia-IsNil quote sbom

validate_cdx-IsNil_example : (validate_cdx quote sbom ≡ []) ↔ (
    ((length sbom.components == 0) ≡ false)
    × (All IsTyped (counted skips_none sbom.components)
        × (Distinct (refs_of (all_components sbom.components))
            × AreFresh [] (refs_of (all_components sbom.components)))))
validate_cdx-IsNil_example = validate_cdx-IsNil quote sbom

abbrev override : Text → SeverityOverride
override severity = record {
  rule_id = codes "NTIA-SUPPLIER";
  component_type = [];
  ecosystem = codes "npm";
  severity = severity;
  reason = [];
}

abbrev overrides : List SeverityOverride
overrides = override (codes "low") ∷ override (codes "severe") ∷ []

convert_overrides_example :
    convert_overrides 0 overrides ≡ err (unknown_severity 1 (codes "severe"))
unfolding convert_overrides
convert_overrides_example = refl

convert_overrides-IsConverted_example : IsConverted 0 overrides (convert_overrides 0 overrides)
convert_overrides-IsConverted_example = convert_overrides-IsConverted overrides
