-- ===== src/Validators/EuCra.antt =====
-- internal/policy/builtin/compliance/eu_cra.go: the part of the EU Cyber Resilience Act that an SBOM can show.
use astinus.Base.{
  Bool, true, false, ◌&&◌, ◌||◌, not, List, [], ◌∷◌, ◌++◌, Option, none, some, Text, codes, text_eq,
  nat_eq, ◌==◌, if◌then◌else◌, length,
}
use astinus.Base.Dict.{Dict, lookup}
use astinus.Base.Strings.{has_prefix}
use astinus.Model.{ComponentFields, Sbom}
use astinus.Model.Walk.{all_components}
use astinus.Compliance.{medium, low, Finding}
use astinus.Validators.{finding, flag, section_sign, component_label, collect, skips_files}

-- `m[k]`, which is empty where the key is missing.
abbrev pub or_empty : Option Text → Text
or_empty none = []
or_empty (some v) = v

abbrev pub is_vuln_signal : Dict Text Text → Bool
is_vuln_signal props =
    let source = or_empty (lookup (codes "astinus:cpe:source") props) in
    if or_empty (lookup (codes "astinus:references:vuln-disclosure") props) == []
    then source == codes "nvd-api" || source == codes "clearly-defined"
    else true

-- `sbomHasVulnerabilityHandling`, over the components in the order of the visit.
unfoldable pub any_vuln_signal : List ComponentFields → Bool
any_vuln_signal [] = false
any_vuln_signal (c ∷ comps) =
    let rest = any_vuln_signal comps in if is_vuln_signal c.properties then true else rest

abbrev pub is_major_ecosystem : Text → Bool
is_major_ecosystem purl =
    has_prefix purl (codes "pkg:maven/")
    || (has_prefix purl (codes "pkg:helm/")
        || (has_prefix purl (codes "pkg:pypi/") || has_prefix purl (codes "pkg:npm/")))

unfoldable pub is_major_framework : ComponentFields → Bool
is_major_framework c =
    if c.purl == []
    then false
    else if c.type == codes "framework" || c.type == codes "application"
    then is_major_ecosystem c.purl
    else false

module _ (quote : Text → Text) where
  unfoldable pub check_cra : ComponentFields → List Finding
  unfolding is_major_framework
  check_cra c = flag (is_major_framework c && length c.licenses == 0) (
      finding low (codes "EU-CRA-ART13-LICENSE") c.bom_ref
        (codes "Major-framework Component "
          ++ (quote (component_label c) ++ codes " lacks license metadata"))
        (codes "EU CRA Annex I "
          ++ (section_sign ++ codes "3 (lifecycle / redistribution clarity)")))

  -- `EUCRAValidator.Validate`
  unfoldable pub validate_cra : Sbom → List Finding
  unfolding any_vuln_signal collect check_cra
  validate_cra sbom =
      flag (not (any_vuln_signal (all_components sbom.components))) (
        finding medium (codes "EU-CRA-ART13-VULN-HANDLING") []
          (codes "SBOM lacks any vulnerability-handling reference (no authoritative CPE source, no "
            ++ codes "vuln-disclosure URL on any component)")
          (codes "EU CRA Annex I " ++ (section_sign ++ codes "2 (b)")))
      ++ collect skips_files check_cra sbom.components
