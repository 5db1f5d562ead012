-- ===== src/Compliance/Rules.antt =====
-- internal/policy/builtin/compliance/severity_policy.go: the rules of `DefaultSeverityPolicy`.
use astinus.Base.{List, [], ◌∷◌, ◌++◌, Text, codes}
use astinus.Compliance.{Severity, ignored, info, low, medium, high, critical}
use astinus.Compliance.Policy.{SeverityRule}

abbrev rule : Text → Text → Text → Severity → Text → SeverityRule
rule id type ecosystem severity reason = record {
  rule_id = id;
  component_type = type;
  ecosystem = ecosystem;
  severity = severity;
  reason = reason;
}

abbrev pub ntia_supplier_rules : List SeverityRule
ntia_supplier_rules =
    rule (codes "NTIA-SUPPLIER") [] [] medium (codes "default for unknown ecosystem")
    ∷ rule (codes "NTIA-SUPPLIER") (codes "file") [] ignored
        (codes "files have no NTIA-supplier semantics")
    ∷ rule (codes "NTIA-SUPPLIER") [] (codes "npm") info
        (codes "npm packages: registry publisher info available via enrichment")
    ∷ rule (codes "NTIA-SUPPLIER") [] (codes "pypi") info
        (codes "PyPI: supplier derivable via enrichment")
    ∷ rule (codes "NTIA-SUPPLIER") [] (codes "deb") info
        (codes "Debian packages: supplier=Debian Project (auto-derivable)")
    ∷ rule (codes "NTIA-SUPPLIER") [] (codes "rpm") info
        (codes "RPM packages: supplier=distro publisher (auto-derivable)")
    ∷ rule (codes "NTIA-SUPPLIER") [] (codes "apk") info
        (codes "Alpine packages: supplier=Alpine Linux (auto-derivable)")
    ∷ rule (codes "NTIA-SUPPLIER") [] (codes "maven") low
        (codes "Maven groupId provides supplier indication")
    ∷ rule (codes "NTIA-SUPPLIER") [] (codes "cargo") low []
    ∷ rule (codes "NTIA-SUPPLIER") [] (codes "gem") low []
    ∷ rule (codes "NTIA-SUPPLIER") [] (codes "nuget") low []
    ∷ rule (codes "NTIA-SUPPLIER") [] (codes "golang") medium
        (codes "Go modules: supplier from VCS host (github.com/X)")
    ∷ rule (codes "NTIA-SUPPLIER") (codes "application") [] high
        (codes "applications must have a known supplier")
    ∷ []

abbrev pub ntia_version_rules : List SeverityRule
ntia_version_rules =
    rule (codes "NTIA-VERSION") [] [] high (codes "missing version blocks vulnerability scanning")
    ∷ rule (codes "NTIA-VERSION") (codes "file") [] ignored
        (codes "files have no version semantics")
    ∷ rule (codes "NTIA-VERSION") (codes "application") [] critical
        (codes "applications without version are unscannable")
    ∷ []

abbrev pub ntia_identifier_rules : List SeverityRule
ntia_identifier_rules =
    rule (codes "NTIA-IDENTIFIER") [] [] high
      (codes "components without PURL/CPE/SWID cannot be vulnerability-scanned")
    ∷ rule (codes "NTIA-IDENTIFIER") (codes "file") [] ignored
        (codes "files don't carry PURL/CPE identifiers")
    ∷ []

abbrev pub ntia_misc_rules : List SeverityRule
ntia_misc_rules =
    rule (codes "NTIA-NAME") [] [] critical (codes "Component lacks name (structural)")
    ∷ rule (codes "NTIA-METADATA-AUTHOR") [] [] high (codes "SBOM lacks author metadata")
    ∷ rule (codes "NTIA-METADATA-TIMESTAMP") [] [] high (codes "SBOM lacks timestamp")
    ∷ rule (codes "NTIA-RELATIONSHIPS") [] [] medium
        (codes "large SBOM with no recorded relationships")
    ∷ []

abbrev pub spdx_rules : List SeverityRule
spdx_rules =
    rule (codes "SPDX-LICENSE-NOASSERTION") [] [] low
      (codes "license missing " ++ (226 ∷ 128 ∷ 148 ∷ codes " registry enrichment can resolve"))
    ∷ rule (codes "SPDX-LICENSE-NOASSERTION") (codes "file") [] ignored
        (codes "files have no license semantics")
    ∷ rule (codes "SPDX-DOWNLOAD-LOCATION-NOASSERTION") [] [] low
        (codes "download location missing")
    ∷ rule (codes "SPDX-DOWNLOAD-LOCATION-NOASSERTION") (codes "file") [] ignored []
    ∷ rule (codes "SPDX-PACKAGE-NAME-MISSING") [] [] critical
        (codes "SPDX package without name (structural)")
    ∷ rule (codes "SPDX-EMPTY-PACKAGES") [] [] high (codes "SPDX SBOM has no packages")
    ∷ []

abbrev pub eu_cra_rules : List SeverityRule
eu_cra_rules =
    rule (codes "EU-CRA-ART13-VULN-HANDLING") [] [] medium
      (codes "no authoritative vuln handling signal in SBOM")
    ∷ rule (codes "EU-CRA-ART13-LICENSE") [] [] low
        (codes "major-framework license metadata missing")
    ∷ rule (codes "EU-CRA-ART13-LICENSE") (codes "file") [] ignored []
    ∷ []

abbrev pub default_rules : List SeverityRule
default_rules =
    ntia_supplier_rules ++ ntia_version_rules ++ ntia_identifier_rules ++ ntia_misc_rules
    ++ spdx_rules ++ eu_cra_rules
