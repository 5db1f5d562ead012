-- ===== src/Validators/Ntia.antt =====
-- internal/policy/builtin/compliance/ntia.go: the NTIA minimum elements.
use astinus.Base.{
  Bool, true, false, ◌&&◌, not, List, [], ◌∷◌, ◌++◌, Text, codes, text_eq, nat_eq, ◌==◌,
  if◌then◌else◌, leb, length,
}
use astinus.Base.Decimal.{format_nat}
use astinus.Model.{ComponentFields, Tool, is_zero_time, Metadata, Sbom}
use astinus.Compliance.{critical, high, medium, Finding}
use astinus.Validators.{finding, flag, component_label, collect, skips_files}

abbrev pub any_named : List Tool → Bool
any_named [] = false
any_named (t ∷ tools) = if t.name == [] then any_named tools else true

unfoldable pub has_sbom_author : Metadata → Bool
has_sbom_author m = if length m.authors == 0 then any_named m.tools else true

unfoldable pub metadata_findings : Sbom → List Finding
unfolding has_sbom_author
metadata_findings sbom =
    flag (not (has_sbom_author sbom.metadata)) (
      finding high (codes "NTIA-METADATA-AUTHOR") [] (codes "SBOM lacks author metadata")
        (codes "NTIA Minimum Element 6: Author of SBOM Data"))
    ++ flag (is_zero_time sbom.metadata.timestamp) (
        finding high (codes "NTIA-METADATA-TIMESTAMP") [] (codes "SBOM lacks timestamp")
          (codes "NTIA Minimum Element 7: Timestamp"))

unfoldable pub relationship_finding : Sbom → List Finding
relationship_finding sbom =
    flag (leb 10 (length sbom.components) && length sbom.relationships == 0) (
      finding medium (codes "NTIA-RELATIONSHIPS") []
        (codes "SBOM has "
          ++ (format_nat (length sbom.components)
              ++ codes " components but no recorded relationships"))
        (codes "NTIA Minimum Element 5: Dependency Relationship"))

module _ (quote : Text → Text) where
  unfoldable pub check_component : ComponentFields → List Finding
  check_component c =
      let label = quote (component_label c) in
      flag (c.name == []) (
        finding critical (codes "NTIA-NAME") c.bom_ref (codes "Component lacks name")
          (codes "NTIA Minimum Element 2: Component Name"))
      ++ (flag (c.version == []) (
            finding high (codes "NTIA-VERSION") c.bom_ref
              (codes "Component " ++ (label ++ codes " lacks version"))
              (codes "NTIA Minimum Element 3: Component Version"))
          ++ (flag (c.supplier == [] && c.author == []) (
                finding medium (codes "NTIA-SUPPLIER") c.bom_ref
                  (codes "Component " ++ (label ++ codes " lacks supplier and author"))
                  (codes "NTIA Minimum Element 1: Supplier Name"))
              ++ flag (c.purl == [] && length c.cpes == 0) (
                  finding medium (codes "NTIA-IDENTIFIER") c.bom_ref
                    (codes "Component " ++ (label ++ codes " has no unique identifier (PURL/CPE)"))
                    (codes "NTIA Minimum Element 4: Other Unique Identifiers"))))

  -- `NTIAValidator.Validate`
  unfoldable pub validate_ntia : Sbom → List Finding
  unfolding metadata_findings collect check_component relationship_finding
  validate_ntia sbom =
      metadata_findings sbom
      ++ (collect skips_files check_component sbom.components ++ relationship_finding sbom)
