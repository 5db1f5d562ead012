-- ===== src/Validators/Structural.antt =====
-- internal/policy/builtin/compliance: cyclonedx_structural.go and spdx_structural.go, the fields that the two
-- formats ask for.
use astinus.Base.{
  Bool, not, List, [], ◌∷◌, ◌++◌, Text, codes, text_eq, nat_eq, ◌==◌, if◌then◌else◌, length,
  contains,
}
use astinus.Model.{ComponentFields, Sbom}
use astinus.Model.Walk.{all_components}
use astinus.Compliance.{critical, high, low, Finding}
use astinus.Validators.{finding, flag, em_dash, section_sign, component_label, collect, skips_none}

abbrev pub component_types : List Text
component_types =
    codes "application"
    ∷ codes "container"
    ∷ codes "device"
    ∷ codes "file"
    ∷ codes "firmware"
    ∷ codes "framework"
    ∷ codes "library"
    ∷ codes "operating-system"
    ∷ codes "platform"
    ∷ codes "unknown"
    ∷ []

abbrev pub is_recognised_component_type : Text → Bool
is_recognised_component_type t = contains component_types t

unfoldable pub cdx_top_level_findings : Sbom → List Finding
cdx_top_level_findings sbom = flag (length sbom.components == 0) (
    finding high (codes "CDX-EMPTY-COMPONENTS") []
      (codes "CycloneDX SBOM has no components "
        ++ (em_dash ++ codes " useless to downstream consumers"))
      (codes "CycloneDX 1.6 schema $.components"))

module _ (quote : Text → Text) where
  unfoldable pub check_cdx : ComponentFields → List Finding
  check_cdx c =
      flag (c.name == []) (
        finding critical (codes "CDX-COMPONENT-NAME-MISSING") c.bom_ref
          (codes "Component lacks required `name`")
          (codes "CycloneDX 1.6 schema $.components[].name"))
      ++ flag (not (is_recognised_component_type c.type)) (
          finding high (codes "CDX-COMPONENT-TYPE-INVALID") c.bom_ref
            (codes "Component "
              ++ (quote (component_label c) ++ (codes " has unrecognised type " ++ quote c.type)))
            (codes "CycloneDX 1.6 schema $.components[].type"))

  abbrev pub duplicate_finding : Text → Finding
  duplicate_finding ref =
      finding high (codes "CDX-BOMREF-DUPLICATE") ref
        (codes "Duplicate bom-ref " ++ (quote ref ++ codes " across components"))
        (codes "CycloneDX 1.6 schema bom-ref uniqueness")

  -- `appendCDXBOMRefDuplicates`, over the components in the order of the visit.
  unfoldable pub bom_ref_duplicates : List Text → List ComponentFields → List Finding
  bom_ref_duplicates seen [] = []
  bom_ref_duplicates seen (c ∷ comps) =
      if c.bom_ref == []
      then bom_ref_duplicates seen comps
      else if contains seen c.bom_ref
      then duplicate_finding c.bom_ref ∷ bom_ref_duplicates seen comps
      else bom_ref_duplicates (c.bom_ref ∷ seen) comps

  -- `CycloneDXStructuralValidator.Validate`
  unfoldable pub validate_cdx : Sbom → List Finding
  unfolding cdx_top_level_findings collect check_cdx bom_ref_duplicates
  validate_cdx sbom =
      cdx_top_level_findings sbom
      ++ (collect skips_none check_cdx sbom.components
          ++ bom_ref_duplicates [] (all_components sbom.components))

  unfoldable pub check_spdx : ComponentFields → List Finding
  check_spdx c =
      let label = quote (component_label c) in
      flag (c.name == []) (
        finding critical (codes "SPDX-PACKAGE-NAME-MISSING") c.bom_ref
          (codes "SPDX package lacks required `name`")
          (codes "SPDX 2.3 " ++ (section_sign ++ codes "7.1")))
      ++ (flag (c.purl == []) (
            finding low (codes "SPDX-DOWNLOAD-LOCATION-NOASSERTION") c.bom_ref
              (codes "Component "
                ++ (label
                    ++ (codes " has no PURL "
                        ++ (em_dash ++ codes " SPDX downloadLocation defaults to NOASSERTION"))))
              (codes "SPDX 2.3 " ++ (section_sign ++ codes "7.7")))
          ++ flag (length c.licenses == 0) (
              finding low (codes "SPDX-LICENSE-NOASSERTION") c.bom_ref
                (codes "Component "
                  ++ (label
                      ++ (codes " has no license metadata "
                          ++ (em_dash ++ codes " SPDX licenseConcluded defaults to NOASSERTION"))))
                (codes "SPDX 2.3 " ++ (section_sign ++ codes "7.13"))))

  -- `SPDXStructuralValidator.Validate`
  unfoldable pub validate_spdx : Sbom → List Finding
  unfolding collect check_spdx
  validate_spdx sbom =
      flag (length sbom.components == 0) (
        finding high (codes "SPDX-EMPTY-PACKAGES") [] (codes "SPDX document has no packages")
          (codes "SPDX 2.3 " ++ (section_sign ++ codes "7")))
      ++ collect skips_none check_spdx sbom.components
