-- ===== src/Compliance/Stamp.antt =====
-- internal/enrich/compliance/enricher.go: the properties that the verdict leaves in the SBOM.
use astinus.Base.{
  List, [], ◌∷◌, ◌++◌, Option, none, some, Text, codes, text_eq, nat_eq, ◌==◌, if◌then◌else◌,
  length,
}
use astinus.Base.Dict.{Dict, insert}
use astinus.Base.Decimal.{format_nat}
use astinus.Model.{ComponentFields, SubComponents, nil, cons, Component, Sbom}
use astinus.Compliance.{info, low, medium, high, critical, severity_text, Finding}
use astinus.Compliance.Verdict.{count_severity, count_actionable}

abbrev pub findings_count : Text
findings_count = codes "astinus:compliance:findings-count"

abbrev pub actionable_count : Text
actionable_count = codes "astinus:compliance:actionable-findings-count"

abbrev pub critical_count : Text
critical_count = codes "astinus:compliance:critical-count"

abbrev pub high_count : Text
high_count = codes "astinus:compliance:high-count"

abbrev pub medium_count : Text
medium_count = codes "astinus:compliance:medium-count"

abbrev pub low_count : Text
low_count = codes "astinus:compliance:low-count"

abbrev pub info_count : Text
info_count = codes "astinus:compliance:info-count"

unfoldable pub stamp_statuses : Dict Text Text → Dict Text Text → Dict Text Text
stamp_statuses [] props = props
stamp_statuses ((name, status) ∷ statuses) props =
    stamp_statuses statuses
      (insert (codes "astinus:compliance:" ++ (name ++ codes ":status")) status props)

-- The seven counts that `stampMetadata` writes after the statuses.
unfoldable pub stamp_counts : List Finding → Dict Text Text → Dict Text Text
stamp_counts all props = insert info_count (format_nat (count_severity all info)) (
    insert low_count (format_nat (count_severity all low)) (
      insert medium_count (format_nat (count_severity all medium)) (
        insert high_count (format_nat (count_severity all high)) (
          insert critical_count (format_nat (count_severity all critical)) (
            insert actionable_count (format_nat (count_actionable all))
              (insert findings_count (format_nat (length all)) props))))))

unfoldable pub stamp_verdict : Dict Text Text → List Finding → Sbom → Sbom
unfolding stamp_statuses stamp_counts
stamp_verdict statuses all sbom = record sbom {
  metadata = record sbom.metadata {
    properties = stamp_counts all (stamp_statuses statuses sbom.metadata.properties);
  };
}

abbrev pub mark : Text → Text → ComponentFields → ComponentFields
mark key value f = record f { properties = insert key value f.properties }

-- The change of the component that `findComponentByBOMRef` returns, if it returns one. `rebuild`
-- puts a changed part back into its place.
abbrev pub rebuild :
    ComponentFields
    → SubComponents
    → SubComponents
    → Option SubComponents
    → Option SubComponents
    → Option SubComponents
rebuild f below next (some inside) after = some (cons f inside next)
rebuild f below next none (some after) = some (cons f below after)
rebuild f below next none none = none

unfoldable pub mark_below : Text → Text → Text → SubComponents → Option SubComponents
mark_below ref key value nil = none
mark_below ref key value (cons f below next) =
    let inside = mark_below ref key value below in
    let after = mark_below ref key value next in
    if f.bom_ref == ref
    then some (cons (mark key value f) below next)
    else rebuild f below next inside after

abbrev pub rebuild_top :
    Component → List Component → Option SubComponents → List Component → List Component
rebuild_top c comps (some inside) after = record c { sub_components = inside } ∷ comps
rebuild_top c comps none after = c ∷ after

unfoldable pub mark_first : Text → Text → Text → List Component → List Component
unfolding mark_below
mark_first ref key value [] = []
mark_first ref key value (c ∷ comps) =
    let after = mark_first ref key value comps in
    if c.bom_ref == ref
    then record c { fields = mark key value c.fields } ∷ comps
    else rebuild_top c comps (mark_below ref key value c.sub_components) after

unfoldable pub stamp_per_component : List Finding → List Component → List Component
unfolding mark_first
stamp_per_component [] comps = comps
stamp_per_component (f ∷ findings) comps = stamp_per_component findings (
    if f.component == []
    then comps
    else mark_first f.component (codes "astinus:compliance:finding:" ++ f.rule_id)
        (severity_text f.severity) comps)
