-- ===== src/CycloneDx/Components.antt =====
-- internal/sbom/cyclonedx/mapper.go: components, with those below them.
use astinus.Base.{ℕ, List, [], ◌∷◌, Option, none, some, Text, text_eq, nat_eq, ◌==◌, if◌then◌else◌}
use astinus.Model.{ComponentFields, Component, SubComponents}
use astinus.Model as Model
use astinus.CycloneDx.Wire.{CdxFields, CdxComponents, CdxComponent}
use astinus.CycloneDx.Wire as Wire
use astinus.CycloneDx.Bags.{props_from_cdx, map_to_cdx_properties, merge_properties}
use astinus.CycloneDx.Parts.{
  map_component_type_from_cdx, map_component_type_to_cdx, hashes_from_cdx, hashes_to_cdx,
  licenses_from_cdx, licenses_to_cdx, evidence_from_cdx, evidence_to_cdx,
}
use astinus.CycloneDx.Marks.{astinus_properties, hydrate_astinus_fields}

abbrev pub name_or_empty : Option Text → Text
name_or_empty none = []
name_or_empty (some name) = name

abbrev pub given_name : Text → Option Text
given_name s = if s == [] then none else some s

abbrev pub cpes_from_cdx : Text → List Text
cpes_from_cdx cpe = if cpe == [] then [] else cpe ∷ []

abbrev pub first_cpe : List Text → Text
first_cpe [] = []
first_cpe (cpe ∷ cpes) = cpe

-- `componentFromCDX`, but for the components below.
unfoldable pub component_from_cdx : CdxFields → ComponentFields
unfolding map_component_type_from_cdx props_from_cdx hashes_from_cdx licenses_from_cdx
    evidence_from_cdx hydrate_astinus_fields
component_from_cdx c = hydrate_astinus_fields (record {
  bom_ref = c.bom_ref;
  type = map_component_type_from_cdx c.type;
  group = c.group;
  name = c.name;
  version = c.version;
  description = c.description;
  scope = c.scope;
  purl = c.package_url;
  cpes = cpes_from_cdx c.cpe;
  hashes = hashes_from_cdx c.hashes;
  licenses = licenses_from_cdx c.licenses;
  supplier = name_or_empty c.supplier;
  author = c.author;
  publisher = c.publisher;
  copyright = c.copyright;
  properties = props_from_cdx c.properties;
  evidence = evidence_from_cdx c.evidence;
  layer_info = none;
  origin = [];
})

unfoldable pub components_from_cdx : CdxComponents → SubComponents
unfolding component_from_cdx
components_from_cdx Wire.nil = Model.nil
components_from_cdx (Wire.cons c below next) =
    Model.cons (component_from_cdx c) (components_from_cdx below) (components_from_cdx next)

unfoldable pub top_from_cdx : CdxComponent → Component
unfolding components_from_cdx
top_from_cdx c = record {
  fields = component_from_cdx c.fields;
  sub_components = components_from_cdx c.components;
}

module _ (narrow : ℕ → ℕ) where
  -- `componentToCDX`, but for the components below.
  unfoldable pub component_to_cdx : ComponentFields → CdxFields
  unfolding hashes_to_cdx licenses_to_cdx evidence_to_cdx map_to_cdx_properties merge_properties
      astinus_properties
  component_to_cdx c = record {
    bom_ref = c.bom_ref;
    type = map_component_type_to_cdx c.type;
    group = c.group;
    name = c.name;
    version = c.version;
    description = c.description;
    scope = c.scope;
    package_url = c.purl;
    author = c.author;
    publisher = c.publisher;
    copyright = c.copyright;
    supplier = given_name c.supplier;
    cpe = first_cpe c.cpes;
    hashes = hashes_to_cdx c.hashes;
    licenses = licenses_to_cdx c.licenses;
    evidence = evidence_to_cdx narrow c.evidence;
    properties = map_to_cdx_properties (merge_properties c.properties (astinus_properties c));
  }

  unfoldable pub components_to_cdx : SubComponents → CdxComponents
  unfolding component_to_cdx
  components_to_cdx Model.nil = Wire.nil
  components_to_cdx (Model.cons c below next) =
      Wire.cons (component_to_cdx c) (components_to_cdx below) (components_to_cdx next)

  unfoldable pub top_to_cdx : Component → CdxComponent
  unfolding components_to_cdx
  top_to_cdx c = record {
    fields = component_to_cdx c.fields;
    components = components_to_cdx c.sub_components;
  }
