-- ===== src/CycloneDx/Document.antt =====
-- internal/sbom/cyclonedx/mapper.go and timestamp.go: metadata and whole documents. `time_parse` is
-- what `time.Parse` reads a text as by a layout, and `stamp` is what `Format` writes by `timestampFormat`.
use astinus.Base.{
  ℕ, Bool, true, false, ◌&&◌, or_else, List, [], ◌∷◌, ◌++◌, map, Option, none, some, Text, codes,
  text_eq, nat_eq, ◌==◌, if◌then◌else◌,
}
use astinus.Base.Strings.{trim_space}
use astinus.Model.{Tool, Time, zero_time, is_zero_time, Metadata, Sbom}
use astinus.CycloneDx.Wire.{CdxTool, ToolComponent, ToolsChoice, CdxMetadata, Bom}
use astinus.CycloneDx.Bags.{props_from_cdx, map_to_cdx_properties}
use astinus.CycloneDx.Components.{given_name, top_from_cdx, top_to_cdx}
use astinus.CycloneDx.Relations.{relationships_from_cdx, relationships_to_cdx}

abbrev pub vendor_of : ToolComponent → Text
vendor_of c = elim c.supplier [ none ↦ c.group | some name ↦ name ]

abbrev pub tool_of_component : ToolComponent → Tool
tool_of_component c = record { vendor = vendor_of c; name = c.name; version = c.version }

abbrev pub tool_of : CdxTool → Tool
tool_of t = record { vendor = t.vendor; name = t.name; version = t.version }

abbrev pub tools_from_cdx : Option ToolsChoice → List Tool
tools_from_cdx none = []
tools_from_cdx (some tools) = map tool_of_component tools.components ++ map tool_of tools.tools

abbrev pub tool_to_cdx : Tool → ToolComponent
tool_to_cdx t = record {
  supplier = given_name t.vendor;
  group = [];
  name = t.name;
  version = t.version;
}

abbrev pub tools_to_cdx : List Tool → Option ToolsChoice
tools_to_cdx [] = none
tools_to_cdx (t ∷ tools) = some (record { components = map tool_to_cdx (t ∷ tools); tools = [] })

unfoldable pub authors_from_cdx : List Text → List Text
unfolding trim_space
authors_from_cdx [] = []
authors_from_cdx (a ∷ authors) =
    let name = trim_space a in
    let rest = authors_from_cdx authors in if name == [] then rest else name ∷ rest

abbrev pub map_option {ℓ κ} : {A : Type ℓ} {B : Type κ} → (A → B) → Option A → Option B
map_option f none = none
map_option f (some a) = some (f a)

abbrev pub is_nil {ℓ} : {A : Type ℓ} → List A → Bool
is_nil [] = true
is_nil (x ∷ xs) = false

abbrev pub is_none {ℓ} : {A : Type ℓ} → Option A → Bool
is_none none = true
is_none (some x) = false

abbrev pub has_no_content : Metadata → Bool
has_no_content md =
    is_zero_time md.timestamp
    && (is_nil md.authors && (is_nil md.tools && (is_none md.component && is_nil md.properties)))

abbrev pub no_metadata : Metadata
no_metadata = record {
  timestamp = zero_time;
  authors = [];
  tools = [];
  component = none;
  properties = [];
}

abbrev pub or_zero_time : Option Time → Time
or_zero_time none = zero_time
or_zero_time (some t) = t

module _ (time_parse : Text → Text → Option Time) where
  -- `parseTimestamp`: the time by the first layout that fits.
  abbrev pub parse_timestamp : Text → Option Time
  parse_timestamp s = or_else (time_parse (codes "2006-01-02T15:04:05.999999999Z07:00") s) (
      or_else (time_parse (codes "2006-01-02T15:04:05Z07:00") s) (
        or_else (time_parse (codes "2006-01-02T15:04:05Z") s)
          (time_parse (codes "2006-01-02T15:04:05") s)))

  unfoldable pub metadata_from_cdx : CdxMetadata → Metadata
  unfolding authors_from_cdx props_from_cdx top_from_cdx
  metadata_from_cdx md = record {
    timestamp =
        if md.timestamp == [] then zero_time else or_zero_time (parse_timestamp md.timestamp);
    authors = authors_from_cdx md.authors;
    tools = tools_from_cdx md.tools;
    component = map_option top_from_cdx md.component;
    properties = props_from_cdx md.properties;
  }

  abbrev pub metadata_or_empty : Option CdxMetadata → Metadata
  metadata_or_empty none = no_metadata
  metadata_or_empty (some md) = metadata_from_cdx md

  -- `fromCDX`, which leaves the bytes that were read to `SourceRaw`.
  unfoldable pub from_cdx : Bom → Text → Sbom
  unfolding metadata_from_cdx relationships_from_cdx
  from_cdx bom source_format = record {
    metadata = metadata_or_empty bom.metadata;
    components = map top_from_cdx bom.components;
    relationships = relationships_from_cdx bom.dependencies;
    properties = props_from_cdx bom.properties;
    source_format = source_format;
  }

module _ (stamp : Time → Text) (narrow : ℕ → ℕ) where
  abbrev pub write_metadata : Metadata → CdxMetadata
  write_metadata md = record {
    timestamp = if is_zero_time md.timestamp then [] else stamp md.timestamp;
    authors = md.authors;
    tools = tools_to_cdx md.tools;
    component = map_option (top_to_cdx narrow) md.component;
    properties = map_to_cdx_properties md.properties;
  }

  unfoldable pub metadata_to_cdx : Metadata → Option CdxMetadata
  unfolding map_to_cdx_properties top_to_cdx
  metadata_to_cdx md = if has_no_content md then none else some (write_metadata md)

  -- `toCDX`
  unfoldable pub to_cdx : Sbom → Bom
  unfolding metadata_to_cdx relationships_to_cdx
  to_cdx sbom = record {
    metadata = metadata_to_cdx sbom.metadata;
    components = map (top_to_cdx narrow) sbom.components;
    dependencies = relationships_to_cdx sbom.relationships;
    properties = map_to_cdx_properties sbom.properties;
  }
