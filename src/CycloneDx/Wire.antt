-- ===== src/CycloneDx/Wire.antt =====
-- The structs of cyclonedx-go that internal/sbom/cyclonedx/mapper.go reads and writes.
use astinus.Base.{ℕ, List, Option, Text}

-- The entries of `[]cdx.Property`, names and values.
abbrev pub CdxProperties : Type 0
CdxProperties = List (Text × Text)

pub record CdxHash : Type 0 where
  pub algorithm : Text
  pub value : Text

pub record CdxLicense : Type 0 where
  pub id : Text
  pub name : Text
  pub url : Text

pub record LicenseChoice : Type 0 where
  pub expression : Text
  pub license : Option CdxLicense

pub record EvidenceIdentity : Type 0 where
  pub field : Text
  pub confidence : Option ℕ

-- Of an occurrence, its location.
pub record CdxEvidence : Type 0 where
  pub identity : List EvidenceIdentity
  pub occurrences : List Text

-- A `cdx.Component` but for its components; of the supplier, the name.
pub record CdxFields : Type 0 where
  pub bom_ref : Text
  pub type : Text
  pub group : Text
  pub name : Text
  pub version : Text
  pub description : Text
  pub scope : Text
  pub package_url : Text
  pub author : Text
  pub publisher : Text
  pub copyright : Text
  pub supplier : Option Text
  pub cpe : Text
  pub hashes : List CdxHash
  pub licenses : List LicenseChoice
  pub evidence : Option CdxEvidence
  pub properties : CdxProperties

pub data CdxComponents : Type 0 where
  nil : CdxComponents
  cons : CdxFields → CdxComponents → CdxComponents → CdxComponents

pub record CdxComponent : Type 0 where
  pub fields : CdxFields
  pub components : CdxComponents

pub record CdxTool : Type 0 where
  pub vendor : Text
  pub name : Text
  pub version : Text

-- Of the components among the tools, the fields that are read.
pub record ToolComponent : Type 0 where
  pub supplier : Option Text
  pub group : Text
  pub name : Text
  pub version : Text

pub record ToolsChoice : Type 0 where
  pub components : List ToolComponent
  pub tools : List CdxTool

pub record CdxMetadata : Type 0 where
  pub timestamp : Text
  pub authors : List Text
  pub tools : Option ToolsChoice
  pub component : Option CdxComponent
  pub properties : CdxProperties

pub record Dependency : Type 0 where
  pub ref : Text
  pub dependencies : List Text
  pub provides : List Text

pub record Bom : Type 0 where
  pub metadata : Option CdxMetadata
  pub components : List CdxComponent
  pub dependencies : List Dependency
  pub properties : CdxProperties
