-- ===== src/Model.antt =====
-- internal/sbom/model: the canonical SBOM that every enricher reads and writes.
-- A nil map or slice is the empty one. A float64 confidence in 0..1 is a whole number of parts: the
-- code only compares confidences, so any scale serves. SourceRaw is left out.
pub mod Walk
pub mod Samples
pub mod Hashes
use astinus.Base.{ℕ, Bool, ◌&&◌, nat_eq, ◌==◌, List, Text, Option}
use astinus.Base.Dict.{Dict}

pub record Hash : Type 0 where
  pub algorithm : Text
  pub value : Text

pub record License : Type 0 where
  pub spdx_id : Text
  pub name : Text
  pub expression : Text
  pub url : Text

pub record EvidenceLocation : Type 0 where
  pub path : Text
  pub line_no : ℕ

pub record Evidence : Type 0 where
  pub method : Text
  pub confidence : ℕ
  pub locations : List EvidenceLocation

pub record LayerInfo : Type 0 where
  pub layer_digest : Text
  pub layer_index : ℕ
  pub dockerfile_line : Text
  pub added_by : Text

-- All fields of a component but its sub-components.
pub record ComponentFields : Type 0 where
  pub bom_ref : Text
  pub type : Text
  pub group : Text
  pub name : Text
  pub version : Text
  pub description : Text
  pub scope : Text
  pub purl : Text
  pub cpes : List Text
  pub hashes : List Hash
  pub licenses : List License
  pub supplier : Text
  pub author : Text
  pub publisher : Text
  pub copyright : Text
  pub properties : Dict Text Text
  pub evidence : Option Evidence
  pub layer_info : Option LayerInfo
  pub origin : Text

-- `[]Component` below the top level: a component's fields, its own sub-components, its siblings.
pub data SubComponents : Type 0 where
  nil : SubComponents
  cons : ComponentFields → SubComponents → SubComponents → SubComponents

pub record Component : Type 0 where
  pub fields : ComponentFields
  pub open fields use *
  pub sub_components : SubComponents

pub record Relationship : Type 0 where
  pub source_ref : Text
  pub target_ref : Text
  pub type : Text

pub record Tool : Type 0 where
  pub vendor : Text
  pub name : Text
  pub version : Text

-- A `time.Time` of UTC: the seconds since the start of the year 1, and the nanoseconds after them.
pub record Time : Type 0 where
  pub seconds : ℕ
  pub nanos : ℕ

-- The zero value, which stands for a time that is not known.
abbrev pub zero_time : Time
zero_time = record { seconds = 0; nanos = 0 }

-- `IsZero`
abbrev pub is_zero_time : Time → Bool
is_zero_time t = t.seconds == 0 && t.nanos == 0

pub record Metadata : Type 0 where
  pub timestamp : Time
  pub authors : List Text
  pub tools : List Tool
  pub component : Option Component
  pub properties : Dict Text Text

pub record Sbom : Type 0 where
  pub metadata : Metadata
  pub components : List Component
  pub relationships : List Relationship
  pub properties : Dict Text Text
  pub source_format : Text
