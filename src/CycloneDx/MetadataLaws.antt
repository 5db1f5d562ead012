-- ===== src/CycloneDx/MetadataLaws.antt =====
-- internal/sbom/cyclonedx/mapper.go: metadata that is written and read again.
use astinus.Base.{
  ℕ, arith, ◌≡◌, refl, ◌∙◌, sym, ap, inl, inr, Bool, true, false, ◌&&◌, List, [], ◌∷◌, map, Option,
  none, some, Text, text_eq, nat_eq, ◌==◌, if◌then◌else◌, Bool-cases, All,
}
use mathlib.Core.Path.{subst}
use mathlib.Core.List.{append-nil}
use astinus.Base.Dict.{Dict, lookup}
use astinus.Base.Strings.{trim_space}
use astinus.Model.{Component, Tool, Time, zero_time, is_zero_time, Metadata}
use astinus.CycloneDx.Bags.{lookup-props_from_cdx}
use astinus.CycloneDx.Components.{top_from_cdx, top_to_cdx}
use astinus.CycloneDx.Relations.{relationship_eq}
use astinus.CycloneDx.RoundTrip.{SameTop, WritableTop, top_from_cdx-to}
use astinus.CycloneDx.Document.{
  tool_of_component, tools_from_cdx, tool_to_cdx, tools_to_cdx, authors_from_cdx, map_option,
  or_zero_time, parse_timestamp, metadata_from_cdx, metadata_or_empty, write_metadata,
  has_no_content, no_metadata, metadata_to_cdx,
}

-- A name without blanks around it.
abbrev pub IsTrimmed : Text → Type 0
IsTrimmed a = (trim_space a ≡ a) × ((a == []) ≡ false)

authors_from_cdx-same :
    (authors : List Text) → All IsTrimmed authors → authors_from_cdx authors ≡ authors
unfolding authors_from_cdx
authors_from_cdx-same [] h = refl
authors_from_cdx-same (a ∷ authors) ((trimmed, full), h) =
    rw (trimmed, full) (ap (λ rest. a ∷ rest) (authors_from_cdx-same authors h))

tool-same : (t : Tool) → tool_of_component (tool_to_cdx t) ≡ t
tool-same t = by_vendor t.vendor
  where
    by_vendor :
        (v : Text)
        → tool_of_component
            (tool_to_cdx (record { vendor = v; name = t.name; version = t.version }))
          ≡ record { vendor = v; name = t.name; version = t.version }
    by_vendor [] = refl
    by_vendor (c ∷ v) = refl

tools-same : (tools : List Tool) → map tool_of_component (map tool_to_cdx tools) ≡ tools
tools-same [] = refl
tools-same (t ∷ tools) = cc (tool-same t, tools-same tools)

tools_from_cdx-same : (tools : List Tool) → tools_from_cdx (tools_to_cdx tools) ≡ tools
tools_from_cdx-same [] = refl
tools_from_cdx-same (t ∷ tools) =
    append-nil (map tool_of_component (map tool_to_cdx (t ∷ tools))) ∙ tools-same (t ∷ tools)

-- Both are missing, or both are there and the same.
abbrev pub SameOption : Option Component → Option Component → Type 0
SameOption none none = Unit
SameOption (some c) (some d) = SameTop c d
SameOption _ _ = ⊥

-- The time to the second.
abbrev pub to_second : Time → Time
to_second t = record { seconds = t.seconds; nanos = 0 }

abbrev pub SameMetadata : Metadata → Metadata → Type 0
SameMetadata before after =
    (after.timestamp ≡ to_second before.timestamp)
    × (after.authors ≡ before.authors)
    × (after.tools ≡ before.tools)
    × SameOption before.component after.component
    × ((k : Text) → lookup k after.properties ≡ lookup k before.properties)

no_time : (t : Time) → is_zero_time t ≡ true → t ≡ zero_time
no_time t h =
    let no_seconds : t.seconds ≡ 0 = ground (arith, h) in
    let no_nanos : t.nanos ≡ 0 = ground (arith, h) in by_parts t.seconds t.nanos no_seconds no_nanos
  where
    by_parts : (m n : ℕ) → m ≡ 0 → n ≡ 0 → record { seconds = m; nanos = n } ≡ zero_time
    by_parts m n e e' = rw (e, e') refl

no_more : (b : Bool) → (b && false) ≡ true → ⊥
no_more true h = absurd (cc h)
no_more false h = absurd (cc h)

no_content : (md : Metadata) → has_no_content md ≡ true → md ≡ no_metadata
no_content md h = by_fields md.timestamp md.authors md.tools md.component md.properties h
  where
    by_fields :
        (t : Time) (authors : List Text) (tools : List Tool) (component : Option Component)
        (props : Dict Text Text)
        → has_no_content (record {
          timestamp = t;
          authors = authors;
          tools = tools;
          component = component;
          properties = props;
        })
          ≡ true
        → record {
          timestamp = t;
          authors = authors;
          tools = tools;
          component = component;
          properties = props;
        }
          ≡ no_metadata
    by_fields t [] [] none [] h =
        let nothing : is_zero_time t ≡ true = ground (arith, h) in rw (no_time t nothing) refl
    by_fields t (a ∷ authors) tools component props h = absurd (no_more (is_zero_time t) h)
    by_fields t [] (x ∷ tools) component props h = absurd (no_more (is_zero_time t) h)
    by_fields t [] [] (some c) props h = absurd (no_more (is_zero_time t) h)
    by_fields t [] [] none (p ∷ props) h = absurd (no_more (is_zero_time t) h)

module _ (narrow : ℕ → ℕ) where
  abbrev pub WritableOption : Option Component → Type 0
  WritableOption none = Unit
  WritableOption (some c) = WritableTop narrow c

  component-same :
      (o : Option Component)
      → WritableOption o
      → SameOption o (map_option top_from_cdx (map_option (top_to_cdx narrow) o))
  component-same none h = tt
  component-same (some c) h = top_from_cdx-to narrow c h

module _ (time_parse : Text → Text → Option Time) (stamp : Time → Text) where
  -- The text of the time, which goes to the second, is read as that time.
  abbrev pub IsStamp : Time → Type 0
  IsStamp t =
      ((stamp t == []) ≡ false) × (parse_timestamp time_parse (stamp t) ≡ some (to_second t))

  timestamp-same :
      (t : Time)
      → IsStamp t
      → (if (if is_zero_time t then [] else stamp t) == []
          then zero_time
          else or_zero_time (parse_timestamp time_parse (if is_zero_time t then [] else stamp t)))
        ≡ to_second t
  timestamp-same t (full, reads) = elim (Bool-cases (is_zero_time t)) [
    | inl nothing ↦ rw (nothing) (sym (ap to_second (no_time t nothing)))
    | inr something ↦ rw (something, full, reads) refl
  ]

  module _ (narrow : ℕ → ℕ) where
    written-same :
        (md : Metadata)
        → IsStamp md.timestamp
        → All IsTrimmed md.authors
        → WritableOption narrow md.component
        → SameMetadata md (metadata_from_cdx time_parse (write_metadata stamp narrow md))
    unfolding metadata_from_cdx
    written-same md is_stamp authors component = (
      timestamp-same md.timestamp is_stamp,
      authors_from_cdx-same md.authors authors,
      tools_from_cdx-same md.tools,
      component-same narrow md.component component,
      λ k. lookup-props_from_cdx k md.properties,
    )

    pub metadata-same :
        (md : Metadata)
        → IsStamp md.timestamp
        → All IsTrimmed md.authors
        → WritableOption narrow md.component
        → SameMetadata md (metadata_or_empty time_parse (metadata_to_cdx stamp narrow md))
    unfolding metadata_to_cdx
    metadata-same md is_stamp authors component = elim (Bool-cases (has_no_content md)) [
      | inl nothing ↦ rw (nothing) (
          subst (λ m. SameMetadata m no_metadata) (sym (no_content md nothing))
            (refl, refl, refl, tt, λ k. refl))
      | inr something ↦ rw (something) (written-same md is_stamp authors component)
    ]
