-- ===== src/CycloneDx/Tests.antt =====
-- A document with a component that has more than CycloneDX can say, and the theorems at it.
use astinus.Base.{
  ℕ, ◌≡◌, refl, inl, inr, Bool, true, false, [], ◌∷◌, Option, none, some, Text, if◌then◌else◌,
  codes, text_eq, nat_eq, ◌==◌, ==_iff, Bool-cases, contains, arith,
}
use astinus.Base.Dict.{lookup, insert}
use astinus.Model.{ComponentFields, Time, Sbom, Relationship, cons, nil}
use astinus.Model.Hashes.{normalize_hash_algorithm}
use astinus.Model.Samples.{bare, sbom_of}
use astinus.Base.{Result, ok}
use astinus.Base.Decimal.{format_nat}
use astinus.Base.Strings.{cut_prefix, to_lower, join_with}
use astinus.Base.Split.{split_on}
use astinus.Base.Paths.{last_piece, but_last}
use astinus.Cpe.Candidates.{default_threshold}
use astinus.Cpe.Purl.{Purl, PurlError, parse_purl}
use astinus.Cpe.Enrich.{enrich_one}
use astinus.CycloneDx.Marks.{is_cpe_key, astinus_properties}
use astinus.CycloneDx.MarkLaws.{is_mark}
use astinus.CycloneDx.RoundTrip.{IsWritable}
use astinus.CycloneDx.Components.{component_from_cdx, component_to_cdx}
use astinus.CycloneDx.Relations.{depends_on}
use astinus.CycloneDx.Document.{from_cdx, to_cdx}
use astinus.CycloneDx.DocumentLaws.{SameSbom, from_cdx-to_cdx}
use astinus.CycloneDx.Collision.{cpes-component_from_cdx, cpes-enrich_one}

abbrev exact : ℕ → ℕ
exact n = n

-- A library of a layer, with two CPEs and a property of Syft's.
abbrev zlib : ComponentFields
zlib = record (bare (codes "zlib")) {
  type = codes "library";
  name = codes "zlib";
  cpes = codes "cpe:2.3:a:zlib:zlib" ∷ codes "cpe:2.3:a:gnu:zlib" ∷ [];
  hashes = record { algorithm = codes "sha256"; value = codes "aa" } ∷ [];
  licenses = record { spdx_id = codes "Zlib"; name = []; expression = []; url = [] } ∷ [];
  supplier = codes "zlib";
  properties = (codes "syft:type", codes "apk") ∷ [];
  evidence = some (record {
    method = codes "filename";
    confidence = 90;
    locations = record { path = codes "lib/libz.so"; line_no = 0 } ∷ [];
  });
  layer_info = some (record {
    layer_digest = codes "sha256:1";
    layer_index = 12;
    dockerfile_line = [];
    added_by = codes "RUN";
  });
  origin = codes "base";
}

abbrev edge : Relationship
edge = record { source_ref = codes "zlib"; target_ref = codes "x"; type = depends_on }

abbrev document : Sbom
document = record (sbom_of (record { fields = zlib; sub_components = cons zlib nil nil } ∷ [])) {
  relationships = edge ∷ record edge { type = codes "contains" } ∷ [];
}

layer_read : (component_from_cdx (component_to_cdx exact zlib)).layer_info ≡ zlib.layer_info
unfolding component_from_cdx component_to_cdx lookup insert
layer_read = refl

only_syft :
    (p : Text → Bool) (k : Text)
    → p (codes "syft:type") ≡ false
    → p k ≡ true
    → lookup k zlib.properties ≡ none
unfolding lookup
only_syft p k foreign mark = elim (Bool-cases (codes "syft:type" == k)) [
  | inl same ↦ absurd (cc (foreign, mark, (==_iff (codes "syft:type") k).0 same))
  | inr other ↦ rw (other) refl
]

zlib-IsWritable : IsWritable exact zlib
unfolding normalize_hash_algorithm cut_prefix
zlib-IsWritable = (
  inl refl,
  (refl, tt),
  ((refl, inl refl), tt),
  (refl, refl, ((refl, refl), tt)),
  refl,
  omega arith,
  λ k. only_syft is_mark k refl,
  λ k. only_syft is_cpe_key k refl,
)

-- The start of the year 2024.
abbrev new_year : Text
new_year = codes "2024-01-01T00:00:00Z"

abbrev reads_new_year : Text → Text → Option Time
reads_new_year layout s =
    if s == new_year then some (record { seconds = 63839664000; nanos = 0 }) else none

abbrev dated : Sbom
dated = record document {
  metadata = record document.metadata { timestamp = record { seconds = 63839664000; nanos = 125 } };
}

from_cdx-to_cdx_example :
    SameSbom dated
      (from_cdx reads_new_year (to_cdx (λ t. new_year) exact dated) dated.source_format)
from_cdx-to_cdx_example =
    from_cdx-to_cdx reads_new_year (λ t. new_year) exact dated (refl, refl)
      (tt, tt, ((zlib-IsWritable, (zlib-IsWritable, tt, tt)), tt))

-- The confidence that the CPE enricher left.
abbrev rated : ComponentFields
rated = record (bare (codes "r")) {
  properties = (codes "astinus:cpe:confidence", codes "0.90") ∷ [];
}

rated_key : is_cpe_key (codes "astinus:cpe:confidence") ≡ true
unfolding cut_prefix
rated_key = refl

rated_there : lookup (codes "astinus:cpe:confidence") rated.properties ≡ some (codes "0.90")
unfolding lookup
rated_there = refl

rated_foreign : lookup (codes "astinus:cpe:confidence") (astinus_properties rated) ≡ none
unfolding astinus_properties lookup
rated_foreign = refl

cpes-component_from_cdx_example :
    (contains (component_from_cdx (component_to_cdx exact rated)).cpes (codes "0.90") ≡ true)
    × (lookup
          (codes "astinus:cpe:confidence")
          (component_from_cdx (component_to_cdx exact rated)).properties
        ≡ none)
cpes-component_from_cdx_example =
    cpes-component_from_cdx exact rated (codes "astinus:cpe:confidence") (codes "0.90") rated_key
      rated_there rated_foreign

abbrev parse : Text → Result PurlError Purl
parse s = parse_purl (λ t. some t) (λ q. none) s

abbrev left_pad : Purl
left_pad = record {
  type = codes "npm";
  namespace = [];
  name = codes "left-pad";
  version = codes "1";
  qualifiers = [];
  subpath = [];
}

left_pad_parsed : parse (codes "pkg:npm/left-pad@1") ≡ ok left_pad
unfolding parse_purl cut_prefix last_piece split_on to_lower join_with but_last
left_pad_parsed = refl

abbrev sought : ComponentFields
sought = record (bare (codes "s")) { purl = codes "pkg:npm/left-pad@1" }

cpes-enrich_one_example :
    let enriched = enrich_one format_nat parse (λ e. []) (λ p. []) default_threshold false sought in
    contains (component_from_cdx (component_to_cdx exact enriched)).cpes (codes "no-match") ≡ true
cpes-enrich_one_example =
    cpes-enrich_one exact format_nat parse (λ e. []) (λ p. []) default_threshold false sought
      left_pad refl refl left_pad_parsed refl
