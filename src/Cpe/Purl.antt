-- ===== src/Cpe/Purl.antt =====
-- internal/enrich/cpe/purl.go and matcher.go: package URLs, and the resolvers of the default chain. The
-- decoding of net/url is a parameter, and so is the bundled dictionary.
use astinus.Base.{
  ℕ, List, [], ◌∷◌, ◌++◌, map, Option, none, some, Text, codes, text_eq, nat_eq, ◌==◌,
  if◌then◌else◌, Result, ok, err,
}
use astinus.Base.Dict.{Dict, insert}
use astinus.Base.Strings.{to_lower, cut_prefix, join_with}
use astinus.Base.Split.{split_on}
use astinus.Base.Paths.{last_piece, but_last}
use astinus.Cpe.Name.{build_cpe}
use astinus.Cpe.Candidates.{Candidate}

pub record Purl : Type 0 where
  pub type : Text
  pub namespace : Text
  pub name : Text
  pub version : Text
  pub qualifiers : Dict Text Text
  pub subpath : Text

-- The errors of `ParsePURL`, without their texts.
pub data PurlError : Type 0 where
  empty missing_prefix missing_separator missing_name : PurlError

-- A text before and after the first, or the last, of a byte.
unfoldable pub cut_first : ℕ → Text → Option (Text × Text)
cut_first d [] = none
cut_first d (c ∷ s) =
    let rest = cut_first d s in
    if c == d then some ([], s) else elim rest [ none ↦ none | some r ↦ some (c ∷ r.0, r.1) ]

unfoldable pub cut_last : ℕ → Text → Option (Text × Text)
cut_last d [] = none
cut_last d (c ∷ s) = elim (cut_last d s) [
  | some r ↦ some (c ∷ r.0, r.1)
  | none ↦ if c == d then some ([], s) else none
]

-- What stands before and after, if the byte is there.
abbrev pub or_whole : Text → Option (Text × Text) → Text × Text
or_whole s none = (s, [])
or_whole s (some r) = r

-- What is done with the qualifiers: the first value of each key that has one.
unfoldable pub first_values : Dict Text (List Text) → Dict Text Text
first_values [] = []
first_values ((k, []) ∷ q) = first_values q
first_values ((k, v ∷ vs) ∷ q) = insert k v (first_values q)

module _ (path_unescape : Text → Option Text)
    (parse_query : Text → Option (Dict Text (List Text))) where
  unfoldable pub decode_segment : Text → Text
  decode_segment s = elim (path_unescape s) [ none ↦ s | some dec ↦ dec ]

  abbrev pub qualifiers_of : Option (Text × Text) → Dict Text Text
  qualifiers_of none = []
  qualifiers_of (some r) = elim (parse_query r.1) [ none ↦ [] | some q ↦ first_values q ]

  -- The last part of `ParsePURL`, from the segments after the type on.
  unfoldable pub name_segments : Purl → List Text → Result PurlError Purl
  unfolding decode_segment
  name_segments p segs =
      if last_piece segs == []
      then err missing_name
      else ok (record p {
        name = decode_segment (last_piece segs);
        namespace = join_with (b'/' ∷ []) (map decode_segment (but_last segs));
      })

  -- What follows the prefix, cut at `#`, `?`, `@` and the first slash.
  unfoldable pub parse_rest : Text → Result PurlError Purl
  unfolding name_segments cut_first cut_last first_values
  parse_rest s =
      let (before_hash, subpath) = or_whole s (cut_last b'#' s) in
      let query = cut_last b'?' before_hash in
      let (path, _) = or_whole before_hash query in
      let (located, version) = or_whole path (cut_first b'@' path) in
      elim (cut_first b'/' located) [
        | none ↦ err missing_separator
        | some r ↦
            name_segments
              (record {
                type = to_lower r.0;
                namespace = [];
                name = [];
                version = version;
                qualifiers = qualifiers_of query;
                subpath = subpath;
              })
              (split_on b'/' r.1)
      ]

  unfoldable pub parse_purl : Text → Result PurlError Purl
  unfolding parse_rest
  parse_purl s = if s == [] then err empty else elim (cut_prefix s (codes "pkg:")) [
    | none ↦ err missing_prefix
    | some rest ↦ parse_rest rest
  ]

-- `Resolver`, as its one method.
abbrev pub Resolver : Type 0
Resolver = Purl → List Candidate

abbrev pub candidate_of : Text → Text → ℕ → Text → List Candidate
candidate_of cpe source confidence evidence =
    record {
      cpe = cpe;
      confidence = confidence;
      source = source;
      evidence = evidence;
      rejected_reason = [];
    }
    ∷ []

-- `BundledResolver.Resolve`, with the vendor and product that the dictionary has.
unfoldable pub resolve_bundled : (Text → Text → Text → Option (Text × Text)) → Resolver
unfolding build_cpe
resolve_bundled dict_lookup p = elim (dict_lookup p.type p.namespace p.name) [
  | none ↦ []
  | some entry ↦
      candidate_of (build_cpe entry.0 entry.1 p.version) (codes "bundled") 95
        (codes "bundled purl_to_cpe.json hit")
]

unfoldable pub guess_vendor_product : Purl → Text × Text
guess_vendor_product p =
    if p.type == codes "pypi"
    then (p.name ++ codes "_project", p.name)
    else if p.type == codes "maven"
    then ((if p.namespace == [] then p.name else last_piece (split_on b'.' p.namespace)), p.name)
    else if p.type == codes "golang"
    then ((if p.namespace == [] then p.name else last_piece (split_on b'/' p.namespace)), p.name)
    else (p.name, p.name)

unfoldable pub resolve_heuristic : Resolver
unfolding guess_vendor_product build_cpe
resolve_heuristic p =
    let guess = guess_vendor_product p in
    if p.name == []
    then []
    else candidate_of (build_cpe guess.0 guess.1 p.version) (codes "heuristic") 70
        (codes "PURL-shape guess")

abbrev pub or_next : List Candidate → List Candidate → List Candidate
or_next [] later = later
or_next (c ∷ cs) later = c ∷ cs

-- `Chain.Resolve`: the first resolver with an answer.
unfoldable pub resolve_chain : List Resolver → Resolver
resolve_chain [] p = []
resolve_chain (r ∷ rs) p = or_next (r p) (resolve_chain rs p)
