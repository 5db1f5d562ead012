-- ===== src/Cpe/Tests.antt =====
-- Names, candidates and a component, and the theorems at them.
use astinus.Base.{
  ℕ, ◌≡◌, refl, true, false, List, [], ◌∷◌, none, some, Text, codes, text_eq, nat_eq, Result, ok,
  count, Distinct,
}
use astinus.Base.Decimal.{format_nat}
use astinus.Base.Strings.{cut_prefix, to_lower, join_with}
use astinus.Base.Split.{split_on}
use astinus.Base.Paths.{last_piece, but_last}
use astinus.Base.Sort.{text_less}
use astinus.Model.{ComponentFields}
use astinus.Model.Samples.{bare}
use astinus.Cpe.Name.{CpeName, cpe_string, parse_cpe, starred, is_valid_cpe, parse_cpe-cpe_string}
use astinus.Cpe.Candidates.{Candidate, default_threshold, classify, dedupe_candidates}
use astinus.Cpe.ChoiceLaws.{cpes_of, total, IsBest, IsDivided, classify-IsBest}
use astinus.Cpe.DedupeLaws.{confidence_of, highest, dedupe_candidates-highest}
use astinus.Cpe.Purl.{Purl, PurlError, parse_purl, resolve_heuristic}
use astinus.Cpe.Enrich.{enrich_one}
use astinus.Cpe.FrameLaws.{IsEnriched, enrich_one-IsEnriched}

abbrev express : CpeName
express = record {
  part = codes "a";
  vendor = codes "openjsf";
  product = codes "express";
  version = codes "4.18.2";
  update = [];
  edition = [];
  language = [];
  sw_edition = [];
  target_sw = [];
  target_hw = [];
  other = [];
}

cpe_string_example : cpe_string express ≡ codes "cpe:2.3:a:openjsf:express:4.18.2:*:*:*:*:*:*:*"
unfolding cpe_string
cpe_string_example = refl

is_valid_cpe_examples :
    (is_valid_cpe (codes "cpe:2.3:x:a:b:c:*:*:*:*:*:*:*") ≡ false)
    × (is_valid_cpe (codes "cpe:2.3:o:a:b:c:*:*:*:*:*:*:*") ≡ true)
    × (is_valid_cpe (codes "cpe:/a:b:c") ≡ false)
unfolding is_valid_cpe
is_valid_cpe_examples = (refl, refl, refl)

parse_cpe-cpe_string_example : parse_cpe (cpe_string express) ≡ some (starred express)
parse_cpe-cpe_string_example =
    parse_cpe-cpe_string express
      (refl, (refl, (refl, (refl, (refl, (refl, (refl, (refl, (refl, (refl, (refl, tt)))))))))))
      refl

abbrev candidate : Text → ℕ → Text → Candidate
candidate cpe confidence source = record {
  cpe = cpe;
  confidence = confidence;
  source = source;
  evidence = [];
  rejected_reason = [];
}

abbrev slate : List Candidate
slate =
    candidate (codes "a") 50 (codes "nvd-api")
    ∷ candidate (codes "b") 30 (codes "heuristic")
    ∷ candidate (codes "a") 95 (codes "bundled")
    ∷ []

dedupe_candidates_example :
    dedupe_candidates slate
    ≡ candidate (codes "a") 95 (codes "bundled+nvd-api")
      ∷ candidate (codes "b") 30 (codes "heuristic")
      ∷ []
unfolding dedupe_candidates text_less
dedupe_candidates_example = refl

dedupe_candidates-highest_example :
    Distinct (cpes_of (dedupe_candidates slate))
    × (confidence_of (codes "a") (dedupe_candidates slate) ≡ highest (codes "a") none slate)
dedupe_candidates-highest_example = dedupe_candidates-highest slate (codes "a")

classify-IsBest_example :
    (total (codes "a") (classify format_nat slate default_threshold)
      ≡ count (codes "a") (cpes_of slate))
    × IsBest default_threshold slate (classify format_nat slate default_threshold).primary
    × IsDivided default_threshold (classify format_nat slate default_threshold)
classify-IsBest_example = classify-IsBest format_nat slate default_threshold (codes "a")

abbrev parse : Text → Result PurlError Purl
parse s = parse_purl (λ t. some t) (λ q. none) s

parse_purl_example :
    parse (codes "pkg:GOLANG/github.com/mikefarah/yq@v4?a=b#cmd")
    ≡ ok (record {
      type = codes "golang";
      namespace = codes "github.com/mikefarah";
      name = codes "yq";
      version = codes "v4";
      qualifiers = [];
      subpath = codes "cmd";
    })
unfolding parse_purl cut_prefix last_piece split_on to_lower join_with but_last
parse_purl_example = refl

abbrev component : ComponentFields
component = record (bare (codes "x")) {
  purl = codes "pkg:npm/express@4";
  properties = (codes "keep", codes "1") ∷ (codes "astinus:cpe:lookup", codes "no-match") ∷ [];
}

enrich_one-IsEnriched_example :
    IsEnriched format_nat parse
      (λ e. [])
      resolve_heuristic
      default_threshold
      false
      (codes "keep")
      (unfold cut_prefix in refl)
      component
      (enrich_one format_nat parse (λ e. []) resolve_heuristic default_threshold false component)
enrich_one-IsEnriched_example =
    enrich_one-IsEnriched format_nat parse (λ e. []) resolve_heuristic default_threshold false
      (codes "keep") (unfold cut_prefix in refl) component
