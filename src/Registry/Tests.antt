-- ===== src/Registry/Tests.antt =====
-- A registry, a component without metadata, and the theorems at them.
use astinus.Base.{
  ◌≡◌, refl, sym, ap, ◌∙◌, inl, inr, true, List, [], ◌∷◌, Option, none, some, Text, codes, text_eq,
  nat_eq, ◌==◌, if◌then◌else◌, Result, ok, err,
}
use astinus.Base.Dict.{Dict, lookup, insert}
use astinus.Base.Strings.{to_lower}
use astinus.Model.{ComponentFields, Sbom}
use astinus.Model.Samples.{bare, leaf, sbom_of}
use astinus.Model.Walk.{walk_components, all_components}
use astinus.Cpe.Purl.{Purl, PurlError, parse_purl}
use astinus.Registry.Resolve.{
  Metadata, not_found, unsupported, Source, canonical_purl_key, try_sources, resolve,
}
use astinus.Registry.Apply.{apply_metadata}
use astinus.Registry.Run.{enrich}
use astinus.Registry.CacheLaws.{
  AreAlike, IsSound, IsPurlOf, IsSbomPurl, process_uncached, enrich-walk_components,
}
use astinus.Registry.KeepLaws.{IsEnriched, apply_metadata_idem, apply_metadata-IsEnriched}

abbrev left_pad : Metadata
left_pad = record {
  description = codes "pads";
  licenses = record { spdx_id = codes "WTFPL"; name = []; url = [] } ∷ [];
  supplier = record { name = codes "azer"; url = []; email = codes "a@b" };
  author = [];
  homepage = codes "https://x";
  repository = [];
  bug_tracker = [];
  documentation = [];
  hashes = (codes "SHA-1", codes "5b8a") ∷ [];
}

abbrev npm : Source
npm = record {
  supports = λ type. true;
  requires_network = true;
  fetch = λ p.
      if canonical_purl_key p == codes "npm||left-pad|1.3.0"
      then ok (some left_pad)
      else err not_found;
}

-- A source that reads the name as it is written, capitals included.
abbrev by_name : Source
by_name = record npm { fetch = λ p. ok (some (record left_pad { description = p.name })) }

abbrev padded : ComponentFields
padded = record (bare (codes "p")) {
  purl = codes "pkg:npm/Left-Pad@1.3.0";
  author = codes "me";
  licenses = record { spdx_id = codes "MIT"; name = []; expression = []; url = [] } ∷ [];
}

abbrev plain : Text → Option Text
plain t = some t

abbrev no_query : Text → Option (Dict Text (List Text))
no_query t = none

abbrev listed : Sbom
listed = sbom_of (leaf padded ∷ leaf (record padded { bom_ref = codes "q" }) ∷ [])

apply_metadata_example : (apply_metadata (codes "t") left_pad padded).licenses ≡ (
    record { spdx_id = codes "MIT"; name = []; expression = []; url = [] }
    ∷ record { spdx_id = codes "WTFPL"; name = []; expression = []; url = [] }
    ∷ [])
unfolding apply_metadata
apply_metadata_example = refl

apply_metadata_supplier : (apply_metadata (codes "t") left_pad padded).supplier ≡ codes "azer <a@b>"
unfolding apply_metadata
apply_metadata_supplier = refl

abbrev unknown : Purl
unknown = record {
  type = codes "npm";
  namespace = [];
  name = codes "x";
  version = [];
  qualifiers = [];
  subpath = [];
}

-- Without a source for the type the first answer is that it is unsupported, and the next, from the
-- cache, that it was not found.
resolve_unsupported :
    let (cache, first) = resolve [] true unknown [] in
    (first ≡ err unsupported) × ((resolve [] true unknown cache).1 ≡ err not_found)
unfolding resolve lookup insert to_lower
resolve_unsupported = (refl, refl)

or_purl : Purl → Result PurlError Purl → Purl
or_purl a (ok x) = x
or_purl a (err e) = a

ok_injective : (r : Result PurlError Purl) (a b : Purl) → r ≡ ok a → r ≡ ok b → a ≡ b
unfolding or_purl
ok_injective r a b e e' = ap (or_purl a) (sym e ∙ e')

read_purl :
    (parse : Text → Result PurlError Purl) (r : Purl)
    → IsPurlOf parse (padded ∷ record padded { bom_ref = codes "q" } ∷ []) r
    → parse padded.purl ≡ ok r
read_purl parse r (inl e) = e
read_purl parse r (inr (inl e)) = e
read_purl parse r (inr (inr none_left)) = absurd none_left

by_name-AreAlike : AreAlike (by_name ∷ []) true (IsSbomPurl plain no_query listed)
unfolding all_components
by_name-AreAlike p q listed_p listed_q e =
    let parse = parse_purl plain no_query in
    ap (λ r. (try_sources true (by_name ∷ []) r).0)
      (ok_injective (parse padded.purl) p q (read_purl parse p listed_p)
        (read_purl parse q listed_q))

nothing_cached : IsSound (by_name ∷ []) true (IsSbomPurl plain no_query listed) []
unfolding lookup
nothing_cached key v h = absurd (cc h)

enrich-walk_components_example :
    IsSound
      (by_name ∷ [])
      true
      (IsSbomPurl plain no_query listed)
      (enrich plain no_query (codes "t") (by_name ∷ []) true [] listed).0
    × ((enrich plain no_query (codes "t") (by_name ∷ []) true [] listed).1 ≡ record listed {
      components =
          walk_components
            (process_uncached (by_name ∷ []) true plain no_query (codes "t"))
            listed.components;
    })
enrich-walk_components_example =
    enrich-walk_components plain no_query (codes "t") (by_name ∷ []) true [] listed by_name-AreAlike
      nothing_cached

apply_metadata_idem_example :
    apply_metadata (codes "t") left_pad (apply_metadata (codes "t") left_pad padded)
    ≡ apply_metadata (codes "t") left_pad padded
apply_metadata_idem_example = apply_metadata_idem (codes "t") left_pad padded

apply_metadata-IsEnriched_example :
    IsEnriched (codes "t") left_pad padded (apply_metadata (codes "t") left_pad padded)
apply_metadata-IsEnriched_example = apply_metadata-IsEnriched (codes "t") left_pad padded
