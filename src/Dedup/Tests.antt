-- ===== src/Dedup/Tests.antt =====
-- Small component lists, and the theorems at them.
use astinus.Base.{◌≡◌, refl, List, [], ◌∷◌, map, none, Text, codes, text_eq, count}
use astinus.Base.Dict.{lookup, insert}
use astinus.Base.Strings.{to_lower, trim_space, before_any, cut_prefix}
use astinus.Base.Decimal.{format_nat, format_int, scan_int, increment}
use astinus.Model.{Hash, Component, nil}
use astinus.Dedup.Key.{
  dedup_key, canonical_purl, canonical_cpe, find_hash, first_non_empty, primary_score, pick_primary,
}
use astinus.Dedup.Merge.{
  keep_first, hash_key, cpe_key, license_key, add_locations, merge_properties, merge_pair,
}
use astinus.Dedup.Run.{run}
use astinus.Dedup.Keys.{first_of_each}
use astinus.Dedup.Laws.{keys-run, run_idem}
use astinus.Dedup.Contents.{named_cpe, named_hash, named_license, once_if, merge_pair-union}
use astinus.Dedup.Union.{keys}

dedup : Unit {0}
unfolding run dedup_key canonical_purl canonical_cpe find_hash first_non_empty primary_score
    pick_primary keep_first hash_key cpe_key license_key add_locations merge_properties merge_pair
    lookup insert to_lower trim_space before_any cut_prefix format_nat format_int scan_int increment
dedup = tt

abbrev component : Text → Text → Text → List Text → List Hash → Component
component name version purl cpes hashes = record {
  fields = record {
    bom_ref = name;
    type = codes "library";
    group = [];
    name = name;
    version = version;
    description = [];
    scope = [];
    purl = purl;
    cpes = cpes;
    hashes = hashes;
    licenses = [];
    supplier = [];
    author = [];
    publisher = [];
    copyright = [];
    properties = [];
    evidence = none;
    layer_info = none;
    origin = [];
  };
  sub_components = nil;
}

abbrev sha : Text → List Hash
sha v = record { algorithm = codes "SHA256"; value = v } ∷ []

abbrev given : List Component
given =
    component (codes "jq") (codes "1.6") (codes "pkg:generic/jq@1.6?a=b") [] []
    ∷ component (codes "config") [] [] [] []
    ∷ component (codes "JQ") (codes "1.6") (codes "pkg:generic/JQ@1.6") (codes "cpe:2.3:a:jq" ∷ [])
        (sha (codes "AB"))
    ∷ component (codes "tool") [] [] [] (sha (codes "cd"))
    ∷ component (codes "copy") [] [] [] (sha (codes "CD"))
    ∷ []

run-given :
    (map dedup_key (run given).0 ≡ codes "purl:pkg:generic/jq@1.6" ∷ [] ∷ codes "sha256:cd" ∷ [])
    × ((run given).1 ≡ 2)
    × (map (λ c. c.name) (run given).0 ≡ codes "JQ" ∷ codes "config" ∷ codes "tool" ∷ [])
unfolding dedup
run-given = (refl, refl, refl)

keys-run_example : map dedup_key (run given).0 ≡ first_of_each [] (map dedup_key given)
keys-run_example = keys-run given (tt, (tt, ((refl, tt), ((refl, tt), ((refl, tt), tt)))))

run_idem_example : run (run given).0 ≡ ((run given).0, 0)
run_idem_example = run_idem given (tt, (tt, ((refl, tt), ((refl, tt), ((refl, tt), tt)))))

abbrev primary : Component
primary = component (codes "jq") (codes "1.6") [] (codes "cpe:2.3:a:jq" ∷ []) (sha (codes "AB"))

abbrev secondary : Component
secondary =
    component (codes "jq") (codes "1.6") [] (codes "CPE:2.3:A:JQ" ∷ codes "cpe:2.3:a:x" ∷ [])
      (sha (codes "ab"))

merge_pair-union_example :
    (count (codes "cpe:2.3:a:jq") (keys named_cpe (merge_pair primary secondary).cpes)
      ≡ once_if named_cpe primary.cpes secondary.cpes (codes "cpe:2.3:a:jq"))
    × (count (codes "cpe:2.3:a:jq") (keys named_hash (merge_pair primary secondary).hashes)
        ≡ once_if named_hash primary.hashes secondary.hashes (codes "cpe:2.3:a:jq"))
    × (count (codes "cpe:2.3:a:jq") (keys named_license (merge_pair primary secondary).licenses)
        ≡ once_if named_license primary.licenses secondary.licenses (codes "cpe:2.3:a:jq"))
merge_pair-union_example = merge_pair-union primary secondary (codes "cpe:2.3:a:jq")
