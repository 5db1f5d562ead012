-- ===== src/Dedup/Merge.antt =====
-- `mergePair` and the unions that it is made of.
use astinus.Base.{
  List, [], ◌∷◌, ◌++◌, map, Option, none, some, Text, codes, text_eq, nat_eq, ◌==◌, if◌then◌else◌,
  contains,
}
use astinus.Base.Dict.{Dict, lookup, insert}
use astinus.Base.Strings.{to_lower, trim_space}
use astinus.Base.Decimal.{ℤ, pos, format_nat, format_int, scan_int, increment}
use astinus.Model.{Hash, License, EvidenceLocation, Evidence, LayerInfo, Component}
use astinus.Dedup.Key.{canonical_cpe}

-- The loop that three of the unions share: an element without a key is dropped, and so is one whose
-- key is in `seen`.
unfoldable pub keep_first {ℓ} : {A : Type ℓ} → (A → Option Text) → List Text → List A → List A
keep_first key seen [] = []
keep_first key seen (x ∷ xs) = elim (key x) [
  | none ↦ keep_first key seen xs
  | some k ↦ if contains seen k then keep_first key seen xs else x ∷ keep_first key (k ∷ seen) xs
]

unfoldable pub add_locations :
    List Text → List EvidenceLocation → List EvidenceLocation → List EvidenceLocation
add_locations seen out [] = out
add_locations seen out (loc ∷ locs) =
    if contains seen loc.path
    then add_locations seen out locs
    else add_locations (loc.path ∷ seen) (out ++ loc ∷ []) locs

unfoldable pub merge_evidence : Option Evidence → Option Evidence → Option Evidence
merge_evidence none none = none
merge_evidence (some a) none = some a
merge_evidence none (some b) = some (record {
  method = b.method;
  confidence = b.confidence;
  locations = add_locations [] [] b.locations;
})
merge_evidence (some a) (some b) = some (record {
  method = if a.method == [] then b.method else a.method;
  confidence = if a.confidence == 0 then b.confidence else a.confidence;
  locations = add_locations (map (λ l. l.path) a.locations) a.locations b.locations;
})

unfoldable pub hash_key : Hash → Option Text
hash_key h =
    if h.value == [] then none else some (to_lower h.algorithm ++ (b':' ∷ to_lower h.value))

unfoldable pub merge_hashes : List Hash → List Hash → List Hash
merge_hashes a b = keep_first hash_key [] (a ++ b)

unfoldable pub cpe_key : Text → Option Text
cpe_key cpe = if canonical_cpe cpe == [] then none else some (canonical_cpe cpe)

unfoldable pub merge_cpes : List Text → List Text → List Text
merge_cpes a b = keep_first cpe_key [] (a ++ b)

unfoldable pub license_key : License → Option Text
license_key lic =
    let expression = to_lower (trim_space lic.expression) in
    let named = to_lower (trim_space lic.spdx_id) ++ (b'|' ∷ to_lower (trim_space lic.name)) in
    let k = if expression == [] then named else expression in
    if k == codes "|" then none else some k

unfoldable pub merge_licenses : List License → List License → List License
merge_licenses a b = keep_first license_key [] (a ++ b)

abbrev pub conflict_prefix : Text
conflict_prefix = codes "astinus:dedup:conflict:"

-- One round of the loop over the secondary's properties.
unfoldable pub add_property : Dict Text Text → Text → Text → Dict Text Text
add_property out k v = elim (lookup k out) [
  | none ↦ insert k v out
  | some existing ↦ if existing == v then insert k v out else insert (conflict_prefix ++ k) v out
]

unfoldable pub merge_properties : Dict Text Text → Dict Text Text → Dict Text Text
unfolding add_property
merge_properties out [] = out
merge_properties out ((k, v) ∷ b) = merge_properties (add_property out k v) b

abbrev pub also_in_layer : Text
also_in_layer = codes "astinus:dedup:also-in-layer"

abbrev pub merged_count : Text
merged_count = codes "astinus:dedup:merged-count"

-- The LayerInfo of the merge, and the properties with its breadcrumb.
unfoldable pub merge_layers :
    Option LayerInfo → Option LayerInfo → Dict Text Text → Option LayerInfo × Dict Text Text
merge_layers (some p) (some s) props = (
  some p,
  (if p.layer_index == s.layer_index
      then props
      else insert also_in_layer (format_nat s.layer_index) props),
)
merge_layers none (some s) props = (some s, props)
merge_layers p none props = (p, props)

-- The counter before the merge: 0 where the property is missing or does not scan.
unfoldable pub previous_count : Dict Text Text → ℤ
previous_count props = elim (lookup merged_count props) [
  | none ↦ pos 0
  | some v ↦ elim (scan_int v) [ none ↦ pos 0 | some n ↦ n ]
]

unfoldable pub merge_pair : Component → Component → Component
unfolding merge_evidence merge_hashes merge_cpes merge_licenses merge_layers previous_count
merge_pair primary secondary =
    let (layer, props) =
      merge_layers primary.layer_info secondary.layer_info
        (merge_properties primary.properties secondary.properties) in
    record primary {
      fields = record primary.fields {
        evidence = merge_evidence primary.evidence secondary.evidence;
        hashes = merge_hashes primary.hashes secondary.hashes;
        cpes = merge_cpes primary.cpes secondary.cpes;
        licenses = merge_licenses primary.licenses secondary.licenses;
        layer_info = layer;
        properties = insert merged_count (format_int (increment (previous_count props))) props;
      };
    }
