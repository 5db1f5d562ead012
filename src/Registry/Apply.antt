-- ===== src/Registry/Apply.antt =====
-- internal/enrich/registry/enricher.go: what metadata adds to a component.
use astinus.Base.{
  ℕ, Bool, true, false, ◌&&◌, ◌||◌, not, List, [], ◌∷◌, ◌++◌, none, some, Text, codes, text_eq,
  nat_eq, ◌==◌, if◌then◌else◌,
}
use astinus.Base.Dict.{Dict, lookup, insert}
use astinus.Base.Strings.{cut_prefix, before_any, to_lower}
use astinus.Model.{Hash, License, ComponentFields}
use astinus.Model.Hashes.{normalize_hash_algorithm}
use astinus.Registry.Resolve.{RegistryLicense, Supplier, Metadata}

abbrev pub is_same_license : RegistryLicense → License → Bool
is_same_license l e =
    if not (l.spdx_id == []) && e.spdx_id == l.spdx_id
    then true
    else if not (l.name == []) && e.name == l.name
    then true
    else not (l.spdx_id == []) && e.expression == l.spdx_id

unfoldable pub license_present : List License → RegistryLicense → Bool
license_present [] l = false
license_present (e ∷ existing) l =
    let rest = license_present existing l in if is_same_license l e then true else rest

abbrev pub license_of : RegistryLicense → License
license_of l = record { spdx_id = l.spdx_id; name = l.name; expression = []; url = l.url }

unfoldable pub add_license : List License → RegistryLicense → List License
unfolding license_present
add_license existing l =
    if l.spdx_id == [] && l.name == []
    then existing
    else if license_present existing l
    then existing
    else existing ++ (license_of l ∷ [])

unfoldable pub merge_licenses : List License → List RegistryLicense → List License
unfolding add_license
merge_licenses existing [] = existing
merge_licenses existing (l ∷ ls) = merge_licenses (add_license existing l) ls

unfoldable pub has_algorithm : List Hash → Text → Bool
has_algorithm [] alg = false
has_algorithm (h ∷ hashes) alg =
    let rest = has_algorithm hashes alg in if h.algorithm == alg then true else rest

-- The body of the loop of `mergeHashes`, for a normalised algorithm.
unfoldable pub add_hash : List Hash → Text → Text → List Hash
unfolding has_algorithm
add_hash hashes alg hex =
    if alg == [] || hex == []
    then hashes
    else if has_algorithm hashes alg
    then hashes
    else hashes ++ (record { algorithm = alg; value = hex } ∷ [])

unfoldable pub merge_hashes : List Hash → Dict Text Text → List Hash
unfolding add_hash normalize_hash_algorithm
merge_hashes hashes [] = hashes
merge_hashes hashes ((alg, hex) ∷ given) =
    merge_hashes (add_hash hashes (normalize_hash_algorithm alg) hex) given

unfoldable pub format_supplier : Supplier → Text
format_supplier s =
    if s.email == [] then s.name else s.name ++ (codes " <" ++ (s.email ++ codes ">"))

-- `strings.IndexAny(rest, "/@?#")`
abbrev pub ends_type : ℕ → Bool
ends_type c = c == b'/' || c == b'@' || c == b'?' || c == b'#'

unfoldable pub source_for_type : Text → Text
source_for_type purl = elim (cut_prefix purl (codes "pkg:")) [
  | none ↦ []
  | some rest ↦ elim (before_any ends_type rest) [
    | none ↦ to_lower rest
    | some type ↦ to_lower type
  ]
]

abbrev pub or_given : Text → Text → Text
or_given old new = if old == [] then new else old

-- `setIfAbsent`, under the test for an empty value.
unfoldable pub set_if_absent : Text → Text → Dict Text Text → Dict Text Text
set_if_absent k v m = if v == [] then m else elim (lookup k m) [ some w ↦ m | none ↦ insert k v m ]

abbrev pub registry_source : Text
registry_source = codes "astinus:registry:source"

abbrev pub registry_fetched_at : Text
registry_fetched_at = codes "astinus:registry:fetched-at"

unfoldable pub stamp_registry : Text → Text → Metadata → Dict Text Text → Dict Text Text
unfolding set_if_absent source_for_type
stamp_registry now purl meta props =
    set_if_absent (codes "astinus:registry:documentation") meta.documentation (
      set_if_absent (codes "astinus:registry:bug-tracker") meta.bug_tracker (
        set_if_absent (codes "astinus:registry:repository") meta.repository (
          set_if_absent (codes "astinus:registry:homepage") meta.homepage (
            insert registry_fetched_at now (insert registry_source (source_for_type purl) props)))))

-- `applyMetadata`
unfoldable pub apply_metadata : Text → Metadata → ComponentFields → ComponentFields
unfolding merge_licenses merge_hashes format_supplier stamp_registry
apply_metadata now meta c = record c {
  description = or_given c.description meta.description;
  author = or_given c.author meta.author;
  supplier =
      or_given c.supplier (if meta.supplier.name == [] then [] else format_supplier meta.supplier);
  licenses = merge_licenses c.licenses meta.licenses;
  hashes = merge_hashes c.hashes meta.hashes;
  properties = stamp_registry now c.purl meta c.properties;
}
