-- ===== src/CycloneDx/Parts.antt =====
-- internal/sbom/cyclonedx/mapper.go: types, hashes, licenses and evidence of a component.
use astinus.Base.{
  ℕ, Bool, ◌&&◌, List, [], ◌∷◌, ◌++◌, map, keep, not, Option, none, some, Text, codes, text_eq,
  nat_eq, ◌==◌, if◌then◌else◌, contains, length,
}
use astinus.Model.{Hash, License, EvidenceLocation, Evidence}
use astinus.Model.Hashes.{normalize_hash_algorithm}
use astinus.CycloneDx.Wire.{CdxHash, CdxLicense, LicenseChoice, EvidenceIdentity, CdxEvidence}

-- The keys of `componentTypeMap`, which have the same spelling on both sides.
abbrev pub component_type_map : List Text
component_type_map =
    codes "application"
    ∷ codes "container"
    ∷ codes "device"
    ∷ codes "file"
    ∷ codes "firmware"
    ∷ codes "framework"
    ∷ codes "library"
    ∷ codes "operating-system"
    ∷ codes "platform"
    ∷ []

abbrev pub unknown_type : Text
unknown_type = codes "unknown"

unfoldable pub map_component_type_from_cdx : Text → Text
map_component_type_from_cdx t = if contains component_type_map t then t else unknown_type

-- In both branches the spelling is kept.
abbrev pub map_component_type_to_cdx : Text → Text
map_component_type_to_cdx t = t

-- `toCDXHashName`
unfoldable pub to_cdx_hash_name : Text → Text
to_cdx_hash_name s =
    if s == codes "md5"
    then codes "MD5"
    else if s == codes "sha1"
    then codes "SHA-1"
    else if s == codes "sha256"
    then codes "SHA-256"
    else if s == codes "sha384"
    then codes "SHA-384"
    else if s == codes "sha512"
    then codes "SHA-512"
    else if s == codes "blake2b-256"
    then codes "BLAKE2b-256"
    else if s == codes "blake2b-512"
    then codes "BLAKE2b-512"
    else if s == codes "blake3"
    then codes "BLAKE3"
    else if s == codes "swhid"
    then codes "SWHID"
    else s

abbrev pub hash_from_cdx : CdxHash → Hash
hash_from_cdx h = record { algorithm = normalize_hash_algorithm h.algorithm; value = h.value }

abbrev pub hash_to_cdx : Hash → CdxHash
hash_to_cdx h = record { algorithm = to_cdx_hash_name h.algorithm; value = h.value }

unfoldable pub hashes_from_cdx : List CdxHash → List Hash
unfolding normalize_hash_algorithm
hashes_from_cdx hashes = map hash_from_cdx hashes

unfoldable pub hashes_to_cdx : List Hash → List CdxHash
unfolding to_cdx_hash_name
hashes_to_cdx hashes = map hash_to_cdx hashes

-- `License.IsEmpty`
abbrev pub is_empty_license : License → Bool
is_empty_license l = l.spdx_id == [] && (l.name == [] && (l.expression == [] && l.url == []))

abbrev pub structured : CdxLicense → License
structured l = record { spdx_id = l.id; name = l.name; expression = []; url = l.url }

-- The body of the loop of `licensesFromCDX`.
abbrev pub license_from_cdx : LicenseChoice → List License
license_from_cdx choice =
    if not (choice.expression == [])
    then record { spdx_id = []; name = []; expression = choice.expression; url = [] } ∷ []
    else elim choice.license [
      | none ↦ []
      | some l ↦ if is_empty_license (structured l) then [] else structured l ∷ []
    ]

unfoldable pub licenses_from_cdx : List LicenseChoice → List License
licenses_from_cdx [] = []
licenses_from_cdx (choice ∷ choices) = license_from_cdx choice ++ licenses_from_cdx choices

abbrev pub license_to_cdx : License → LicenseChoice
license_to_cdx l =
    if not (l.expression == [])
    then record { expression = l.expression; license = none }
    else record {
      expression = [];
      license = some (record { id = l.spdx_id; name = l.name; url = l.url });
    }

unfoldable pub licenses_to_cdx : List License → List LicenseChoice
licenses_to_cdx licenses = map license_to_cdx (keep (λ l. not (is_empty_license l)) licenses)

-- `Evidence.IsZero`
abbrev pub is_zero : Evidence → Bool
is_zero e = e.method == [] && (e.confidence == 0 && length e.locations == 0)

abbrev pub location_at : Text → EvidenceLocation
location_at path = record { path = path; line_no = 0 }

-- The first identity, if there is one.
abbrev pub method_of : List EvidenceIdentity → Text
method_of [] = []
method_of (first ∷ identity) = first.field

-- `float32Ptr`
abbrev pub or_zero : Option ℕ → ℕ
or_zero none = 0
or_zero (some n) = n

abbrev pub confidence_of : List EvidenceIdentity → ℕ
confidence_of [] = 0
confidence_of (first ∷ identity) = or_zero first.confidence

abbrev pub read_evidence : CdxEvidence → Evidence
read_evidence e = record {
  method = method_of e.identity;
  confidence = confidence_of e.identity;
  locations = map location_at (keep (λ path. not (path == [])) e.occurrences);
}

unfoldable pub evidence_from_cdx : Option CdxEvidence → Option Evidence
evidence_from_cdx none = none
evidence_from_cdx (some e) = if is_zero (read_evidence e) then none else some (read_evidence e)

-- `narrow` is the confidence after `float32`.
module _ (narrow : ℕ → ℕ) where
  abbrev pub identity_of : Evidence → List EvidenceIdentity
  identity_of e =
      if e.method == [] && e.confidence == 0
      then []
      else record { field = e.method; confidence = some (narrow e.confidence) } ∷ []

  unfoldable pub evidence_to_cdx : Option Evidence → Option CdxEvidence
  evidence_to_cdx none = none
  evidence_to_cdx (some e) =
      if is_zero e
      then none
      else some (record {
        identity = identity_of e;
        occurrences = map (λ location. location.path) e.locations;
      })
