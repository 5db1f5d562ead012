-- ===== src/Model/Hashes.antt =====
-- internal/sbom/model/hash.go: the canonical names of hash algorithms.
use astinus.Base.{
  ℕ, ◌≡◌, refl, ◌||◌, not, map, Text, codes, text_eq, nat_eq, ◌==◌, if◌then◌else◌, keep,
}
use astinus.Base.Strings.{to_lower, trim_space}

abbrev pub dashed : ℕ → ℕ
dashed c = if c == b'_' then b'-' else c

-- The spellings of the cases of the switch; the last removes the dashes.
abbrev pub canonical_algorithm : Text → Text
canonical_algorithm s =
    if s == codes "blake2b-256" || s == codes "blake2b256"
    then codes "blake2b-256"
    else if s == codes "blake2b-512" || s == codes "blake2b512"
    then codes "blake2b-512"
    else if s == codes "sha-1"
    then codes "sha1"
    else if s == codes "sha-256"
    then codes "sha256"
    else if s == codes "sha-384"
    then codes "sha384"
    else if s == codes "sha-512"
    then codes "sha512"
    else keep (λ c. not (c == b'-')) s

unfoldable pub normalize_hash_algorithm : Text → Text
unfolding to_lower trim_space
normalize_hash_algorithm s = canonical_algorithm (map dashed (to_lower (trim_space s)))

normalize_hash_algorithm_examples :
    (normalize_hash_algorithm (codes " SHA_256") ≡ codes "sha256")
    × (normalize_hash_algorithm (codes "BLAKE2b256") ≡ codes "blake2b-256")
    × (normalize_hash_algorithm (codes "SHA3-256") ≡ codes "sha3256")
unfolding normalize_hash_algorithm
normalize_hash_algorithm_examples = (refl, refl, refl)
