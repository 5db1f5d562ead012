-- ===== src/ContentHash.antt =====
-- internal/enrich/basediff/contenthash: bloom.go and baseset.go, the set of a base image's files by
-- hash. Bit `n` of the filter stands for bit `n % 64` of word `n / 64`. The float logarithms that size
-- the filter are parameters; the mutex has no counterpart.
pub mod Laws
pub mod Scan
mod Tests
use astinus.Base.{
  ℕ, zero, suc, ◌+◌, ◌-◌, ◌*◌, ◌/◌, ◌%◌, ◌^◌, ◌≡◌, refl, Bool, true, false, ◌&&◌, ◌||◌, List, [],
  ◌∷◌, ◌++◌, Option, none, some, ltb, leb, Text, codes, text_eq, nat_eq, ◌==◌, if◌then◌else◌,
  length, contains,
}
use astinus.Base.Dict.{Dict, lookup, insert}

pub record Evidence : Type 0 where
  pub base_path : Text
  pub layer_index : ℕ
  pub size : ℕ

pub record Bloom : Type 0 where
  pub bits : ℕ → Bool
  pub n_bits : ℕ
  pub n_hashes : ℕ

-- `newBloom`, by the two ceilings that it computes from the expected number of items.
unfoldable pub new_bloom : ℕ → ℕ → Bloom
new_bloom m k = record {
  bits = λ _. false;
  n_bits = if ltb m 64 then 64 else m;
  n_hashes = if ltb k 1 then 1 else k;
}

-- The value of a hexadecimal digit.
unfoldable pub hex_digit : ℕ → Option ℕ
hex_digit c =
    if leb b'0' c && leb c b'9'
    then some (c - b'0')
    else if leb b'a' c && leb c b'f'
    then some (c - b'a' + 10)
    else if leb b'A' c && leb c b'F'
    then some (c - b'A' + 10)
    else none

abbrev pub hex_byte : Option ℕ → Option ℕ → Option ℕ
hex_byte (some hi) (some lo) = some (16 * hi + lo)
hex_byte hi lo = none

-- `hex.Decode` of the first bytes: it stops at the first pair that is not hexadecimal.
unfoldable pub hex_decode : ℕ → Text → List ℕ
unfolding hex_digit
hex_decode zero s = []
hex_decode (suc n) [] = []
hex_decode (suc n) (c ∷ []) = []
hex_decode (suc n) (c ∷ d ∷ s) =
    let rest = hex_decode n s in
    elim (hex_byte (hex_digit c) (hex_digit d)) [ none ↦ [] | some b ↦ b ∷ rest ]

-- `binary.BigEndian.Uint64` of the next eight bytes of an array, whose rest is zero.
unfoldable pub big_endian : ℕ → ℕ → List ℕ → ℕ
big_endian zero acc bytes = acc
big_endian (suc n) acc [] = big_endian n (256 * acc) []
big_endian (suc n) acc (b ∷ bytes) = big_endian n (256 * acc + b) bytes

abbrev pub drop : ℕ → List ℕ → List ℕ
drop zero bytes = bytes
drop (suc n) [] = []
drop (suc n) (b ∷ bytes) = drop n bytes

-- `bloomHashes`: 16 bytes of the text, or as many as it has.
unfoldable pub bloom_hashes : Text → ℕ × ℕ
unfolding hex_decode big_endian
bloom_hashes s =
    let raw = hex_decode 16 s in
    let h2 = big_endian 8 0 (drop 8 raw) in (big_endian 8 0 raw, (if h2 == 0 then 1 else h2))

-- The index of the hash of number `i`, in 64 bits.
unfoldable pub bit_index : Bloom → ℕ × ℕ → ℕ → ℕ
bit_index b (h1, h2) i = ((h1 + i * h2) % 2 ^ 64) % b.n_bits

abbrev pub set_bit : Bloom → ℕ → Bloom
set_bit b n = record b { bits = λ m. if m == n then true else b.bits m }

-- The loop of `add` from the hash of number `i` on, over the number of hashes that are left.
unfoldable pub add_bits : Bloom → ℕ × ℕ → ℕ → ℕ → Bloom
unfolding bit_index
add_bits b hashes i zero = b
add_bits b hashes i (suc left) = add_bits (set_bit b (bit_index b hashes i)) hashes (suc i) left

unfoldable pub bloom_add : Bloom → Text → Bloom
unfolding add_bits bloom_hashes
bloom_add b sha256_hex = add_bits b (bloom_hashes sha256_hex) 0 b.n_hashes

unfoldable pub test_bits : Bloom → ℕ × ℕ → ℕ → ℕ → Bool
unfolding bit_index
test_bits b hashes i zero = true
test_bits b hashes i (suc left) =
    let rest = test_bits b hashes (suc i) left in
    if b.bits (bit_index b hashes i) then rest else false

unfoldable pub bloom_test : Bloom → Text → Bool
unfolding test_bits bloom_hashes
bloom_test b sha256_hex = test_bits b (bloom_hashes sha256_hex) 0 b.n_hashes

pub record BaseSet : Type 0 where
  pub bloom : Bloom
  pub exact : Dict Text Evidence
  pub base_paths : List Text

unfoldable pub new_base_set : ℕ → ℕ → BaseSet
unfolding new_bloom
new_base_set m k = record { bloom = new_bloom m k; exact = []; base_paths = [] }

-- `exact[h] = ev`, unless it is there.
abbrev pub keep_exact : Option Evidence → Text → Evidence → Dict Text Evidence → Dict Text Evidence
keep_exact none h ev exact = insert h ev exact
keep_exact (some old) h ev exact = exact

-- `Add`; the set of paths is a list.
unfoldable pub add : BaseSet → Text → Evidence → BaseSet
unfolding bloom_add
add b sha256_hex ev = record {
  bloom = bloom_add b.bloom sha256_hex;
  exact = keep_exact (lookup sha256_hex b.exact) sha256_hex ev b.exact;
  base_paths =
      if ev.base_path == [] || contains b.base_paths ev.base_path
      then b.base_paths
      else ev.base_path ∷ b.base_paths;
}

-- `Contains`
unfoldable pub find_evidence : BaseSet → Text → Option Evidence
unfolding bloom_test
find_evidence b sha256_hex =
    if bloom_test b.bloom sha256_hex then lookup sha256_hex b.exact else none

unfoldable pub has_path : BaseSet → Text → Bool
has_path b p = contains b.base_paths p

unfoldable pub size : BaseSet → ℕ
size b = length b.exact

unfoldable pub path_count : BaseSet → ℕ
path_count b = length b.base_paths

unfoldable pub add_all : BaseSet → List (Text × Evidence) → BaseSet
unfolding add
add_all b [] = b
add_all b ((h, ev) ∷ files) = add_all (add b h ev) files
