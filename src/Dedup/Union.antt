-- ===== src/Dedup/Union.antt =====
-- The unions of `mergePair`: which keys they keep, and the first match in them.
use astinus.Base.{
  ◌≡◌, refl, ◌∙◌, ap, Bool, false, ◌&&◌, not, inl, inr, List, [], ◌∷◌, ◌++◌, Option, none, some,
  arith, Text, text_eq, nat_eq, ◌==◌, ==_iff, if◌then◌else◌, Bool-cases, Option-cases, contains,
  count, All, All-append,
}
use astinus.Base.Strings.{to_lower, trim_space, before_any, to_lower-eq-nil, to_lower-lacks}
use astinus.Model.{Hash}
use astinus.Dedup.Key.{find_hash, first_non_empty, canonical_cpe, hash_algorithm_sha256}
use astinus.Dedup.Merge.{keep_first, hash_key, cpe_key, merge_hashes, merge_cpes}

module _ {ℓ} {A : Type ℓ} (key : A → Option Text) where
  -- The keys of the elements that have one.
  abbrev pub keys : List A → List Text
  keys [] = []
  keys (x ∷ xs) = elim (key x) [ none ↦ keys xs | some k ↦ k ∷ keys xs ]

  keys-none : (x : A) (xs : List A) → key x ≡ none → keys (x ∷ xs) ≡ keys xs
  keys-none x xs e = rw (e, keys) refl

  keys-some : (x : A) (xs : List A) (k : Text) → key x ≡ some k → keys (x ∷ xs) ≡ k ∷ keys xs
  keys-some x xs k e = rw (e, keys) refl

  keep_first-none :
      (seen : List Text) (x : A) (xs : List A)
      → key x ≡ none
      → keep_first key seen (x ∷ xs) ≡ keep_first key seen xs
  unfolding keep_first
  keep_first-none seen x xs e = rw (e, keep_first) refl

  keep_first-some :
      (seen : List Text) (x : A) (xs : List A) (k : Text)
      → key x ≡ some k
      → keep_first key seen (x ∷ xs)
        ≡ (if contains seen k then keep_first key seen xs else x ∷ keep_first key (k ∷ seen) xs)
  unfolding keep_first
  keep_first-some seen x xs k e = rw (e, keep_first) refl

  -- The loop keeps one element for each key that is not yet seen.
  pub count-keep_first :
      (seen : List Text) (xs : List A) (k : Text)
      → count k (keys (keep_first key seen xs))
        ≡ (if contains seen k then 0 else if contains (keys xs) k then 1 else 0)
  unfolding keep_first
  count-keep_first seen [] k = ground arith
  count-keep_first seen (x ∷ xs) k = elim (Option-cases (key x)) [
    | inl skipped ↦
        rw (keep_first-none seen x xs skipped, keys-none x xs skipped) (count-keep_first seen xs k)
    | inr (j, found) ↦
        rw (keep_first-some seen x xs j found, keys-some x xs j found)
          (elim (Bool-cases (contains seen j)) [
            | inl old ↦ rw old (ground (arith, count-keep_first seen xs k, ==_iff j k, old))
            | inr new ↦ rw new (
                rw (keys-some x (keep_first key (j ∷ seen) xs) j found)
                  (ground (arith, count-keep_first (j ∷ seen) xs k, ==_iff j k, new)))
          ])
  ]

  pub All-keep_first {κ} :
      (P : A → Type κ) (seen : List Text) (xs : List A) → All P xs → All P (keep_first key seen xs)
  unfolding keep_first
  All-keep_first P seen [] h = tt
  All-keep_first P seen (x ∷ xs) (p, h) = elim (Option-cases (key x)) [
    | inl skipped ↦ rw (keep_first-none seen x xs skipped) (All-keep_first P seen xs h)
    | inr (j, found) ↦ rw (keep_first-some seen x xs j found) (elim (Bool-cases (contains seen j)) [
      | inl old ↦ rw old (All-keep_first P seen xs h)
      | inr new ↦ rw new (p, All-keep_first P (j ∷ seen) xs h)
    ])
  ]

first_non_empty-keep_first :
    (xs : List Text) → first_non_empty (keep_first cpe_key [] xs) ≡ first_non_empty xs
unfolding first_non_empty keep_first cpe_key canonical_cpe
first_non_empty-keep_first [] = refl
first_non_empty-keep_first (x ∷ xs) = ground (
  arith,
  first_non_empty-keep_first xs,
  to_lower-eq-nil (trim_space x),
  ==_iff (trim_space x) [],
  ==_iff (to_lower (trim_space x)) [],
)

first_non_empty-append :
    (a b : List Text)
    → first_non_empty (a ++ b)
      ≡ (if first_non_empty a == [] then first_non_empty b else first_non_empty a)
unfolding first_non_empty trim_space
first_non_empty-append [] b = refl
first_non_empty-append ([] ∷ a) b = first_non_empty-append a b
first_non_empty-append ((c ∷ x) ∷ a) b = ground (arith, first_non_empty-append a b)

-- The CPE that identifies a merge is the primary's, or else the secondary's.
pub first_non_empty-merge_cpes :
    (a b : List Text)
    → first_non_empty (merge_cpes a b)
      ≡ (if first_non_empty a == [] then first_non_empty b else first_non_empty a)
unfolding merge_cpes
first_non_empty-merge_cpes a b = first_non_empty-keep_first (a ++ b) ∙ first_non_empty-append a b

-- No algorithm name holds a colon, so the `algorithm:value` keys of hashes are unambiguous.
abbrev pub ArePlain : List Hash → Type 0
ArePlain = All (λ h. contains h.algorithm b':' ≡ false)

before-colon :
    (s t : Text) → contains s b':' ≡ false → before_any (λ c. c == b':') (s ++ (b':' ∷ t)) ≡ some s
unfolding before_any
before-colon [] t h = refl
before-colon (c ∷ s) t h = ground (arith, before-colon s t)

-- Keys that begin with another algorithm than SHA-256.
abbrev OtherKeys : List Text → Type 0
OtherKeys seen = (v : Text) → contains seen (hash_algorithm_sha256 ++ (b':' ∷ v)) ≡ false

other_key :
    (algorithm value v : Text)
    → contains algorithm b':' ≡ false
    → (to_lower algorithm == hash_algorithm_sha256) ≡ false
    → ((to_lower algorithm ++ (b':' ∷ value)) == (hash_algorithm_sha256 ++ (b':' ∷ v))) ≡ false
other_key algorithm value v plain other = elim (Bool-cases _) [
  | inl same ↦
      let eq =
        (==_iff (to_lower algorithm ++ (b':' ∷ value)) (hash_algorithm_sha256 ++ (b':' ∷ v))).0
          same in
      let left =
        before-colon (to_lower algorithm) value (to_lower-lacks algorithm b':' plain refl) in
      let right = before-colon hash_algorithm_sha256 v refl in
      let named : to_lower algorithm ≡ hash_algorithm_sha256 =
        cc (left, right, ap (before_any (λ c. c == b':')) eq) in
      cc ((==_iff (to_lower algorithm) hash_algorithm_sha256).1 named)
  | inr differ ↦ differ
]

lower_sha256 : to_lower hash_algorithm_sha256 ≡ hash_algorithm_sha256
unfolding to_lower
lower_sha256 = refl

abbrev is_sha256 : Hash → Bool
is_sha256 h = to_lower h.algorithm == to_lower hash_algorithm_sha256

find_hash-cons :
    (h : Hash) (hs : List Hash)
    → find_hash (h ∷ hs) hash_algorithm_sha256
      ≡ (if is_sha256 h && not (h.value == []) then h.value else find_hash hs hash_algorithm_sha256)
unfolding find_hash
find_hash-cons h hs = refl

abbrev text_key : Hash → Text
text_key h = to_lower h.algorithm ++ (b':' ∷ to_lower h.value)

-- A first hash of the algorithm is never taken for a duplicate, so the union finds it too.
find_hash-keep_first :
    (seen : List Text) (hs : List Hash)
    → OtherKeys seen
    → ArePlain hs
    → find_hash (keep_first hash_key seen hs) hash_algorithm_sha256
      ≡ find_hash hs hash_algorithm_sha256
unfolding hash_key keep_first
find_hash-keep_first seen [] o p = refl
find_hash-keep_first seen (h ∷ hs) o (ph, p) = elim (Bool-cases (h.value == [])) [
  | inl empty ↦
      rw (keep_first-none hash_key seen h hs (rw empty), find_hash-cons h hs, empty)
        (ground (arith, find_hash-keep_first seen hs o p))
  | inr filled ↦
      rw (keep_first-some hash_key seen h hs (text_key h) (rw filled), find_hash-cons h hs, filled)
        (elim (Bool-cases (is_sha256 h)) [
          | inl sha ↦
              let named : to_lower h.algorithm ≡ hash_algorithm_sha256 =
                (==_iff _ _).0 sha ∙ lower_sha256 in
              let unseen : contains seen (text_key h) ≡ false = rw named (o (to_lower h.value)) in
              rw unseen (rw (find_hash-cons h _, filled, sha) refl)
          | inr other ↦
              let foreign : (to_lower h.algorithm == hash_algorithm_sha256) ≡ false =
                rw lower_sha256 at other in
              elim (Bool-cases (contains seen (text_key h))) [
                | inl old ↦ rw (old, other) (find_hash-keep_first seen hs o p)
                | inr new ↦ rw new (
                    rw (find_hash-cons h _, filled, other)
                      (find_hash-keep_first (text_key h ∷ seen) hs
                        (λ v. rw (other_key h.algorithm (to_lower h.value) v ph foreign) (o v)) p))
              ]
        ])
]

find_hash-append :
    (a b : List Hash) (algorithm : Text)
    → find_hash (a ++ b) algorithm
      ≡ (if find_hash a algorithm == [] then find_hash b algorithm else find_hash a algorithm)
unfolding find_hash
find_hash-append [] b algorithm = refl
find_hash-append (h ∷ a) b algorithm = ground (arith, find_hash-append a b algorithm)

-- The hash that identifies a merge is the primary's, or else the secondary's.
pub find_hash-merge_hashes :
    (a b : List Hash)
    → ArePlain a
    → ArePlain b
    → find_hash (merge_hashes a b) hash_algorithm_sha256 ≡ (
        if find_hash a hash_algorithm_sha256 == []
        then find_hash b hash_algorithm_sha256
        else find_hash a hash_algorithm_sha256)
unfolding merge_hashes
find_hash-merge_hashes a b p q =
    find_hash-keep_first [] (a ++ b) (λ v. refl) (All-append _ a b p q)
    ∙ find_hash-append a b hash_algorithm_sha256
