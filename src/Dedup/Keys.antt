-- ===== src/Dedup/Keys.antt =====
-- What the first pass collects, and the keys that the second pass emits.
use astinus.Base.{
  ℕ, ◌+◌, ◌≤◌, ◌≡◌, ◌≢◌, refl, ap, false, inl, inr, List, [], ◌∷◌, ◌++◌, map, arith, Text, text_eq,
  ◌==◌, ==_iff, if◌then◌else◌, Bool-cases, length, length-append, contains, count,
  not-contains_of_count, ==_refl, All, All-append,
}
use astinus.Base.Dict.{lookup, lookup-insert}
use astinus.Model.{Component}
use astinus.Dedup.Key.{dedup_key, Indexed}
use astinus.Dedup.Run.{Buckets, members, add_to_bucket, bucketize, emit, emit_all}
use astinus.Dedup.Union.{ArePlain}
use astinus.Dedup.KeyLaws.{Has, emit-Has}

abbrev pub ArePlainAll : List Component → Type 0
ArePlainAll = All (λ c. ArePlain c.hashes)

-- Every bucket holds components of its key.
abbrev pub AreSorted : Buckets → Type 0
AreSorted buckets = (k : Text) → All (λ x. Has k x.1) (members (lookup k buckets))

lookup-add_to_bucket :
    (buckets : Buckets) (i : ℕ) (c : Component) (k : Text)
    → k ≢ []
    → members (lookup k (add_to_bucket buckets i c)) ≡ (
        if dedup_key c == k
        then members (lookup k buckets) ++ (i, c) ∷ []
        else members (lookup k buckets))
unfolding add_to_bucket
lookup-add_to_bucket buckets i c k filled = ground (
  arith,
  filled,
  lookup-insert (dedup_key c) k (members (lookup (dedup_key c) buckets) ++ (i, c) ∷ []) buckets,
  ==_iff (dedup_key c) k,
  ==_iff (dedup_key c) [],
)

add_to_bucket-AreSorted :
    (buckets : Buckets) (i : ℕ) (c : Component)
    → ArePlain c.hashes
    → AreSorted buckets
    → AreSorted (add_to_bucket buckets i c)
unfolding add_to_bucket
add_to_bucket-AreSorted buckets i c p h k = elim (Bool-cases (dedup_key c == [])) [
  | inl empty ↦ rw empty (h k)
  | inr filled ↦ rw filled (
      rw
        (lookup-insert (dedup_key c) k (members (lookup (dedup_key c) buckets) ++ (i, c) ∷ [])
          buckets)
        (elim (Bool-cases (dedup_key c == k)) [
          | inl same ↦
              let named : dedup_key c ≡ k = (==_iff (dedup_key c) k).0 same in
              rw (same, members)
                (rw named
                  (All-append _ (members (lookup k buckets)) ((i, c) ∷ []) (h k) ((named, p), tt)))
          | inr other ↦ rw other (h k)
        ]))
]

pub bucketize-AreSorted :
    (buckets : Buckets) (i : ℕ) (cs : List Component)
    → ArePlainAll cs
    → AreSorted buckets
    → AreSorted (bucketize buckets i cs)
unfolding bucketize
bucketize-AreSorted buckets i [] p h = h
bucketize-AreSorted buckets i (c ∷ cs) (pc, p) h =
    bucketize-AreSorted (add_to_bucket buckets i c) (i + 1) cs p
      (add_to_bucket-AreSorted buckets i c pc h)

-- A bucket holds as many components as have its key.
pub length-bucketize :
    (buckets : Buckets) (i : ℕ) (cs : List Component) (k : Text)
    → k ≢ []
    → length (members (lookup k (bucketize buckets i cs)))
      ≡ length (members (lookup k buckets)) + count k (map dedup_key cs)
unfolding bucketize
length-bucketize buckets i [] k filled = omega arith
length-bucketize buckets i (c ∷ cs) k filled = ground (
  arith,
  length-bucketize (add_to_bucket buckets i c) (i + 1) cs k filled,
  ap length (lookup-add_to_bucket buckets i c k filled),
  length-append (members (lookup k buckets)) ((i, c) ∷ []),
)

-- The keys in order, each but the empty one only where it is first met and not in `seen`.
pub first_of_each : List Text → List Text → List Text
first_of_each seen [] = []
first_of_each seen (k ∷ ks) =
    let rest = first_of_each seen ks in
    let fresh = first_of_each (k ∷ seen) ks in
    if k == [] then k ∷ rest else if contains seen k then rest else k ∷ fresh

pub keys-emit_all :
    (buckets : Buckets) (emitted : List Text) (cs : List Component)
    → ArePlainAll cs
    → AreSorted buckets
    → map dedup_key (emit_all buckets emitted cs).0 ≡ first_of_each emitted (map dedup_key cs)
unfolding emit_all first_of_each
keys-emit_all buckets emitted [] p h = refl
keys-emit_all buckets emitted (c ∷ cs) (pc, p) h = ground (
  arith,
  keys-emit_all buckets emitted cs p h,
  keys-emit_all buckets (dedup_key c ∷ emitted) cs p h,
  (emit-Has (dedup_key c) c (members (lookup (dedup_key c) buckets)) (refl, pc)
      (h (dedup_key c))).0,
)

emit_single : (c : Component) (idxs : Indexed) → length idxs ≤ 1 → emit c idxs ≡ (c, false)
unfolding emit
emit_single c [] h = refl
emit_single c (x ∷ []) h = refl
emit_single c (x ∷ y ∷ idxs) h = absurd (omega arith)

-- Where no key comes twice, the second pass changes nothing.
pub emit_all-distinct :
    (buckets : Buckets) (emitted : List Text) (cs : List Component)
    → ((k : Text) → k ≢ [] → length (members (lookup k buckets)) ≤ 1)
    → ((k : Text) → k ≢ [] → count k emitted + count k (map dedup_key cs) ≤ 1)
    → emit_all buckets emitted cs ≡ (cs, 0)
unfolding emit_all
emit_all-distinct buckets emitted [] small once = refl
emit_all-distinct buckets emitted (c ∷ cs) small once = elim (Bool-cases (dedup_key c == [])) [
  | inl empty ↦
      rw
        (
          empty,
          emit_all-distinct buckets emitted cs small (λ k filled. ground (arith, once k filled)),
        )
        refl
  | inr filled ↦
      let identified : dedup_key c ≢ [] = λ e. cc ((==_iff (dedup_key c) []).1 e) in
      let fresh : contains emitted (dedup_key c) ≡ false =
        not-contains_of_count (dedup_key c) emitted
          (ground (arith, once (dedup_key c) identified, ==_refl (dedup_key c))) in
      let rest =
        emit_all-distinct buckets (dedup_key c ∷ emitted) cs small
          (λ k named. ground (arith, once k named)) in
      rw
        (
          filled,
          fresh,
          rest,
          emit_single c (members (lookup (dedup_key c) buckets)) (small (dedup_key c) identified),
        )
        refl
]

pub count-first_of_each :
    (seen ks : List Text) (k : Text)
    → k ≢ []
    → count k (first_of_each seen ks)
      ≡ (if contains seen k then 0 else if contains ks k then 1 else 0)
unfolding first_of_each
count-first_of_each seen [] k filled = ground arith
count-first_of_each seen (j ∷ ks) k filled = ground (
  arith,
  filled,
  count-first_of_each seen ks k filled,
  count-first_of_each (j ∷ seen) ks k filled,
  ==_iff j k,
  ==_iff j [],
)
