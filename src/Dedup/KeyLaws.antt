-- ===== src/Dedup/KeyLaws.antt =====
-- Merging components of one key gives a component of that key.
use astinus.Base.{
  ℕ, ◌≡◌, refl, ◌∙◌, sym, ap, ◌&&◌, not, [], ◌∷◌, ◌++◌, arith, Text, codes, text_eq, nat_eq, ◌==◌,
  if◌then◌else◌, if_ind, ltb, All, All-append,
}
use astinus.Base.Strings.{to_lower}
use astinus.Model.{Component}
use astinus.Dedup.Key.{
  find_hash, first_non_empty, canonical_purl, canonical_cpe, hash_algorithm_sha256, dedup_key,
  primary_score, better, pick_primary, Indexed,
}
use astinus.Dedup.Merge.{merge_hashes, merge_pair, hash_key}
use astinus.Dedup.Union.{
  ArePlain, All-keep_first, first_non_empty-merge_cpes, find_hash-merge_hashes,
}
use astinus.Dedup.Run.{merge_rest, emit}

abbrev head_byte : Text → ℕ
head_byte [] = 0
head_byte (c ∷ s) = c

-- `dedupKey` over the signals that it reads.
key_of : Text → Text → Text → Text → Text → Text → Text
key_of purl cpe hash name version type =
    if not (purl == [])
    then codes "purl:" ++ canonical_purl purl
    else if not (cpe == [])
    then codes "cpe:" ++ canonical_cpe cpe
    else if not (hash == [])
    then codes "sha256:" ++ to_lower hash
    else if not (name == []) && not (version == [])
    then codes "nvt:" ++ (to_lower type ++ (b':' ∷ (to_lower name ++ (b':' ∷ to_lower version))))
    else []

abbrev sha256_of : Component → Text
sha256_of c = find_hash c.hashes hash_algorithm_sha256

dedup_key-key_of :
    (c : Component)
    → dedup_key c ≡ key_of c.purl (first_non_empty c.cpes) (sha256_of c) c.name c.version c.type
unfolding dedup_key key_of
dedup_key-key_of c = refl

-- Two keys of different kinds differ in their first byte.
key_of_merged :
    (p c h n v t p' c' h' n' v' t' : Text)
    → key_of p' c' h' n' v' t' ≡ key_of p c h n v t
    → key_of p (if c == [] then c' else c) (if h == [] then h' else h) n v t ≡ key_of p c h n v t
unfolding key_of
key_of_merged (x ∷ p) c h n v t p' c' h' n' v' t' e = refl
key_of_merged [] (x ∷ c) h n v t p' c' h' n' v' t' e = refl
key_of_merged [] [] (x ∷ h) n v t (y ∷ p') c' h' n' v' t' e = absurd (omega (arith, ap head_byte e))
key_of_merged [] [] (x ∷ h) n v t [] (y ∷ c') h' n' v' t' e = absurd (omega (arith, ap head_byte e))
key_of_merged [] [] (x ∷ h) n v t [] [] h' n' v' t' e = refl
key_of_merged [] [] [] n v t (y ∷ p') c' h' n' v' t' e = absurd (ground (arith, ap head_byte e))
key_of_merged [] [] [] n v t [] (y ∷ c') h' n' v' t' e = absurd (ground (arith, ap head_byte e))
key_of_merged [] [] [] n v t [] [] (y ∷ h') n' v' t' e = absurd (ground (arith, ap head_byte e))
key_of_merged [] [] [] n v t [] [] [] n' v' t' e = refl

pub dedup_key-merge_pair :
    (a b : Component)
    → ArePlain a.hashes
    → ArePlain b.hashes
    → dedup_key b ≡ dedup_key a
    → dedup_key (merge_pair a b) ≡ dedup_key a
unfolding merge_pair
dedup_key-merge_pair a b pa pb e =
    dedup_key-key_of (merge_pair a b)
    ∙ rw (first_non_empty-merge_cpes a.cpes b.cpes, find_hash-merge_hashes a.hashes b.hashes pa pb)
        (key_of_merged a.purl (first_non_empty a.cpes) (sha256_of a) a.name a.version a.type b.purl
          (first_non_empty b.cpes) (sha256_of b) b.name b.version b.type
          (sym (dedup_key-key_of b) ∙ e ∙ dedup_key-key_of a))
    ∙ sym (dedup_key-key_of a)

-- A component of key `k` whose hashes are plain.
abbrev pub Has : Text → Component → Type 0
Has k c = (dedup_key c ≡ k) × ArePlain c.hashes

merge_pair-Has : (k : Text) (a b : Component) → Has k a → Has k b → Has k (merge_pair a b)
merge_pair-Has k a b (ka, pa) (kb, pb) = (dedup_key-merge_pair a b pa pb (kb ∙ sym ka) ∙ ka, plain)
  where
    plain : ArePlain (merge_pair a b).hashes
    plain =
        unfold merge_pair merge_hashes in
        All-keep_first hash_key _ [] (a.hashes ++ b.hashes) (All-append _ a.hashes b.hashes pa pb)

merge_rest-Has :
    (k : Text) (primary : ℕ) (merged : Component) (idxs : Indexed)
    → Has k merged
    → All (λ x. Has k x.1) idxs
    → Has k (merge_rest primary merged idxs)
unfolding merge_rest
merge_rest-Has k primary merged [] h a = h
merge_rest-Has k primary merged ((i, c) ∷ idxs) h (hc, a) =
    merge_rest-Has k primary (if i == primary then merged else merge_pair merged c) idxs
      (if_ind (Has k) (i == primary) h (merge_pair-Has k merged c h hc)) a

better-Has : (k : Text) (x y : ℕ × Component) → Has k x.1 → Has k y.1 → Has k (better x y).1
unfolding better
better-Has k (best, b) (i, c) hx hy =
    if_ind {A = ℕ × Component} (λ z. Has k z.1) (ltb (primary_score b) (primary_score c)) hy
      (if_ind {A = ℕ × Component} (λ z. Has k z.1)
        (primary_score c == primary_score b && ltb i best) hy hx)

pick_primary-Has :
    (k : Text) (best : ℕ × Component) (idxs : Indexed)
    → Has k best.1
    → All (λ x. Has k x.1) idxs
    → Has k (pick_primary best idxs).1
unfolding pick_primary
pick_primary-Has k best [] h a = h
pick_primary-Has k best (x ∷ idxs) h (hx, a) =
    pick_primary-Has k (better best x) idxs (better-Has k best x h hx) a

-- What is emitted for a bucket has the key of the bucket.
pub emit-Has :
    (k : Text) (c : Component) (idxs : Indexed)
    → Has k c
    → All (λ x. Has k x.1) idxs
    → Has k (emit c idxs).0
unfolding emit
emit-Has k c [] h a = h
emit-Has k c (x ∷ []) h a = h
emit-Has k c (x ∷ y ∷ idxs) h (hx, (hy, a)) =
    let (primary, best) = pick_primary x (y ∷ idxs) in
    merge_rest-Has k primary best (x ∷ y ∷ idxs) (pick_primary-Has k x (y ∷ idxs) hx (hy, a))
      (hx, (hy, a))
