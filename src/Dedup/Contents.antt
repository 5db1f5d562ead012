-- ===== src/Dedup/Contents.antt =====
-- What a merge keeps of the two components.
use mathlib.Core.Path.{subst}
use astinus.Base.{
  ℕ, ◌≡◌, refl, ◌∙◌, sym, ap, Bool, true, false, inl, inr, List, [], ◌∷◌, ◌++◌, Option, none, some,
  arith, Text, codes, text_eq, nat_eq, ◌==◌, ==_iff, ==_refl, if◌then◌else◌, Bool-cases,
  Option-cases, contains, count,
}
use astinus.Base.Dict.{Dict, lookup, insert, lookup-insert}
use astinus.Base.Strings.{has_prefix, cut_prefix-append, to_lower, trim_space}
use astinus.Model.{Hash, License, Component}
use astinus.Dedup.Key.{canonical_cpe}
use astinus.Dedup.Merge.{
  keep_first, hash_key, cpe_key, license_key, merge_hashes, merge_cpes, merge_licenses,
  conflict_prefix, add_property, merge_properties, merge_pair,
}
use astinus.Dedup.Union.{keys, count-keep_first}

-- How often a key stands in a union: once if either list has it, and never otherwise.
abbrev pub once_if {ℓ} : {A : Type ℓ} → (A → Option Text) → List A → List A → Text → ℕ
once_if key a b k = if contains (keys key (a ++ b)) k then 1 else 0

-- What names a license: its expression, or else its identifier and its name, each without blanks around
-- it and in lower case. One without any of them has no name, nor has the expression of a bar alone.
abbrev pub license_name : Text → Text → Text → Option Text
license_name [] [] [] = none
license_name [] [] (c ∷ name) = some (b'|' ∷ c ∷ name)
license_name [] (c ∷ id) name = some ((c ∷ id) ++ (b'|' ∷ name))
license_name (c ∷ expression) id name =
    if (c ∷ expression) == codes "|" then none else some (c ∷ expression)

abbrev pub named_license : License → Option Text
named_license l =
    license_name (to_lower (trim_space l.expression)) (to_lower (trim_space l.spdx_id))
      (to_lower (trim_space l.name))

-- What names a hash: its algorithm and its value in lower case, if it has a value.
abbrev pub hash_name : Text → Text → Option Text
hash_name alg [] = none
hash_name alg (c ∷ value) = some (to_lower alg ++ (b':' ∷ to_lower (c ∷ value)))

abbrev pub named_hash : Hash → Option Text
named_hash h = hash_name h.algorithm h.value

-- What names a CPE: its canonical text, if it is not empty.
abbrev pub non_empty : Text → Option Text
non_empty [] = none
non_empty (c ∷ s) = some (c ∷ s)

abbrev pub named_cpe : Text → Option Text
named_cpe cpe = non_empty (canonical_cpe cpe)

license_key-named_license : (l : License) → license_key l ≡ named_license l
unfolding license_key
license_key-named_license l =
    by_parts (to_lower (trim_space l.expression)) (to_lower (trim_space l.spdx_id))
      (to_lower (trim_space l.name))
  where
    no_bar : (c : ℕ) (id name : Text) → (((c ∷ id) ++ (b'|' ∷ name)) == codes "|") ≡ false
    no_bar c [] name = ground arith
    no_bar c (d ∷ id) name = ground arith

    by_parts :
        (e i n : Text)
        → (if (if e == [] then i ++ (b'|' ∷ n) else e) == codes "|"
            then none
            else some (if e == [] then i ++ (b'|' ∷ n) else e))
          ≡ license_name e i n
    by_parts [] [] [] = refl
    by_parts [] [] (c ∷ n) = refl
    by_parts [] (c ∷ i) n = rw (no_bar c i n) refl
    by_parts (c ∷ e) i n = refl

hash_key-named_hash : (h : Hash) → hash_key h ≡ named_hash h
unfolding hash_key
hash_key-named_hash h = by_value h.value
  where
    by_value :
        (v : Text)
        → (if v == [] then none else some (to_lower h.algorithm ++ (b':' ∷ to_lower v)))
          ≡ hash_name h.algorithm v
    by_value [] = refl
    by_value (c ∷ v) = refl

cpe_key-named_cpe : (cpe : Text) → cpe_key cpe ≡ named_cpe cpe
unfolding cpe_key
cpe_key-named_cpe cpe = by_text (canonical_cpe cpe)
  where
    by_text : (s : Text) → (if s == [] then none else some s) ≡ non_empty s
    by_text [] = refl
    by_text (c ∷ s) = refl

keys_congr {ℓ} :
    {A : Type ℓ} (f g : A → Option Text)
    → ((a : A) → f a ≡ g a)
    → (xs : List A) → keys f xs ≡ keys g xs
keys_congr f g h [] = refl
keys_congr f g h (x ∷ xs) =
    ap (λ o. elim o [ none ↦ keys f xs | some k ↦ k ∷ keys f xs ]) (h x)
    ∙ ap (λ ks. elim (g x) [ none ↦ ks | some k ↦ k ∷ ks ]) (keys_congr f g h xs)

-- The union by a key is the union by what names the elements, where the two agree.
union-named {ℓ} :
    {A : Type ℓ} (key named : A → Option Text)
    → ((x : A) → key x ≡ named x)
    → (a b : List A) (k : Text)
    → count k (keys named (keep_first key [] (a ++ b))) ≡ once_if named a b k
union-named key named h a b k =
    ap (count k) (sym (keys_congr key named h (keep_first key [] (a ++ b))))
    ∙ count-keep_first key [] (a ++ b) k
    ∙ ap (λ ks. if contains ks k then 1 else 0) (keys_congr key named h (a ++ b))

-- The merge has the CPEs, the hashes and the licenses of either component, each once, and no others: a
-- CPE by its canonical text, a hash by its algorithm and value, a license by its expression or else its
-- identifier and name, all without regard to case. It promises nothing of an element that has none of
-- these, such as a hash without a value or a license that has only a URL.
pub merge_pair-union :
    (a b : Component) (k : Text)
    → (count k (keys named_cpe (merge_pair a b).cpes) ≡ once_if named_cpe a.cpes b.cpes k)
      × (count k (keys named_hash (merge_pair a b).hashes) ≡ once_if named_hash a.hashes b.hashes k)
      × (count k (keys named_license (merge_pair a b).licenses)
          ≡ once_if named_license a.licenses b.licenses k)
unfolding merge_pair merge_hashes merge_cpes merge_licenses
merge_pair-union a b k = (
  union-named cpe_key named_cpe cpe_key-named_cpe a.cpes b.cpes k,
  union-named hash_key named_hash hash_key-named_hash a.hashes b.hashes k,
  union-named license_key named_license license_key-named_license a.licenses b.licenses k,
)

conflict_key :
    (k j : Text) → has_prefix j conflict_prefix ≡ false → ((conflict_prefix ++ k) == j) ≡ false
conflict_key k j h = elim (Bool-cases ((conflict_prefix ++ k) == j)) [
  | inl same ↦ absurd (
      cc (
        ap is_cut (cut_prefix-append conflict_prefix k),
        subst (λ t. has_prefix t conflict_prefix ≡ false)
            (sym ((==_iff (conflict_prefix ++ k) j).0 same)) h,
      ))
  | inr differ ↦ differ
]
  where
    is_cut : Option Text → Bool
    is_cut o = elim o [ none ↦ false | some _ ↦ true ]

lookup-add_property :
    (out : Dict Text Text) (k v j w : Text)
    → lookup j out ≡ some w
    → has_prefix j conflict_prefix ≡ false
    → lookup j (add_property out k v) ≡ some w
unfolding add_property
lookup-add_property out k v j w h plain = elim (Option-cases (lookup k out)) [
  | inl missing ↦
      rw (missing, add_property) (ground (arith, lookup-insert k j v out, h, missing, ==_iff k j))
  | inr (existing, found) ↦
      rw (found, add_property)
        (ground (
          arith,
          lookup-insert k j v out,
          lookup-insert (conflict_prefix ++ k) j v out,
          conflict_key k j plain,
          h,
          found,
          ==_iff k j,
          ==_iff existing v,
        ))
]

-- The primary's properties win: each survives the merge, unless its name is that of a breadcrumb.
pub lookup-merge_properties :
    (out b : Dict Text Text) (j w : Text)
    → lookup j out ≡ some w
    → has_prefix j conflict_prefix ≡ false
    → lookup j (merge_properties out b) ≡ some w
unfolding merge_properties
lookup-merge_properties out [] j w h plain = h
lookup-merge_properties out ((k, v) ∷ b) j w h plain =
    lookup-merge_properties (add_property out k v) b j w (lookup-add_property out k v j w h plain)
      plain

-- A second conflict on a property that is no breadcrumb, with a value other than the kept one,
-- replaces the breadcrumb of the first.
pub conflict-lost :
    (k u v w : Text)
    → (u == v) ≡ false
    → (u == w) ≡ false
    → has_prefix k conflict_prefix ≡ false
    → merge_properties (merge_properties ((k, u) ∷ []) ((k, v) ∷ [])) ((k, w) ∷ [])
      ≡ merge_properties ((k, u) ∷ []) ((k, w) ∷ [])
unfolding merge_properties add_property lookup insert
conflict-lost k u v w h h' plain = ground (
  arith,
  ==_refl k,
  ==_refl (conflict_prefix ++ k),
  conflict_key k k plain,
  ==_iff k (conflict_prefix ++ k),
  ==_iff (conflict_prefix ++ k) k,
  h,
  h',
)
