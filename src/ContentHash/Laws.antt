-- ===== src/ContentHash/Laws.antt =====
-- The set refines a plain list of the files that were added, whatever the filter's size.
use mathlib.Core.Path.{subst}
use astinus.Base.Tests.{or_else, both_true, both_true_of}
use astinus.Base.{
  ℕ, zero, suc, ◌+◌, ◌*◌, ◌/◌, ◌%◌, ◌^◌, ◌<◌, ◌≡◌, refl, ◌∙◌, sym, ap, inl, inr, Bool, true, not,
  ◌&&◌, ◌||◌, List, [], ◌∷◌, map, Option, none, some, arith, Text, text_eq, nat_eq, ◌==◌, ==_iff,
  ==_refl, if◌then◌else◌, if_ind, Bool-cases, Option-cases, contains,
}
use astinus.Base.Dict.{Dict, lookup, lookup-insert}
use astinus.ContentHash.{
  Evidence, Bloom, new_bloom, bloom_hashes, bit_index, set_bit, add_bits, bloom_add, test_bits,
  bloom_test, BaseSet, new_base_set, keep_exact, add, find_evidence, has_path, add_all,
}

-- A filter has every bit of another, and the same shape.
abbrev pub Covers : Bloom → Bloom → Type 0
Covers b a =
    (b.n_bits ≡ a.n_bits)
    × (b.n_hashes ≡ a.n_hashes)
    × ((n : ℕ) → a.bits n ≡ true → b.bits n ≡ true)

Covers-trans : (c b a : Bloom) → Covers c b → Covers b a → Covers c a
Covers-trans c b a (same, same', more) (as_before, as_before', had) =
    (same ∙ as_before, same' ∙ as_before', λ n h. more n (had n h))

set_bit-Covers : (b : Bloom) (n : ℕ) → Covers (set_bit b n) b
set_bit-Covers b n = (refl, refl, λ m h. ground (arith, h))

add_bits-Covers : (b : Bloom) (hashes : ℕ × ℕ) (i left : ℕ) → Covers (add_bits b hashes i left) b
unfolding add_bits
add_bits-Covers b hashes i zero = (refl, refl, λ n h. h)
add_bits-Covers b hashes i (suc left) =
    Covers-trans _ _ b (add_bits-Covers (set_bit b (bit_index b hashes i)) hashes (suc i) left)
      (set_bit-Covers b (bit_index b hashes i))

bit_index-same :
    (b a : Bloom) (hashes : ℕ × ℕ) (i : ℕ)
    → b.n_bits ≡ a.n_bits
    → bit_index b hashes i ≡ bit_index a hashes i
unfolding bit_index
bit_index-same b a (h1, h2) i same = ap (λ n. ((h1 + i * h2) % 2 ^ 64) % n) same

-- A filter that has the bits of a hash still has them when it has grown.
test_bits-Covers :
    (b a : Bloom) (hashes : ℕ × ℕ) (i left : ℕ)
    → Covers b a
    → test_bits a hashes i left ≡ true
    → test_bits b hashes i left ≡ true
unfolding test_bits
test_bits-Covers b a hashes i zero more h = refl
test_bits-Covers b a hashes i (suc left) more h =
    let (here, rest) =
      both_true (a.bits (bit_index a hashes i)) (test_bits a hashes (suc i) left) h in
    both_true_of (b.bits (bit_index b hashes i)) (test_bits b hashes (suc i) left)
      (subst (λ n. b.bits n ≡ true) (sym (bit_index-same b a hashes i more.0))
        (more.2 (bit_index a hashes i) here))
      (test_bits-Covers b a hashes (suc i) left more rest)

test_bits-add_bits :
    (b : Bloom) (hashes : ℕ × ℕ) (i left : ℕ)
    → test_bits (add_bits b hashes i left) hashes i left ≡ true
unfolding add_bits test_bits
test_bits-add_bits b hashes i zero = refl
test_bits-add_bits b hashes i (suc left) =
    both_true_of (after.bits (bit_index after hashes i)) (test_bits after hashes (suc i) left)
      (subst (λ n. after.bits n ≡ true) (sym (bit_index-same after first hashes i grown.0))
        (grown.2 (bit_index b hashes i) (rw (==_refl (bit_index b hashes i)) refl)))
      (test_bits-add_bits first hashes (suc i) left)
  where
    first : Bloom
    first = set_bit b (bit_index b hashes i)

    after : Bloom
    after = add_bits first hashes (suc i) left

    grown : Covers after first
    grown = add_bits-Covers first hashes (suc i) left

-- The first evidence for a hash in the order of the calls of `Add`.
abbrev pub first_evidence : List (Text × Evidence) → Text → Option Evidence
first_evidence [] h = none
first_evidence ((k, ev) ∷ files) h =
    let rest = first_evidence files h in if k == h then some ev else rest

-- What the filter passes covers what the map holds.
abbrev pub IsFiltered : BaseSet → Type 0
IsFiltered b = (h : Text) (ev : Evidence) → lookup h b.exact ≡ some ev → bloom_test b.bloom h ≡ true

bloom_test-grown :
    (b a : Bloom) (h : Text) → Covers b a → bloom_test a h ≡ true → bloom_test b h ≡ true
unfolding bloom_test
bloom_test-grown b a h more passed =
    test_bits-Covers b a (bloom_hashes h) 0 b.n_hashes more
      (subst (λ n. test_bits a (bloom_hashes h) 0 n ≡ true) (sym more.1) passed)

bloom_test-bloom_add : (b : Bloom) (h : Text) → bloom_test (bloom_add b h) h ≡ true
unfolding bloom_test bloom_add
bloom_test-bloom_add b h =
    subst (λ n. test_bits (add_bits b (bloom_hashes h) 0 b.n_hashes) (bloom_hashes h) 0 n ≡ true)
      (sym (add_bits-Covers b (bloom_hashes h) 0 b.n_hashes).1)
      (test_bits-add_bits b (bloom_hashes h) 0 b.n_hashes)

bloom_add-Covers : (b : Bloom) (h : Text) → Covers (bloom_add b h) b
unfolding bloom_add
bloom_add-Covers b h = add_bits-Covers b (bloom_hashes h) 0 b.n_hashes

lookup-keep_exact :
    (h k : Text) (ev : Evidence) (exact : Dict Text Evidence)
    → lookup k (keep_exact (lookup h exact) h ev exact)
      ≡ or_else (lookup k exact) (if h == k then some ev else none)
lookup-keep_exact h k ev exact = elim (Option-cases (lookup h exact)) [
  | inl missing ↦
      rw (missing, keep_exact)
        (ground
          (arith, missing, lookup-insert h k ev exact, ==_iff h k, Option-cases (lookup k exact)))
  | inr (old, there) ↦
      rw (there, keep_exact) (ground (arith, there, ==_iff h k, Option-cases (lookup k exact)))
]

add-IsFiltered : (b : BaseSet) (h : Text) (ev : Evidence) → IsFiltered b → IsFiltered (add b h ev)
unfolding add
add-IsFiltered b h ev filtered k found held = elim (Option-cases (lookup k b.exact)) [
  | inr (old, there) ↦
      bloom_test-grown (bloom_add b.bloom h) b.bloom k (bloom_add-Covers b.bloom h)
        (filtered k old there)
  | inl missing ↦ elim (Bool-cases (h == k)) [
    | inl same ↦
        subst (λ t. bloom_test (bloom_add b.bloom h) t ≡ true) ((==_iff h k).0 same)
          (bloom_test-bloom_add b.bloom h)
    | inr other ↦ absurd (cc (sym (lookup-keep_exact h k ev b.exact) ∙ held, missing, other))
  ]
]

find_evidence-lookup :
    (b : BaseSet) (h : Text) → IsFiltered b → find_evidence b h ≡ lookup h b.exact
unfolding find_evidence
find_evidence-lookup b h filtered = elim (Option-cases (lookup h b.exact)) [
  | inl missing ↦
      rw (missing, find_evidence) (if_ind (λ o. o ≡ none) (bloom_test b.bloom h) refl refl)
  | inr (ev, there) ↦ rw (filtered h ev there, find_evidence) refl
]

lookup-add :
    (b : BaseSet) (h k : Text) (ev : Evidence)
    → lookup k (add b h ev).exact ≡ or_else (lookup k b.exact) (if h == k then some ev else none)
unfolding add
lookup-add b h k ev = lookup-keep_exact h k ev b.exact

or_else-first :
    (k h : Text) (ev : Evidence) (o : Option Evidence) (files : List (Text × Evidence))
    → or_else (or_else o (if k == h then some ev else none)) (first_evidence files h)
      ≡ or_else o (first_evidence ((k, ev) ∷ files) h)
or_else-first k h ev none files = ground arith
or_else-first k h ev (some old) files = refl

or_else-none : (o : Option Evidence) → o ≡ or_else o none
or_else-none none = refl
or_else-none (some ev) = refl

add_all-exact :
    (b : BaseSet) (files : List (Text × Evidence)) (h : Text)
    → IsFiltered b
    → find_evidence (add_all b files) h ≡ or_else (lookup h b.exact) (first_evidence files h)
unfolding add_all
add_all-exact b [] h filtered = find_evidence-lookup b h filtered ∙ or_else-none (lookup h b.exact)
add_all-exact b ((k, ev) ∷ files) h filtered =
    add_all-exact (add b k ev) files h (add-IsFiltered b k ev filtered)
    ∙ ap (λ o. or_else o (first_evidence files h)) (lookup-add b k h ev)
    ∙ or_else-first k h ev (lookup h b.exact) files

-- `Contains` answers with the first evidence that was added for the hash, and with nothing for any
-- other hash, for every size of the filter.
pub find_evidence-add_all :
    (m k : ℕ) (files : List (Text × Evidence)) (h : Text)
    → find_evidence (add_all (new_base_set m k) files) h ≡ first_evidence files h
unfolding new_base_set lookup
find_evidence-add_all m k files h = add_all-exact (new_base_set m k) files h no_entry
  where
    nothing : (t : Text) → lookup t (new_base_set m k).exact ≡ none
    nothing t = unfold new_base_set lookup in refl

    no_entry : IsFiltered (new_base_set m k)
    no_entry t ev found = absurd (cc (nothing t, found))

contains-path :
    (paths : List Text) (new p : Text) (rest : Bool)
    → (contains (if new == [] || contains paths new then paths else new ∷ paths) p
        || (not (p == []) && rest))
      ≡ (contains paths p || (not (p == []) && ((new == p) || rest)))
contains-path paths new p rest = elim (Bool-cases (new == p)) [
  | inl same ↦
      subst
        (λ t.
          (contains (if new == [] || contains paths new then paths else new ∷ paths) t
            || (not (t == []) && rest))
          ≡ (contains paths t || (not (t == []) && ((new == t) || rest))))
        ((==_iff new p).0 same) (ground (arith, ==_refl new))
  | inr other ↦ ground (arith, other)
]

has_path-from :
    (b : BaseSet) (files : List (Text × Evidence)) (p : Text)
    → has_path (add_all b files) p
      ≡ (contains b.base_paths p || (not (p == []) && contains (map (λ f. f.1.base_path) files) p))
unfolding has_path add_all add
has_path-from b [] p = ground arith
has_path-from b ((h, ev) ∷ files) p =
    has_path-from (add b h ev) files p
    ∙ contains-path b.base_paths ev.base_path p (contains (map (λ f. f.1.base_path) files) p)

-- `HasPath` knows exactly the paths, other than the empty one, that the added files have.
pub has_path-add_all :
    (m k : ℕ) (files : List (Text × Evidence)) (p : Text)
    → has_path (add_all (new_base_set m k) files) p
      ≡ (not (p == []) && contains (map (λ f. f.1.base_path) files) p)
unfolding new_base_set
has_path-add_all m k files p = has_path-from (new_base_set m k) files p

word-lt : (x n : ℕ) → x < n → x / 64 < (n + 63) / 64
word-lt x n h = omega (arith, h)

mod-lt : (x n : ℕ) → 0 < n → x % n < n
mod-lt x n h = omega (arith, h)

-- The words that `newBloom` makes hold every bit that `add` and `test` touch.
pub bit_index-in_words :
    (m k i : ℕ) (hashes : ℕ × ℕ)
    → bit_index (new_bloom m k) hashes i / 64 < ((new_bloom m k).n_bits + 63) / 64
unfolding new_bloom bit_index
bit_index-in_words m k i (h1, h2) =
    word-lt (((h1 + i * h2) % 2 ^ 64) % (new_bloom m k).n_bits) (new_bloom m k).n_bits
      (mod-lt _ (new_bloom m k).n_bits (unfold new_bloom in ground arith))
