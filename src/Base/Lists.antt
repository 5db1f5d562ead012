-- ===== src/Base/Lists.antt =====
-- Lists measured by native numbers, and predicates by recursion on a list.
use Prim.Native.Nat.{ℕ, zero, suc, ◌+◌, ◌≤◌, ◌<◌}
use mathlib.Core.Path.{◌≡◌, refl, ap, subst}
use mathlib.Core.Bool.{Bool, true, false, ◌||◌}
use mathlib.Core.List.{List, [], ◌∷◌, ◌++◌, map}
use mathlib.Core.Logic.{inl, inr}
use native.Mathlib.Omega.{arith}
use astinus.Base.Tests.{HasEq, ◌==◌, ==_iff, ==_refl, if◌then◌else◌, Bool-cases}

module _ {ℓ} {A : Type ℓ} where
  abbrev pub length : List A → ℕ
  length [] = 0
  length (x ∷ xs) = suc (length xs)

  -- The first elements: `xs[:n]`, for `n` up to the length.
  abbrev pub take : ℕ → List A → List A
  take zero xs = []
  take (suc n) [] = []
  take (suc n) (x ∷ xs) = x ∷ take n xs

  pub length-append : (xs ys : List A) → length (xs ++ ys) ≡ length xs + length ys
  length-append [] ys = omega arith
  length-append (x ∷ xs) ys = omega (arith, length-append xs ys)

module _ {ℓ κ} {A : Type ℓ} {B : Type κ} where
  pub length-map : (xs : List A) (f : A → B) → length (map f xs) ≡ length xs
  length-map [] f = refl
  length-map (x ∷ xs) f = ap suc (length-map xs f)

module _ {ℓ} {A : Type ℓ} (p : A → Bool) where
  -- The elements that pass the test, in order.
  abbrev pub keep : List A → List A
  keep [] = []
  keep (x ∷ xs) = if p x then x ∷ keep xs else keep xs

module _ {ℓ κ} {A : Type ℓ} (P : A → Type κ) where
  abbrev pub All : List A → Type κ
  All [] = Unit
  All (x ∷ xs) = P x × All xs

  pub All-append : (xs ys : List A) → All xs → All ys → All (xs ++ ys)
  All-append [] ys _ k = k
  All-append (x ∷ xs) ys (p, h) k = (p, All-append xs ys h k)

module _ {ℓ} {A : Type ℓ} ⦃e : HasEq A⦄ where
  abbrev pub contains : List A → A → Bool
  contains [] a = false
  contains (x ∷ xs) a = x == a || contains xs a

  -- How often `a` stands in a list.
  abbrev pub count : A → List A → ℕ
  count a [] = 0
  count a (x ∷ xs) = if x == a then suc (count a xs) else count a xs

  pub count-append : (a : A) (xs ys : List A) → count a (xs ++ ys) ≡ count a xs + count a ys
  count-append a [] ys = omega arith
  count-append a (x ∷ xs) ys = ground (arith, count-append a xs ys)

  pub contains-append :
      (a : A) (xs ys : List A) → contains (xs ++ ys) a ≡ (contains xs a || contains ys a)
  contains-append a [] ys = refl
  contains-append a (x ∷ xs) ys = ground (arith, contains-append a xs ys)

  pub not-contains_of_count : (a : A) (xs : List A) → count a xs ≡ 0 → contains xs a ≡ false
  not-contains_of_count a [] h = refl
  not-contains_of_count a (x ∷ xs) h = ground (arith, not-contains_of_count a xs)

  pub count_of_not-contains : (a : A) (xs : List A) → contains xs a ≡ false → count a xs ≡ 0
  count_of_not-contains a [] h = refl
  count_of_not-contains a (x ∷ xs) h = ground (arith, count_of_not-contains a xs)

  pub count_of_contains : (a : A) (xs : List A) → contains xs a ≡ true → 0 < count a xs
  count_of_contains a [] h = cc
  count_of_contains a (x ∷ xs) h = ground (arith, count_of_contains a xs)

  pub contains_of_count : (a : A) (xs : List A) → 0 < count a xs → contains xs a ≡ true
  contains_of_count a [] h = absurd (omega arith)
  contains_of_count a (x ∷ xs) h = ground (arith, contains_of_count a xs)

  -- A predicate that holds of what occurs in a list holds of all its elements.
  pub All-of_count {κ} :
      (P : A → Type κ) (xs : List A) → ((a : A) → 0 < count a xs → P a) → All P xs
  All-of_count P [] h = tt
  All-of_count P (x ∷ xs) h =
      (h x (ground (arith, ==_refl x)), All-of_count P xs (λ a p. h a (ground (arith, p))))

  -- Removes the first occurrence.
  remove : A → List A → List A
  remove a [] = []
  remove a (x ∷ xs) = if x == a then xs else x ∷ remove a xs

  count-remove :
      (a b : A) (xs : List A)
      → 0 < count a xs
      → count b (remove a xs) + (if a == b then 1 else 0) ≡ count b xs
  unfolding remove
  count-remove a b [] h = absurd (omega arith)
  count-remove a b (x ∷ xs) h =
      ground (arith, count-remove a b xs, ==_iff x a, ==_iff x b, ==_iff a b)

  length-remove : (a : A) (xs : List A) → 0 < count a xs → suc (length (remove a xs)) ≡ length xs
  unfolding remove
  length-remove a [] h = absurd (omega arith)
  length-remove a (x ∷ xs) h = ground (arith, length-remove a xs)

  -- A list whose elements occur as often in another is no longer.
  pub length-le_of_count :
      (xs ys : List A) → ((a : A) → count a xs ≤ count a ys) → length xs ≤ length ys
  length-le_of_count [] ys h = omega arith
  length-le_of_count (x ∷ xs) ys h =
      let here : 0 < count x ys = ground (arith, h x, ==_refl x) in
      let ih =
        length-le_of_count xs (remove x ys) (λ a. ground (arith, h a, count-remove x a ys here)) in
      omega (arith, ih, length-remove x ys here)

  -- Equal lengths leave no room for a difference.
  pub count-eq_of_length :
      (xs ys : List A)
      → ((a : A) → count a xs ≤ count a ys)
      → length xs ≡ length ys
      → (a : A) → count a xs ≡ count a ys
  count-eq_of_length [] [] h e a = refl
  count-eq_of_length [] (y ∷ ys) h e a = absurd (omega arith)
  count-eq_of_length (x ∷ xs) ys h e a =
      let here : 0 < count x ys = ground (arith, h x, ==_refl x) in
      let ih =
        count-eq_of_length xs (remove x ys) (λ b. ground (arith, h b, count-remove x b ys here))
          (omega (arith, length-remove x ys here)) a in
      ground (arith, ih, count-remove x a ys here)

  pub All-at {κ} : (P : A → Type κ) (xs : List A) (a : A) → All P xs → contains xs a ≡ true → P a
  All-at P [] a h c = absurd (cc c)
  All-at P (x ∷ xs) a (p, h) c = elim (Bool-cases (x == a)) [
    | inl same ↦ subst P ((==_iff x a).0 same) p
    | inr other ↦ All-at P xs a h (rw other at c)
  ]

  -- No element stands twice.
  abbrev pub Distinct : List A → Type 0
  Distinct [] = Unit
  Distinct (x ∷ xs) = (contains xs x ≡ false) × Distinct xs

  pub count-le-one : (xs : List A) (a : A) → Distinct xs → count a xs ≤ 1
  count-le-one [] a d = omega arith
  count-le-one (x ∷ xs) a (fresh, d) =
      ground (arith, count-le-one xs a d, count_of_not-contains x xs fresh, ==_iff x a)

module _ {ℓ κ} {A : Type ℓ} {B : Type κ} (R : A → B → Type 0) where
  -- The lists are equally long, and their elements at each place are related.
  abbrev pub Pairwise : List A → List B → Type 0
  Pairwise [] [] = Unit
  Pairwise (x ∷ xs) (y ∷ ys) = R x y × Pairwise xs ys
  Pairwise _ _ = ⊥

  pub Pairwise-map : (f : A → B) → ((x : A) → R x (f x)) → (xs : List A) → Pairwise xs (map f xs)
  Pairwise-map f h [] = tt
  Pairwise-map f h (x ∷ xs) = (h x, Pairwise-map f h xs)
