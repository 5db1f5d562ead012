-- ===== src/Base/Sort.antt =====
-- `sort.SliceStable` and `sort.Strings`: a stable sort by a test of "less".
use mathlib.Core.List.{Perm}
use mathlib.Core.List.Perm
use astinus.Base.{
  ◌≡◌, Bool, true, false, ◌&&◌, ◌||◌, List, [], ◌∷◌, ltb, Text, text_eq, nat_eq, ◌==◌,
  if◌then◌else◌, if_ind, Bool-cases, map, count, contains, HasEq, arith, inl, inr, refl, All,
}

-- The order of Go strings, by bytes.
unfoldable pub text_less : Text → Text → Bool
text_less s [] = false
text_less [] (d ∷ t) = true
text_less (c ∷ s) (d ∷ t) = ltb c d || (c == d && text_less s t)

module _ {ℓ} {A : Type ℓ} (less : A → A → Bool) where
  -- An element goes before those of the rest that are not less, so equal ones keep their order.
  unfoldable pub insert_sorted : A → List A → List A
  insert_sorted x [] = x ∷ []
  insert_sorted x (y ∷ ys) =
      let rest = insert_sorted x ys in if less y x then y ∷ rest else x ∷ y ∷ ys

  unfoldable pub sort_stable : List A → List A
  unfolding insert_sorted
  sort_stable [] = []
  sort_stable (x ∷ xs) = insert_sorted x (sort_stable xs)

  insert_sorted-perm : (x : A) (ys : List A) → Perm (insert_sorted x ys) (x ∷ ys)
  unfolding insert_sorted
  insert_sorted-perm x [] = Perm.rfl
  insert_sorted-perm x (y ∷ ys) =
      if_ind (λ l. Perm l (x ∷ y ∷ ys)) (less y x)
        (Perm.trans (Perm.cons y (insert_sorted-perm x ys)) (Perm.swap x y ys)) Perm.rfl

  pub sort_stable-perm : (xs : List A) → Perm (sort_stable xs) xs
  unfolding sort_stable
  sort_stable-perm [] = Perm.rfl
  sort_stable-perm (x ∷ xs) =
      Perm.trans (insert_sorted-perm x (sort_stable xs)) (Perm.cons x (sort_stable-perm xs))

  insert_sorted-All {κ} :
      (P : A → Type κ) (x : A) (ys : List A) → P x → All P ys → All P (insert_sorted x ys)
  unfolding insert_sorted
  insert_sorted-All P x [] p h = (p, tt)
  insert_sorted-All P x (y ∷ ys) p (q, h) =
      if_ind (All P) (less y x) (q, insert_sorted-All P x ys p h) (p, (q, h))

  pub sort_stable-All {κ} : (P : A → Type κ) (xs : List A) → All P xs → All P (sort_stable xs)
  unfolding sort_stable
  sort_stable-All P [] h = tt
  sort_stable-All P (x ∷ xs) (p, h) =
      insert_sorted-All P x (sort_stable xs) p (sort_stable-All P xs h)

  insert_sorted-All_of {κ} :
      (P : A → Type κ) (x : A) (ys : List A) → All P (insert_sorted x ys) → P x × All P ys
  unfolding insert_sorted
  insert_sorted-All_of P x [] (p, h) = (p, tt)
  insert_sorted-All_of P x (y ∷ ys) h = elim (Bool-cases (less y x)) [
    | inl before ↦
        let (q, rest) : P y × All P (insert_sorted x ys) = rw (before, insert_sorted) at h in
        let (p, k) = insert_sorted-All_of P x ys rest in (p, (q, k))
    | inr after ↦ rw (after, insert_sorted) at h
  ]

  pub All-of_sort_stable {κ} : (P : A → Type κ) (xs : List A) → All P (sort_stable xs) → All P xs
  unfolding sort_stable
  All-of_sort_stable P [] h = tt
  All-of_sort_stable P (x ∷ xs) h =
      let (p, k) = insert_sorted-All_of P x (sort_stable xs) h in (p, All-of_sort_stable P xs k)

  module _ {κ} {B : Type κ} ⦃e : HasEq B⦄ (f : A → B) where
    count-insert_sorted :
        (b : B) (x : A) (ys : List A)
        → count b (map f (insert_sorted x ys)) ≡ count b (f x ∷ map f ys)
    unfolding insert_sorted
    count-insert_sorted b x [] = refl
    count-insert_sorted b x (y ∷ ys) = ground (arith, count-insert_sorted b x ys)

    -- Sorting keeps how often each image occurs.
    pub count-sort_stable :
        (b : B) (xs : List A) → count b (map f (sort_stable xs)) ≡ count b (map f xs)
    unfolding sort_stable
    count-sort_stable b [] = refl
    count-sort_stable b (x ∷ xs) =
        ground (arith, count-insert_sorted b x (sort_stable xs), count-sort_stable b xs)

  module _ ⦃e : HasEq A⦄ where
    contains-insert_sorted :
        (b x : A) (ys : List A) → contains (insert_sorted x ys) b ≡ (x == b || contains ys b)
    unfolding insert_sorted
    contains-insert_sorted b x [] = refl
    contains-insert_sorted b x (y ∷ ys) = ground (arith, contains-insert_sorted b x ys)

    pub contains-sort_stable : (b : A) (xs : List A) → contains (sort_stable xs) b ≡ contains xs b
    unfolding sort_stable
    contains-sort_stable b [] = refl
    contains-sort_stable b (x ∷ xs) =
        ground (arith, contains-insert_sorted b x (sort_stable xs), contains-sort_stable b xs)

  -- No later element is less than an earlier one.
  abbrev pub IsAscending : List A → Type ℓ
  IsAscending [] = Unit
  IsAscending (x ∷ xs) = All (λ y. less y x ≡ false) xs × IsAscending xs

  module _ (asym : (x y : A) → less x y ≡ true → less y x ≡ false)
      (trans : (x y z : A) → less y x ≡ false → less z y ≡ false → less z x ≡ false) where
    All-not-less :
        (x y : A) (ys : List A)
        → less y x ≡ false
        → All (λ z. less z y ≡ false) ys
        → All (λ z. less z x ≡ false) ys
    All-not-less x y [] h k = tt
    All-not-less x y (z ∷ zs) h (k, ks) = (trans x y z h k, All-not-less x y zs h ks)

    insert_sorted-IsAscending :
        (x : A) (ys : List A) → IsAscending ys → IsAscending (insert_sorted x ys)
    unfolding insert_sorted
    insert_sorted-IsAscending x [] h = (tt, tt)
    insert_sorted-IsAscending x (y ∷ ys) (h, hs) = elim (Bool-cases (less y x)) [
      | inl before ↦ rw (before) (
        insert_sorted-All (λ z. less z y ≡ false) x ys (asym y x before) h,
        insert_sorted-IsAscending x ys hs,
      )
      | inr after ↦ rw (after) ((after, All-not-less x y ys after h), (h, hs))
    ]

    -- Of a strict weak order, the sorted list is ascending.
    pub sort_stable-IsAscending : (xs : List A) → IsAscending (sort_stable xs)
    unfolding sort_stable
    sort_stable-IsAscending [] = tt
    sort_stable-IsAscending (x ∷ xs) =
        insert_sorted-IsAscending x (sort_stable xs) (sort_stable-IsAscending xs)
