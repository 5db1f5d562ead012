-- ===== src/Enrich/Ordering/Listed.antt =====
-- Enrichers that a search by name gives back; a list of such is fixed by its names.
use mathlib.Core.List.{Perm}
use mathlib.Core.List.Perm
use mathlib.Core.Path.{subst}
use mathlib.Core.Option.{some-injective}
use astinus.Base.{
  ◌≤◌, ◌<◌, ◌≡◌, refl, sym, ◌∙◌, Bool, inl, inr, List, [], ◌∷◌, some, arith, Text, text_eq, ==_iff,
  ==_refl, if◌then◌else◌, Bool-cases, keep, count, All,
}
use astinus.Enrich.Interface.{Enricher}
use astinus.Enrich.Ordering.Retire.{IsListed}
use astinus.Enrich.Ordering.{names, find}

module _ {S : Type 0} where
  -- The search passes over an enricher of another name.
  find-cons :
      (x : Enricher S) (l m : List (Enricher S))
      → All (IsListed l) m
      → count x.name (names m) ≡ 0
      → All (IsListed (x ∷ l)) m
  unfolding find
  find-cons x l [] h c = tt
  find-cons x l (e ∷ m) (k, h) c = (
    ground (arith, k, c, ==_iff x.name e.name, ==_iff e.name x.name),
    find-cons x l m h (ground (arith, c)),
  )

  -- Enrichers of distinct names are found by them.
  pub All-IsListed :
      (l : List (Enricher S)) → ((n : Text) → count n (names l) ≤ 1) → All (IsListed l) l
  unfolding find
  All-IsListed [] h = tt
  All-IsListed (x ∷ l) h = (
    ground (arith, ==_refl x.name),
    find-cons x l l (All-IsListed l (λ n. ground (arith, h n)))
        (ground (arith, h x.name, ==_refl x.name)),
  )

  pub count-keep :
      (q : Text → Bool) (l : List (Enricher S)) (n : Text)
      → count n (names (keep (λ e. q e.name) l)) ≡ (if q n then count n (names l) else 0)
  count-keep q [] n = ground arith
  count-keep q (x ∷ l) n = elim (Bool-cases (text_eq.equals x.name n)) [
    | inl same ↦
        let named : x.name ≡ n = (==_iff x.name n).0 same in
        ground (arith, count-keep q l n, same, subst (λ m. q m ≡ q n) (sym named) (q_refl n))
    | inr other ↦ ground (arith, count-keep q l n, other)
  ]
    where
      q_refl : (m : Text) → q m ≡ q m
      q_refl m = refl

  pub All-keep {κ} :
      (P : Enricher S → Type κ) (p : Enricher S → Bool) (l : List (Enricher S))
      → All P l
      → All P (keep p l)
  All-keep P p [] h = tt
  All-keep P p (x ∷ l) (k, h) = elim (Bool-cases (p x)) [
    | inl kept ↦ rw kept (k, All-keep P p l h)
    | inr out ↦ rw out (All-keep P p l h)
  ]

  module _ (es : List (Enricher S)) where
    -- An enricher that is taken out of a list to its front.
    record Taken (e : Enricher S) (l : List (Enricher S)) : Type 0 where
      rest : List (Enricher S)
      perm : Perm l (e ∷ rest)
      counts : (m : Text) → count m (names l) ≡ count m (names (e ∷ rest))
      listed : All (IsListed es) rest

    take_out :
        (e : Enricher S) (l : List (Enricher S))
        → IsListed es e
        → All (IsListed es) l
        → 0 < count e.name (names l)
        → Taken e l
    take_out e [] k h c = absurd (omega arith)
    take_out e (x ∷ l) k (kx, h) c = elim (Bool-cases (text_eq.equals x.name e.name)) [
      | inl same ↦
          let named : x.name ≡ e.name = (==_iff x.name e.name).0 same in
          let eq : x ≡ e =
            some-injective x e (sym kx ∙ subst (λ n. find es n ≡ some e) (sym named) k) in
          record {
            rest = l;
            perm = subst (λ y. Perm (x ∷ l) (y ∷ l)) eq (Perm.refl (x ∷ l));
            counts = λ m. subst (λ y. count m (names (x ∷ l)) ≡ count m (names (y ∷ l))) eq refl;
            listed = h;
          }
      | inr other ↦
          let t = take_out e l k h (ground (arith, c, other)) in
          record {
            rest = x ∷ t.rest;
            perm = Perm.trans (Perm.cons x t.perm) (Perm.swap e x t.rest);
            counts = λ m. ground (arith, t.counts m);
            listed = (kx, t.listed);
          }
    ]

    pub perm_of_names :
        (xs ys : List (Enricher S))
        → All (IsListed es) xs
        → All (IsListed es) ys
        → ((n : Text) → count n (names xs) ≡ count n (names ys))
        → Perm xs ys
    perm_of_names [] [] h k c = Perm.refl []
    perm_of_names [] (y ∷ ys) h k c = absurd (ground (arith, c y.name, ==_refl y.name))
    perm_of_names (x ∷ xs) ys (hx, h) k c =
        let t = take_out x ys hx k (ground (arith, c x.name, ==_refl x.name)) in
        Perm.trans
          (Perm.cons x (perm_of_names xs t.rest h t.listed (λ n. ground (arith, c n, t.counts n))))
          (Perm.symm t.perm)
