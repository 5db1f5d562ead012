-- ===== src/Registry/Growing.antt =====
-- internal/enrich/registry/enricher.go: loops that add what is not there yet, element by element.
use mathlib.Core.Path.{subst}
use mathlib.Core.List.{append_assoc, append-nil}
use astinus.Base.{◌≡◌, ◌∙◌, sym, ap, List, [], ◌∷◌, ◌++◌, text_eq, All}

-- The second list begins with the first.
abbrev pub Grows {ℓ} : {A : Type ℓ} → List A → List A → Type ℓ
Grows {A = A} xs ys = (more : List A) × (ys ≡ xs ++ more)

-- A loop that adds one element after the other, where an element that is settled adds nothing.
module _ {ℓ κ} {A : Type ℓ} {B : Type κ} (add : List A → B → List A)
    (merge : List A → List B → List A) (merge-nil : (xs : List A) → merge xs [] ≡ xs)
    (merge-cons : (xs : List A) (b : B) (bs : List B)
      → merge xs (b ∷ bs) ≡ merge (add xs b) bs) where
  pub merge-Grows :
      ((xs : List A) (b : B) → Grows xs (add xs b))
      → (xs : List A) (bs : List B) → Grows xs (merge xs bs)
  merge-Grows grows xs [] = ([], merge-nil xs ∙ sym (append-nil xs))
  merge-Grows grows xs (b ∷ bs) =
      let (more, e) = grows xs b in
      let (later, e') = merge-Grows grows (add xs b) bs in
      (
        more ++ later,
        merge-cons xs b bs ∙ e' ∙ ap (λ ys. ys ++ later) e ∙ append_assoc xs more later,
      )

  module _ {μ} (IsSettled : List A → B → Type μ)
      (keeps : (xs : List A) (b c : B) → IsSettled xs c → IsSettled (add xs b) c) where
    pub merge-keeps :
        (xs : List A) (bs : List B) (c : B) → IsSettled xs c → IsSettled (merge xs bs) c
    merge-keeps xs [] c h = rw (merge-nil xs) h
    merge-keeps xs (b ∷ bs) c h =
        rw (merge-cons xs b bs) (merge-keeps (add xs b) bs c (keeps xs b c h))

    pub merge-IsSettled :
        ((xs : List A) (b : B) → IsSettled (add xs b) b)
        → (xs : List A) (bs : List B) → All (IsSettled (merge xs bs)) bs
    merge-IsSettled settles xs [] = tt
    merge-IsSettled settles xs (b ∷ bs) =
        subst (λ ys. IsSettled ys b × All (IsSettled ys) bs) (sym (merge-cons xs b bs))
          (merge-keeps (add xs b) bs b (settles xs b), merge-IsSettled settles (add xs b) bs)

    pub merge-same :
        ((xs : List A) (b : B) → IsSettled xs b → add xs b ≡ xs)
        → (xs : List A) (bs : List B) → All (IsSettled xs) bs
        → merge xs bs ≡ xs
    merge-same same xs [] h = merge-nil xs
    merge-same same xs (b ∷ bs) (h, hs) =
        merge-cons xs b bs ∙ ap (λ ys. merge ys bs) (same xs b h) ∙ merge-same same xs bs hs
