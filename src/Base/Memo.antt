-- ===== src/Base/Memo.antt =====
-- Maps as caches of a function, under keys that may stand for several arguments.
use mathlib.Core.Path.{◌≡◌, refl, ◌∙◌, sym}
use mathlib.Core.Logic.{inl, inr}
use mathlib.Core.Option.{some, some-injective}
use astinus.Base.Tests.{HasEq, ◌==◌, ==_iff, if◌then◌else◌, Bool-cases}
use astinus.Base.Dict.{Dict, lookup, insert, lookup-insert}

module _ {ℓ κ μ} {P : Type ℓ} {K : Type κ} {V : Type μ} ⦃e : HasEq K⦄ (key_of : P → K)
    (value_of : P → V) where
  -- An entry is the value of every argument of its key.
  abbrev pub IsMemo : Dict K V → Type (ℓ ⊔ κ ⊔ μ)
  IsMemo d = (k : K) (v : V) → lookup k d ≡ some v → (q : P) → key_of q ≡ k → value_of q ≡ v

  pub insert-IsMemo :
      ((p q : P) → key_of p ≡ key_of q → value_of p ≡ value_of q)
      → (p : P) (v : V) (d : Dict K V) → value_of p ≡ v
      → IsMemo d
      → IsMemo (insert (key_of p) v d)
  insert-IsMemo respects p v d computed memo k w h q same_key = elim (Bool-cases (key_of p == k)) [
    | inl same ↦
        respects q p (same_key ∙ sym ((==_iff (key_of p) k).0 same))
        ∙ computed
        ∙ some-injective v w (sym (written ∙ rw (same) refl) ∙ h)
    | inr other ↦ memo k w (sym (written ∙ rw (other) refl) ∙ h) q same_key
  ]
    where
      written : lookup k (insert (key_of p) v d) ≡ (if key_of p == k then some v else lookup k d)
      written = lookup-insert (key_of p) k v d
