-- ===== src/Base/Split.antt =====
-- `strings.Split` by one byte, and its round trip with `strings.Join`.
use astinus.Base.{
  ℕ, ◌≡◌, refl, ap, ◌∙◌, false, List, [], ◌∷◌, ◌++◌, arith, nat_eq, ◌==◌, ==_refl, if◌then◌else◌,
  Text, contains, All,
}
use astinus.Base.Strings.{join_with}
use astinus.Base.Paths.{cons_head}

unfoldable pub split_on : ℕ → Text → List Text
split_on d [] = [] ∷ []
split_on d (c ∷ s) = let rest = split_on d s in if c == d then [] ∷ rest else cons_head c rest

split_on-lacks : (d : ℕ) (s : Text) → contains s d ≡ false → split_on d s ≡ s ∷ []
unfolding split_on
split_on-lacks d [] h = refl
split_on-lacks d (c ∷ s) h = ground (arith, split_on-lacks d s)

split_on-append :
    (d : ℕ) (s t : Text) → contains s d ≡ false → split_on d (s ++ (d ∷ t)) ≡ s ∷ split_on d t
unfolding split_on
split_on-append d [] t h = rw (==_refl d) refl
split_on-append d (c ∷ s) t h = ground (arith, split_on-append d s t)

-- Pieces without the separator come back.
pub split_on-join_with :
    (d : ℕ) (s : Text) (ss : List Text)
    → All (λ t. contains t d ≡ false) (s ∷ ss)
    → split_on d (join_with (d ∷ []) (s ∷ ss)) ≡ s ∷ ss
unfolding join_with
split_on-join_with d s [] (h, _) = split_on-lacks d s h
split_on-join_with d s (t ∷ ss) (h, hs) =
    split_on-append d s (join_with (d ∷ []) (t ∷ ss)) h
    ∙ ap (λ ts. s ∷ ts) (split_on-join_with d t ss hs)
