-- ===== src/Base/Strings.antt =====
-- The functions of Go's `strings` that the source uses, on ASCII text: bytes from 0x80 on are left
-- alone, where Go folds the case of other letters and trims other spaces.
use mathlib.Core.List.{reverse}
use astinus.Base.{
  ℕ, ◌+◌, ◌-◌, ◌≡◌, refl, Bool, true, false, ◌&&◌, ◌||◌, List, [], ◌∷◌, ◌++◌, Option, none, some,
  arith, leb, contains, or_else, Text, text_eq, nat_eq, ◌==◌, ==_iff, if◌then◌else◌,
}

lower_byte : ℕ → ℕ
lower_byte c = if leb b'A' c && leb c b'Z' then c + 32 else c

-- `strings.ToLower`
unfoldable pub to_lower : Text → Text
unfolding lower_byte
to_lower [] = []
to_lower (c ∷ s) = lower_byte c ∷ to_lower s

abbrev pub is_space : ℕ → Bool
is_space c = c == b' ' || leb 9 c && leb c 13

unfoldable pub trim_left : Text → Text
trim_left [] = []
trim_left (c ∷ s) = if is_space c then trim_left s else c ∷ s

-- `strings.TrimSpace`
unfoldable pub trim_space : Text → Text
unfolding trim_left
trim_space s = reverse (trim_left (reverse (trim_left s)))

-- `strings.HasPrefix` and `strings.CutPrefix`
unfoldable pub cut_prefix : Text → Text → Option Text
cut_prefix s [] = some s
cut_prefix [] (p ∷ ps) = none
cut_prefix (c ∷ s) (p ∷ ps) = if c == p then cut_prefix s ps else none

abbrev pub has_prefix : Text → Text → Bool
has_prefix s p = elim (cut_prefix s p) [ none ↦ false | some _ ↦ true ]

-- `strings.TrimPrefix`
abbrev pub trim_prefix : Text → Text → Text
trim_prefix s p = elim (cut_prefix s p) [ none ↦ s | some rest ↦ rest ]

-- What stands before the first byte that passes the test, if one does.
unfoldable pub before_any : (ℕ → Bool) → Text → Option Text
before_any p [] = none
before_any p (c ∷ s) =
    let rest = before_any p s in
    if p c then some [] else elim rest [ none ↦ none | some t ↦ some (c ∷ t) ]

lower_byte_idem : (c : ℕ) → lower_byte (lower_byte c) ≡ lower_byte c
unfolding lower_byte
lower_byte_idem c = ground arith

pub to_lower_idem : (s : Text) → to_lower (to_lower s) ≡ to_lower s
unfolding to_lower
to_lower_idem [] = refl
to_lower_idem (c ∷ s) = cc (lower_byte_idem c, to_lower_idem s)

pub to_lower-append : (s t : Text) → to_lower (s ++ t) ≡ to_lower s ++ to_lower t
unfolding to_lower
to_lower-append [] t = refl
to_lower-append (c ∷ s) t = cc (to_lower-append s t)

-- A prefix that was cut off, put back.
pub cut_prefix-eq-some : (s p rest : Text) → cut_prefix s p ≡ some rest → p ++ rest ≡ s
unfolding cut_prefix
cut_prefix-eq-some s [] rest h = cc
cut_prefix-eq-some [] (p ∷ ps) rest h = absurd (cc h)
cut_prefix-eq-some (c ∷ s) (p ∷ ps) rest h =
    ground (arith, cut_prefix-eq-some s ps rest, ==_iff c p)

pub cut_prefix-append : (p rest : Text) → cut_prefix (p ++ rest) p ≡ some rest
unfolding cut_prefix
cut_prefix-append [] rest = refl
cut_prefix-append (p ∷ ps) rest = ground (arith, cut_prefix-append ps rest, ==_iff p p)

lower_byte-eq : (c d : ℕ) → (leb b'a' d && leb d b'z') ≡ false → lower_byte c ≡ d → c ≡ d
unfolding lower_byte
lower_byte-eq c d h e = ground arith

pub to_lower-eq-nil : (s : Text) → (to_lower s == []) ≡ (s == [])
unfolding to_lower
to_lower-eq-nil [] = refl
to_lower-eq-nil (c ∷ s) = refl

-- Lowering makes no byte but small letters.
pub to_lower-lacks :
    (s : Text) (d : ℕ)
    → contains s d ≡ false
    → (leb b'a' d && leb d b'z') ≡ false
    → contains (to_lower s) d ≡ false
unfolding to_lower
to_lower-lacks [] d h k = refl
to_lower-lacks (c ∷ s) d h k =
    ground (arith, to_lower-lacks s d, lower_byte-eq c d k, ==_iff (lower_byte c) d, ==_iff c d)

upper_byte : ℕ → ℕ
upper_byte c = if leb b'a' c && leb c b'z' then c - 32 else c

-- `strings.ToUpper`
unfoldable pub to_upper : Text → Text
unfolding upper_byte
to_upper [] = []
to_upper (c ∷ s) = upper_byte c ∷ to_upper s

-- `strings.EqualFold`
abbrev pub equal_fold : Text → Text → Bool
equal_fold s t = to_lower s == to_lower t

-- What follows the first occurrence of a text, at `strings.Index`.
unfoldable pub after_text : Text → Text → Option Text
unfolding cut_prefix
after_text [] p = cut_prefix [] p
after_text (c ∷ s) p = let rest = after_text s p in or_else (cut_prefix (c ∷ s) p) rest

-- `strings.Contains`
abbrev pub contains_text : Text → Text → Bool
contains_text s p = elim (after_text s p) [ none ↦ false | some rest ↦ true ]

-- `strings.HasSuffix` and `strings.TrimSuffix`
abbrev pub has_suffix : Text → Text → Bool
has_suffix s p = has_prefix (reverse s) (reverse p)

abbrev pub trim_suffix : Text → Text → Text
trim_suffix s p = elim (cut_prefix (reverse s) (reverse p)) [ none ↦ s | some rest ↦ reverse rest ]

-- `strings.Join`
unfoldable pub join_with : Text → List Text → Text
join_with sep [] = []
join_with sep (s ∷ []) = s
join_with sep (s ∷ t ∷ ss) = s ++ (sep ++ join_with sep (t ∷ ss))
