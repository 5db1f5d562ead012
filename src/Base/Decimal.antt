-- ===== src/Base/Decimal.antt =====
-- `fmt.Sprintf("%d")` and `fmt.Sscanf(v, "%d")` of an `int` of 64 bits.
use astinus.Base.{
  ℕ, zero, suc, ◌+◌, ◌-◌, ◌*◌, ◌/◌, ◌%◌, ◌^◌, ◌≡◌, refl, Bool, true, false, ◌&&◌, ◌||◌, [], ◌∷◌,
  Option, none, some, ltb, leb, Text, codes, nat_eq, ◌==◌, if◌then◌else◌,
}
pub mod Atoi

-- `negsuc n` is -(n + 1).
pub data ℤ : Type 0 where
  pos : ℕ → ℤ
  negsuc : ℕ → ℤ

-- The digits of `n` before `out`; the fuel is more than the number of digits.
digits : ℕ → ℕ → Text → Text
digits zero n out = out
digits (suc fuel) n out = elim (leb 10 n) [
  | true ↦ digits fuel (n / 10) ((b'0' + n % 10) ∷ out)
  | false ↦ (b'0' + n) ∷ out
]

unfoldable pub format_nat : ℕ → Text
unfolding digits
format_nat n = digits (suc n) n []

unfoldable pub format_int : ℤ → Text
unfolding format_nat
format_int (pos n) = format_nat n
format_int (negsuc n) = b'-' ∷ format_nat (n + 1)

-- `++` of a 64-bit int, which wraps around.
unfoldable pub increment : ℤ → ℤ
increment (pos n) = if n + 1 == 2 ^ 63 then negsuc (2 ^ 63 - 1) else pos (n + 1)
increment (negsuc zero) = pos 0
increment (negsuc (suc n)) = negsuc n

abbrev is_digit : ℕ → Bool
is_digit c = leb b'0' c && leb c b'9'

-- The number that the leading digits spell after `acc`.
scan_digits : Text → ℕ → ℕ
scan_digits [] acc = acc
scan_digits (c ∷ s) acc = if is_digit c then scan_digits s (acc * 10 + (c - b'0')) else acc

-- At least one digit has to follow.
scan_nat : Text → Option ℕ
unfolding scan_digits
scan_nat [] = none
scan_nat (c ∷ s) = if is_digit c then some (scan_digits (c ∷ s) 0) else none

-- Out of the range of int64 the scan fails.
in_range : Bool → Option ℕ → Option ℤ
in_range negative none = none
in_range false (some n) = if ltb n (2 ^ 63) then some (pos n) else none
in_range true (some zero) = some (pos 0)
in_range true (some (suc n)) = if ltb n (2 ^ 63) then some (negsuc n) else none

-- Leading blanks are skipped; a line break is an error.
unfoldable pub scan_int : Text → Option ℤ
unfolding scan_nat in_range
scan_int [] = none
scan_int (c ∷ s) =
    let rest = scan_int s in
    if c == b' ' || c == 9
    then rest
    else if c == b'-'
    then in_range true (scan_nat s)
    else if c == b'+'
    then in_range false (scan_nat s)
    else in_range false (scan_nat (c ∷ s))

-- Nothing but digits may follow.
strict_digits : Text → ℕ → Option ℕ
strict_digits [] acc = some acc
strict_digits (c ∷ s) acc =
    let rest = strict_digits s (acc * 10 + (c - b'0')) in if is_digit c then rest else none

abbrev strict_nat : Text → Option ℕ
strict_nat [] = none
strict_nat (c ∷ s) = strict_digits (c ∷ s) 0

-- `strconv.Atoi`
unfoldable pub atoi : Text → Option ℤ
unfolding strict_digits in_range
atoi [] = none
atoi (c ∷ s) =
    if c == b'-'
    then in_range true (strict_nat s)
    else if c == b'+'
    then in_range false (strict_nat s)
    else in_range false (strict_nat (c ∷ s))

format_int_examples :
    (format_int (pos 0) ≡ codes "0")
    × (format_int (pos 1205) ≡ codes "1205")
    × (format_int (negsuc 41) ≡ codes "-42")
unfolding format_int
format_int_examples = (refl, refl, refl)

scan_int_examples :
    (scan_int (codes " 12x") ≡ some (pos 12))
    × (scan_int (codes "-7") ≡ some (negsuc 6))
    × (scan_int (codes "x") ≡ none)
    × (scan_int (codes "9223372036854775808") ≡ none)
unfolding scan_int
scan_int_examples = (refl, refl, refl, refl)
