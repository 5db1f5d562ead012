-- ===== src/Base/Decimal/Atoi.antt =====
-- `strconv.Itoa` and `strconv.Atoi`, one after the other.
use mathlib.Core.Option.{some-injective}
use astinus.Base.{
  ℕ, zero, suc, ◌+◌, ◌-◌, ◌*◌, ◌/◌, ◌%◌, ◌^◌, ◌<◌, ◌≡◌, refl, ◌∙◌, sym, ap, Bool, true, false, [],
  ◌∷◌, some, ltb, leb, Text, nat_eq, ◌==◌, arith,
}
use astinus.Base.Decimal.{
  pos, digits, format_nat, is_digit, strict_digits, strict_nat, in_range, atoi,
}

strict_digits-digit :
    (d acc : ℕ) (out : Text)
    → d < 10
    → strict_digits ((b'0' + d) ∷ out) acc ≡ strict_digits out (acc * 10 + d)
unfolding strict_digits
strict_digits-digit d acc out h =
    let value : acc * 10 + (b'0' + d - b'0') ≡ acc * 10 + d = omega arith in
    let digit : is_digit (b'0' + d) ≡ true = ground arith in rw (digit, value) refl

-- What is left to read of a number is what was not written yet.
strict_digits-digits :
    (fuel n : ℕ) (out : Text) → n < fuel → strict_digits (digits fuel n out) 0 ≡ strict_digits out n
unfolding digits
strict_digits-digits zero n out h = absurd (omega arith)
strict_digits-digits (suc fuel) n out h = by_size (strict_digits-digits fuel) (leb 10 n) refl
  where
    by_size :
        ((m : ℕ) (rest : Text)
          → m < fuel
          → strict_digits (digits fuel m rest) 0 ≡ strict_digits rest m)
        → (b : Bool) → leb 10 n ≡ b
        → strict_digits
            (elim b [
              | true ↦ digits fuel (n / 10) ((b'0' + n % 10) ∷ out)
              | false ↦ (b'0' + n) ∷ out
            ])
            0
          ≡ strict_digits out n
    by_size ih true e =
        ih (n / 10) ((b'0' + n % 10) ∷ out) (ground (arith, e))
        ∙ strict_digits-digit (n % 10) (n / 10) out (omega arith)
        ∙ ap (strict_digits out) (omega arith)
    by_size ih false e =
        let value : 0 * 10 + n ≡ n = omega arith in
        strict_digits-digit n 0 out (ground (arith, e)) ∙ ap (strict_digits out) value

digits-head :
    (fuel n : ℕ) (out : Text)
    → n < fuel
    → (c : ℕ) × (s : Text) × (digits fuel n out ≡ (c ∷ s)) × (is_digit c ≡ true)
unfolding digits
digits-head zero n out h = absurd (omega arith)
digits-head (suc fuel) n out h = by_size (digits-head fuel) (leb 10 n) refl
  where
    by_size :
        ((m : ℕ) (rest : Text)
          → m < fuel
          → (c : ℕ) × (s : Text) × (digits fuel m rest ≡ (c ∷ s)) × (is_digit c ≡ true))
        → (b : Bool) → leb 10 n ≡ b
        → (c : ℕ) × (s : Text) × (elim b as (λ _. Text) [
          | true ↦ digits fuel (n / 10) ((b'0' + n % 10) ∷ out)
          | false ↦ (b'0' + n) ∷ out
        ]
            ≡ (c ∷ s))
          × (is_digit c ≡ true)
    by_size ih true e = ih (n / 10) ((b'0' + n % 10) ∷ out) (ground (arith, e))
    by_size ih false e = (b'0' + n, out, refl, ground (arith, e))

pub strict_nat-format_nat : (n : ℕ) → strict_nat (format_nat n) ≡ some n
unfolding format_nat
strict_nat-format_nat n =
    let (c, s, e, d) = digits-head (suc n) n [] (omega arith) in
    rw (e) (sym (ap (λ t. strict_digits t 0) e) ∙ written)
  where
    written : strict_digits (digits (suc n) n []) 0 ≡ some n
    written = strict_digits-digits (suc n) n [] (omega arith) ∙ (unfold strict_digits in refl)

pub format_nat_injective : (m n : ℕ) → format_nat m ≡ format_nat n → m ≡ n
format_nat_injective m n e =
    some-injective m n (sym (strict_nat-format_nat m) ∙ ap strict_nat e ∙ strict_nat-format_nat n)

atoi-digit :
    (c n : ℕ) (s : Text)
    → is_digit c ≡ true
    → strict_nat (c ∷ s) ≡ some n
    → n < 2 ^ 63
    → atoi (c ∷ s) ≡ some (pos n)
unfolding atoi in_range
atoi-digit c n s digit read h =
    let minus : (c == b'-') ≡ false = ground (arith, digit) in
    let plus : (c == b'+') ≡ false = ground (arith, digit) in
    let small : ltb n (2 ^ 63) ≡ true = ground (arith, h) in rw (minus, plus, read, small) refl

-- A number of the range of int64 is read back.
pub atoi-format_nat : (n : ℕ) → n < 2 ^ 63 → atoi (format_nat n) ≡ some (pos n)
unfolding format_nat
atoi-format_nat n h =
    let (c, s, e, digit) = digits-head (suc n) n [] (omega arith) in
    ap atoi e ∙ atoi-digit c n s digit (ap strict_nat (sym e) ∙ strict_nat-format_nat n) h
