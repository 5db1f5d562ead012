-- ===== src/PathClassifier/MergeLaws.antt =====
-- Merging rule sets that are valid gives a rule set that is valid.
use mathlib.Core.Path.{subst}
use astinus.Base.Tests.{or_else}
use astinus.Base.{
  ℕ, suc, ◌≡◌, refl, ◌∙◌, sym, ap, ◌↔◌, inl, inr, true, false, List, [], ◌∷◌, ◌++◌, Option, none,
  some, arith, Text, text_eq, nat_eq, ◌==◌, ==_iff, ==_refl, if◌then◌else◌, if_ind, Bool-cases,
  contains, All, All-append,
}
use astinus.PathClassifier.Classify.{
  Rule, last_named, override_all, rule_names, unused, merge_rules, known_action, validate_rules,
}

-- A rule with a name and a known action.
abbrev pub IsGood : Rule → Type 0
IsGood r = ((r.name == []) ≡ false) × (known_action r.action ≡ true)

-- The names of a rule list are distinct, and not among those seen before.
abbrev pub AreNew : List Text → List Text → Type 0
AreNew seen [] = Unit
AreNew seen (n ∷ names) = (contains seen n ≡ false) × AreNew (n ∷ seen) names

validate_rules-AreNew :
    (seen : List Text) (i : ℕ) (rules : List Rule)
    → (validate_rules seen i rules ≡ none) ↔ (All IsGood rules × AreNew seen (rule_names rules))
unfolding validate_rules
validate_rules-AreNew seen i [] = (λ h. (tt, tt), λ h. refl)
validate_rules-AreNew seen i (r ∷ rules) =
    let (to, from) = validate_rules-AreNew (r.name ∷ seen) (suc i) rules in
    elim (Bool-cases (r.name == [])) [
      | inl empty ↦
          (λ h. absurd (cc (rw (empty, validate_rules) at h)), λ h. absurd (cc (h.0.0.0, empty)))
      | inr named ↦ elim (Bool-cases (contains seen r.name)) [
        | inl twice ↦ (
          λ h. absurd (cc (rw (named, twice, validate_rules) at h)),
          λ h. absurd (cc (h.1.0, twice)),
        )
        | inr fresh ↦ elim (Bool-cases (known_action r.action)) [
          | inl known ↦
              rw (named, fresh, known, validate_rules)
                (λ h. (((refl, refl), (to h).0), (refl, (to h).1)), λ h. from (h.0.1, h.1.1))
          | inr odd ↦ (
            λ h. absurd (cc (rw (named, fresh, odd, validate_rules) at h)),
            λ h. absurd (cc (h.0.0.1, odd)),
          )
        ]
      ]
    ]

AreNew-agree :
    (seen seen' names : List Text)
    → ((n : Text) → contains names n ≡ true → contains seen n ≡ false → contains seen' n ≡ false)
    → AreNew seen names
    → AreNew seen' names
AreNew-agree seen seen' [] h new = tt
AreNew-agree seen seen' (m ∷ names) h (fresh, new) = (
  h m (rw (==_refl m) refl) fresh,
  AreNew-agree (m ∷ seen) (m ∷ seen') names (λ n listed unseen. ground (arith, h n, listed, unseen))
      new,
)

AreNew-append :
    (seen xs ys : List Text)
    → AreNew seen xs
    → AreNew seen ys
    → ((n : Text) → contains ys n ≡ true → contains xs n ≡ false)
    → AreNew seen (xs ++ ys)
AreNew-append seen [] ys new new' apart = new'
AreNew-append seen (x ∷ xs) ys (fresh, new) new' apart = (
  fresh,
  AreNew-append (x ∷ seen) xs ys new
      (AreNew-agree seen (x ∷ seen) ys (λ n listed unseen. ground (arith, apart n, listed, unseen))
        new')
      (λ n listed. ground (arith, apart n, listed)),
)

-- What the override of a name is.
abbrev pub IsOverride : Text → Option Rule → Type 0
IsOverride n none = Unit
IsOverride n (some r) = IsGood r × (r.name ≡ n)

last_named-IsOverride :
    (custom : List Rule) (n : Text) → All IsGood custom → IsOverride n (last_named custom n)
unfolding last_named
last_named-IsOverride [] n good = tt
last_named-IsOverride (r ∷ custom) n (g, good) =
    either (last_named custom n) (last_named-IsOverride custom n good)
  where
    here : IsOverride n (if r.name == n then some r else none)
    here = elim (Bool-cases (r.name == n)) [
      | inl same ↦ rw (same) (g, (==_iff r.name n).0 same)
      | inr other ↦ rw (other) tt
    ]

    either :
        (o : Option Rule)
        → IsOverride n o
        → IsOverride n (or_else o (if r.name == n then some r else none))
    either none h = here
    either (some x) h = h

override_all-IsGood :
    (custom defaults : List Rule)
    → All IsGood custom
    → All IsGood defaults
    → All IsGood (override_all custom defaults)
      × (rule_names (override_all custom defaults) ≡ rule_names defaults)
unfolding override_all
override_all-IsGood custom [] good good' = (tt, refl)
override_all-IsGood custom (d ∷ defaults) good (g, good') =
    let (all, names) = override_all-IsGood custom defaults good good' in
    by_override (last_named custom d.name) (last_named-IsOverride custom d.name good) all names
  where
    rest : List Rule
    rest = override_all custom defaults

    by_override :
        (o : Option Rule)
        → IsOverride d.name o
        → All IsGood rest
        → rule_names rest ≡ rule_names defaults
        → All IsGood (elim o [ none ↦ d | some c ↦ c ] ∷ rest)
          × (rule_names (elim o [ none ↦ d | some c ↦ c ] ∷ rest) ≡ d.name ∷ rule_names defaults)
    by_override none h all names = ((g, all), ap (λ l. d.name ∷ l) names)
    by_override (some c) (good_c, same) all names = ((good_c, all), cc (same, names))

unused-IsGood :
    (names : List Text) (custom : List Rule) → All IsGood custom → All IsGood (unused names custom)
unfolding unused
unused-IsGood names [] good = tt
unused-IsGood names (c ∷ custom) (g, good) =
    if_ind (All IsGood) (contains names c.name) (unused-IsGood names custom good)
      (g, unused-IsGood names custom good)

unused-apart :
    (names : List Text) (custom : List Rule) (n : Text)
    → contains (rule_names (unused names custom)) n ≡ true
    → contains names n ≡ false
unfolding unused
unused-apart names [] n h = absurd (cc h)
unused-apart names (c ∷ custom) n h = elim (Bool-cases (contains names c.name)) [
  | inl used ↦ unused-apart names custom n (rw (used, unused) at h)
  | inr free ↦ elim (Bool-cases (c.name == n)) [
    | inl same ↦ subst (λ t. contains names t ≡ false) ((==_iff c.name n).0 same) free
    | inr other ↦ unused-apart names custom n (rw (free, unused, other) at h)
  ]
]

unused-AreNew :
    (seen names : List Text) (custom : List Rule)
    → AreNew seen (rule_names custom)
    → AreNew seen (rule_names (unused names custom))
unfolding unused
unused-AreNew seen names [] new = tt
unused-AreNew seen names (c ∷ custom) (fresh, new) =
    if_ind (λ l. AreNew seen (rule_names l)) (contains names c.name)
      (AreNew-agree (c.name ∷ seen) seen (rule_names (unused names custom))
        (λ n listed unseen. ground (arith, unseen))
        (unused-AreNew (c.name ∷ seen) names custom new))
      (fresh, unused-AreNew (c.name ∷ seen) names custom new)

rule_names-append : (a b : List Rule) → rule_names (a ++ b) ≡ rule_names a ++ rule_names b
rule_names-append [] b = refl
rule_names-append (r ∷ a) b = ap (λ l. r.name ∷ l) (rule_names-append a b)

-- Merging two rule lists that each pass the validation gives a list that passes it: no name stands
-- twice in it, whichever rules the custom ones replace.
pub validate_rules-merge_rules :
    (defaults custom : List Rule)
    → validate_rules [] 0 defaults ≡ none
    → validate_rules [] 0 custom ≡ none
    → validate_rules [] 0 (merge_rules defaults custom) ≡ none
unfolding merge_rules
validate_rules-merge_rules defaults custom h h' =
    let (good, new) = (validate_rules-AreNew [] 0 defaults).0 h in
    let (good', new') = (validate_rules-AreNew [] 0 custom).0 h' in
    let (kept, names) = override_all-IsGood custom defaults good' good in
    (validate_rules-AreNew [] 0 (override_all custom defaults ++ fresh)).1 (
      All-append IsGood (override_all custom defaults) fresh kept
          (unused-IsGood (rule_names defaults) custom good'),
      subst (AreNew [])
          (sym (
            rule_names-append (override_all custom defaults) fresh
            ∙ ap (λ l. l ++ rule_names fresh) names))
          (AreNew-append [] (rule_names defaults) (rule_names fresh) new
            (unused-AreNew [] (rule_names defaults) custom new')
            (unused-apart (rule_names defaults) custom)),
    )
  where
    fresh : List Rule
    fresh = unused (rule_names defaults) custom
