-- ===== src/Layers/Latest.antt =====
-- Which layer owns a path: the last that wrote it, whatever stands around the write in its layer.
use mathlib.Core.List.{map-append}
use astinus.Base.{
  ℕ, ◌<◌, ◌≡◌, refl, ◌∙◌, ap, true, false, ◌&&◌, List, [], ◌∷◌, ◌++◌, map, Option, none, some,
  arith, ltb, Text, text_eq, nat_eq, ◌==◌, ==_refl, if_ind, All,
}
use astinus.Base.Dict.{Dict, lookup}
use astinus.Base.Strings.{has_prefix}
use astinus.Layers.{Header, walk_headers}
use astinus.Layers.Laws.{Single, hide}
use astinus.Layers.Visible.{
  Act, nothing, write, white_out, mask, act_of, owner, owners, lookup-walk_headers,
}

-- The act is no whiteout of `k`.
abbrev pub Keeps : Text → Act → Type 0
Keeps k (white_out target) = (target == k) ≡ false
Keeps k a = Unit

-- The act is no write of `k`.
abbrev pub Leaves : Text → Act → Type 0
Leaves k (write name) = (name == k) ≡ false
Leaves k a = Unit

owners-append :
    (i : ℕ) (k : Text) (before after : List Act) (o : Option ℕ)
    → owners i k (before ++ after) o ≡ owners i k after (owners i k before o)
owners-append i k [] after o = refl
owners-append i k (a ∷ before) after o = owners-append i k before after (owner i k a o)

owner-Keeps : (i : ℕ) (k : Text) (a : Act) → Keeps k a → owner i k a (some i) ≡ some i
owner-Keeps i k nothing h = refl
owner-Keeps i k (write name) h = ground arith
owner-Keeps i k (white_out target) h = ground arith
owner-Keeps i k (mask prefix) h = ground arith

owners-Keeps :
    (i : ℕ) (k : Text) (acts : List Act) → All (Keeps k) acts → owners i k acts (some i) ≡ some i
owners-Keeps i k [] h = refl
owners-Keeps i k (a ∷ acts) (h, hs) =
    ap (owners i k acts) (owner-Keeps i k a h) ∙ owners-Keeps i k acts hs

-- On a map with one entry for each path, a file of a layer belongs to that layer, wherever the
-- layer's opaque markers stand and whatever lay there before, if no later header of the layer
-- hides the file itself.
pub walk_headers-write :
    (i : ℕ) (k : Text) (paths : Dict Text ℕ) (before : List Header) (hdr : Header)
    (after : List Header)
    → Single paths
    → act_of hdr ≡ write k
    → All (Keeps k) (map act_of after)
    → lookup k (walk_headers i paths (before ++ hdr ∷ after)) ≡ some i
walk_headers-write i k paths before hdr after h writes kept =
    lookup-walk_headers i paths (before ++ hdr ∷ after) k h
    ∙ ap (λ acts. owners i k acts (lookup k paths)) (map-append act_of before (hdr ∷ after))
    ∙ owners-append i k (map act_of before) (act_of hdr ∷ map act_of after) (lookup k paths)
    ∙ ap (λ a. owners i k (map act_of after) (owner i k a o)) writes
    ∙ ap (owners i k (map act_of after)) written
    ∙ owners-Keeps i k (map act_of after) kept
  where
    o : Option ℕ
    o = owners i k (map act_of before) (lookup k paths)

    written : owner i k (write k) o ≡ some i
    written = ground (arith, ==_refl k)

-- Whether the owner is a layer before `i`.
abbrev pub IsPrior : ℕ → Option ℕ → Type 0
IsPrior i none = Unit
IsPrior i (some idx) = idx < i

owner-IsPrior :
    (i : ℕ) (k : Text) (a : Act) (o : Option ℕ)
    → Leaves k a
    → IsPrior i o
    → IsPrior i (owner i k a o)
owner-IsPrior i k nothing o h p = p
owner-IsPrior i k (write name) o h p = rw (h) p
owner-IsPrior i k (white_out target) o h p = if_ind (IsPrior i) (target == k) tt p
owner-IsPrior i k (mask prefix) none h p = tt
owner-IsPrior i k (mask prefix) (some idx) h p =
    if_ind (IsPrior i) (ltb idx i && has_prefix k prefix) tt p

owners-IsPrior :
    (i : ℕ) (k : Text) (acts : List Act) (o : Option ℕ)
    → All (Leaves k) acts
    → IsPrior i o
    → IsPrior i (owners i k acts o)
owners-IsPrior i k [] o h p = p
owners-IsPrior i k (a ∷ acts) o (h, hs) p =
    owners-IsPrior i k acts (owner i k a o) hs (owner-IsPrior i k a o h p)

owners-none :
    (i : ℕ) (k : Text) (acts : List Act) → All (Leaves k) acts → owners i k acts none ≡ none
owners-none i k [] h = refl
owners-none i k (nothing ∷ acts) (h, hs) = owners-none i k acts hs
owners-none i k (write name ∷ acts) (h, hs) = rw (h) (owners-none i k acts hs)
owners-none i k (white_out target ∷ acts) (h, hs) =
    if_ind (λ o. owners i k acts o ≡ none) (target == k) (owners-none i k acts hs)
      (owners-none i k acts hs)
owners-none i k (mask prefix ∷ acts) (h, hs) = owners-none i k acts hs

hide-IsPrior : (i : ℕ) (o : Option ℕ) → IsPrior i o → hide true i o ≡ none
hide-IsPrior i none p = refl
hide-IsPrior i (some idx) p = ground arith

-- On a map with one entry for each path, an opaque marker hides a file below its directory that
-- an earlier layer owns, unless a header of its own layer writes the file.
pub walk_headers-mask :
    (i : ℕ) (k prefix : Text) (paths : Dict Text ℕ) (before : List Header) (hdr : Header)
    (after : List Header)
    → Single paths
    → IsPrior i (lookup k paths)
    → act_of hdr ≡ mask prefix
    → has_prefix k prefix ≡ true
    → All (Leaves k) (map act_of before)
    → All (Leaves k) (map act_of after)
    → lookup k (walk_headers i paths (before ++ hdr ∷ after)) ≡ none
walk_headers-mask i k prefix paths before hdr after h prior masks covered left left' =
    lookup-walk_headers i paths (before ++ hdr ∷ after) k h
    ∙ ap (λ acts. owners i k acts (lookup k paths)) (map-append act_of before (hdr ∷ after))
    ∙ owners-append i k (map act_of before) (act_of hdr ∷ map act_of after) (lookup k paths)
    ∙ ap (λ a. owners i k (map act_of after) (owner i k a o)) masks
    ∙ ap (λ b. owners i k (map act_of after) (hide b i o)) covered
    ∙ ap (owners i k (map act_of after))
        (hide-IsPrior i o (owners-IsPrior i k (map act_of before) _ left prior))
    ∙ owners-none i k (map act_of after) left'
  where
    o : Option ℕ
    o = owners i k (map act_of before) (lookup k paths)
