-- ===== src/Layers/Diff.antt =====
-- internal/image/layer/diff.go: which layers or paths of a target image come from its base image. The
-- set of base paths is a list; `nil` images have no counterpart.
use astinus.Base.Tests.{both_true}
use mathlib.Core.Path.{subst}
use astinus.Base.Results.{IfOk, IfOk-bind, IfOk-trivial}
use astinus.Base.{
  ℕ, zero, suc, ◌<◌, ◌≤◌, ◌≡◌, refl, sym, ap, ◌↔◌, inl, inr, Bool, true, false, List, [], ◌∷◌,
  Option, none, some, arith, ltb, Text, text_eq, nat_eq, ◌==◌, ==_iff, ==_refl, if◌then◌else◌,
  Bool-cases, length, contains, Result, ok, ◌>>=◌,
}
use astinus.Layers.{Layer, Image, FileMap, normalize_path, walk}
use astinus.Layers.Laws.{keys}

pub data DiffMode : Type 0 where
  prefix_mode : DiffMode
  fallback_mode : DiffMode

pub record Diff : Type 0 where
  pub mode : DiffMode
  pub base_prefix : ℕ
  pub base_paths : List Text

unfoldable pub is_base_layer : Diff → ℕ → Bool
is_base_layer d idx = elim d.mode [ prefix_mode ↦ ltb idx d.base_prefix | fallback_mode ↦ false ]

unfoldable pub is_base_path : Diff → Text → Bool
is_base_path d path = contains d.base_paths (normalize_path path)

abbrev pub same_digest : Option Text → Option Text → Bool
same_digest none td = false
same_digest (some bd) none = false
same_digest (some bd) (some td) = bd == td

-- The loop of `layerPrefix`, over the base and the target side by side.
unfoldable pub digests_match : List Layer → List Layer → Bool
digests_match target [] = true
digests_match [] (b ∷ base) = false
digests_match (t ∷ target) (b ∷ base) =
    let rest = digests_match target base in if same_digest b.digest t.digest then rest else false

unfoldable pub layer_prefix : List Layer → List Layer → ℕ × Bool
unfolding digests_match
layer_prefix target [] = (0, true)
layer_prefix target (b ∷ base) =
    if ltb (length target) (length (b ∷ base))
    then (0, false)
    else if digests_match target (b ∷ base)
    then (length (b ∷ base), true)
    else (0, false)

abbrev pub fallback_diff : FileMap → Diff
fallback_diff m = record { mode = fallback_mode; base_prefix = 0; base_paths = keys m.paths }

unfoldable pub compute_diff : (ℕ → Option Text) → Image → Image → Result Text Diff
unfolding layer_prefix
compute_diff ctx target base = do
  tgt_layers ← target.layers
  base_layers ← base.layers
  (if (layer_prefix tgt_layers base_layers).1
      then ok (record {
        mode = prefix_mode;
        base_prefix = (layer_prefix tgt_layers base_layers).0;
        base_paths = [];
      })
      else walk ctx base >>= λ base_map. ok (fallback_diff base_map))

-- `layers[n].Digest()`, where both succeed.
abbrev pub digest_at : List Layer → ℕ → Option Text
digest_at [] n = none
digest_at (l ∷ ls) zero = l.digest
digest_at (l ∷ ls) (suc n) = digest_at ls n

-- Every layer of the base has a digest, and the target's layer of the same number has it too.
abbrev pub ExtendsBase : List Layer → List Layer → Type 0
ExtendsBase target base =
    (n : ℕ)
    → n < length base
    → (d : Text) × (digest_at base n ≡ some d) × (digest_at target n ≡ some d)

same_digest-both :
    (a b : Option Text) → same_digest a b ≡ true → (d : Text) × (a ≡ some d) × (b ≡ some d)
same_digest-both none b h = absurd (cc h)
same_digest-both (some a) none h = absurd (cc h)
same_digest-both (some a) (some b) h = (a, refl, ap some (sym ((==_iff a b).0 h)))

same_digest_of_both :
    (a b : Option Text) (d : Text) → a ≡ some d → b ≡ some d → same_digest a b ≡ true
same_digest_of_both a b d ea eb = rw (ea, eb) (==_refl d)

digests_match-ExtendsBase :
    (target base : List Layer) → digests_match target base ≡ true → ExtendsBase target base
unfolding digests_match
digests_match-ExtendsBase target [] h n l = absurd (omega (arith, l))
digests_match-ExtendsBase [] (b ∷ base) h n l = absurd (cc h)
digests_match-ExtendsBase (t ∷ target) (b ∷ base) h zero l =
    same_digest-both b.digest t.digest
      (both_true (same_digest b.digest t.digest) (digests_match target base) h).0
digests_match-ExtendsBase (t ∷ target) (b ∷ base) h (suc n) l =
    digests_match-ExtendsBase target base
      (both_true (same_digest b.digest t.digest) (digests_match target base) h).1 n
      (omega (arith, l))

digests_match_of_ExtendsBase :
    (target base : List Layer) → ExtendsBase target base → digests_match target base ≡ true
unfolding digests_match
digests_match_of_ExtendsBase target [] h = refl
digests_match_of_ExtendsBase [] (b ∷ base) h =
    let (d, here, there) = h zero (omega arith) in absurd (cc there)
digests_match_of_ExtendsBase (t ∷ target) (b ∷ base) h =
    let (d, here, there) = h zero (omega arith) in
    rw (same_digest_of_both b.digest t.digest d here there)
      (digests_match_of_ExtendsBase target base (λ n l. h (suc n) (omega (arith, l))))

ExtendsBase-length :
    (target base : List Layer) → ExtendsBase target base → length base ≤ length target
ExtendsBase-length target [] h = omega arith
ExtendsBase-length [] (b ∷ base) h =
    let (d, here, there) = h zero (omega arith) in absurd (cc there)
ExtendsBase-length (t ∷ target) (b ∷ base) h =
    omega (arith, ExtendsBase-length target base (λ n l. h (suc n) (omega (arith, l))))

-- The prefix test holds exactly when the target's layers start with the base's, and then the prefix
-- is the number of the base's layers.
pub layer_prefix_iff :
    (target base : List Layer)
    → ((layer_prefix target base).1 ≡ true)
      ↔ (((layer_prefix target base).0 ≡ length base) × ExtendsBase target base)
unfolding layer_prefix
layer_prefix_iff target [] = (λ h. (refl, λ n l. absurd (omega (arith, l))), λ h. refl)
layer_prefix_iff target (b ∷ base) = (to, from)
  where
    r : ℕ × Bool
    r = layer_prefix target (b ∷ base)

    to : r.1 ≡ true → (r.0 ≡ suc (length base)) × ExtendsBase target (b ∷ base)
    to h = elim (Bool-cases (ltb (length target) (suc (length base)))) [
      | inl short ↦ absurd (cc (rw (short, layer_prefix) at h))
      | inr long ↦ elim (Bool-cases (digests_match target (b ∷ base))) [
        | inl same ↦
            (rw (long, same, layer_prefix) refl, digests_match-ExtendsBase target (b ∷ base) same)
        | inr differ ↦ absurd (cc (rw (long, differ, layer_prefix) at h))
      ]
    ]

    from : (r.0 ≡ suc (length base)) × ExtendsBase target (b ∷ base) → r.1 ≡ true
    from (_, extends) =
        rw (digests_match_of_ExtendsBase target (b ∷ base) extends, long, layer_prefix) refl
      where
        long : ltb (length target) (suc (length base)) ≡ false
        long = ground (arith, ExtendsBase-length target (b ∷ base) extends)

-- The layers that a difference gives to the base have in both images the same digest.
abbrev pub IsDiff : List Layer → List Layer → Diff → Type 0
IsDiff target base d =
    ((idx : ℕ)
      → is_base_layer d idx ≡ true
      → (digest : Text) × (digest_at base idx ≡ some digest) × (digest_at target idx ≡ some digest))

prefix-IsDiff :
    (target base : List Layer)
    → (layer_prefix target base).1 ≡ true
    → IsDiff target base
        (record { mode = prefix_mode; base_prefix = (layer_prefix target base).0; base_paths = [] })
unfolding is_base_layer
prefix-IsDiff target base matched idx h =
    let (same, extends) = (layer_prefix_iff target base).0 matched in
    extends idx (ground (arith, same, h))

fallback-IsDiff : (target base : List Layer) (m : FileMap) → IsDiff target base (fallback_diff m)
unfolding is_base_layer
fallback-IsDiff target base m idx h = absurd (cc h)

compute_diff-IsDiff :
    (ctx : ℕ → Option Text) (target base : Image) (ts bs : List Layer) (d : Diff)
    → target.layers ≡ ok ts
    → base.layers ≡ ok bs
    → compute_diff ctx target base ≡ ok d
    → IsDiff ts bs d
unfolding compute_diff
compute_diff-IsDiff ctx target base ts bs d read read' h =
    subst (IfOk (IsDiff ts bs)) h
      (rw (read, read', compute_diff) (by_prefix _ (layer_prefix ts bs).1 refl))
  where
    prefixed : Diff
    prefixed = record { mode = prefix_mode; base_prefix = (layer_prefix ts bs).0; base_paths = [] }

    by_prefix :
        (walked : Result Text FileMap) (matched : Bool)
        → (layer_prefix ts bs).1 ≡ matched
        → IfOk
            (IsDiff ts bs)
            (if matched then ok prefixed else walked >>= λ m. ok (fallback_diff m))
    by_prefix walked true same = prefix-IsDiff ts bs same
    by_prefix walked false same =
        IfOk-bind (λ _. Unit {0}) (IsDiff ts bs) walked (λ m. ok (fallback_diff m))
          (IfOk-trivial walked) (λ m _. fallback-IsDiff ts bs m)

-- Whatever `ComputeDiff` returns of two images whose layers can be read, a layer that it gives to
-- the base has in both images the same digest.
pub is_base_layer-compute_diff :
    (ctx : ℕ → Option Text) (target base : Image) (ts bs : List Layer) (d : Diff) (idx : ℕ)
    → target.layers ≡ ok ts
    → base.layers ≡ ok bs
    → compute_diff ctx target base ≡ ok d
    → is_base_layer d idx ≡ true
    → (digest : Text) × (digest_at bs idx ≡ some digest) × (digest_at ts idx ≡ some digest)
is_base_layer-compute_diff ctx target base ts bs d idx read read' made h =
    compute_diff-IsDiff ctx target base ts bs d read read' made idx h
