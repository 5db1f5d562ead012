-- ===== src/Layers/Digests.antt =====
-- internal/image/layer/walker.go: what a descriptor says of its layer.
use mathlib.Core.Path.{subst}
use astinus.Base.Results.{IfOk, IfOk-bind, IfOk-elim, IfOk-trivial}
use astinus.Base.{
  ℕ, zero, suc, ◌+◌, ◌≡◌, refl, inl, inr, List, [], ◌∷◌, Option, none, some, arith, Text, text_eq,
  if_ind, Option-cases, ok,
}
use astinus.Base.Dict.{lookup}
use astinus.Layers.{
  Info, History, Layer, Image, FileMap, normalize_path, digest_text, infos_from, pair_history,
  build_infos, walk_layers, walk, at, lookup_path,
}

-- `layers[n]` of an image.
abbrev pub layer_at : List Layer → ℕ → Option Layer
layer_at [] n = none
layer_at (l ∷ ls) zero = some l
layer_at (l ∷ ls) (suc n) = layer_at ls n

-- The descriptors from number `i` on bear the numbers and the digests of the layers.
abbrev pub AreOf : ℕ → List Info → List Layer → Type 0
AreOf i [] lyrs = Unit
AreOf i (info ∷ infos) [] = ⊥
AreOf i (info ∷ infos) (lyr ∷ lyrs) =
    (info.index ≡ i) × (info.digest ≡ digest_text lyr.digest) × AreOf (suc i) infos lyrs

infos_from-AreOf : (i : ℕ) (lyrs : List Layer) → AreOf i (infos_from i lyrs) lyrs
unfolding infos_from
infos_from-AreOf i [] = tt
infos_from-AreOf i (lyr ∷ lyrs) = (refl, refl, infos_from-AreOf (suc i) lyrs)

pair_history-AreOf :
    (i : ℕ) (infos : List Info) (lyrs : List Layer) (hs : List History)
    → AreOf i infos lyrs
    → AreOf i (pair_history infos hs) lyrs
unfolding pair_history
pair_history-AreOf i infos lyrs [] h = h
pair_history-AreOf i [] lyrs (e ∷ hs) h =
    if_ind (λ infos. AreOf i infos lyrs) e.empty_layer (pair_history-AreOf i [] lyrs hs tt) tt
pair_history-AreOf i (info ∷ infos) [] (e ∷ hs) h = absurd h
pair_history-AreOf i (info ∷ infos) (lyr ∷ lyrs) (e ∷ hs) (n, d, h) =
    if_ind (λ infos. AreOf i infos (lyr ∷ lyrs)) e.empty_layer
      (pair_history-AreOf i (info ∷ infos) (lyr ∷ lyrs) hs (n, d, h))
      (n, d, pair_history-AreOf (suc i) infos lyrs hs h)

-- What a descriptor that is found says.
abbrev pub Describes : List Layer → ℕ → Text → Type 0
Describes lyrs n digest =
    (lyr : Layer) × (layer_at lyrs n ≡ some lyr) × (digest ≡ digest_text lyr.digest)

at-AreOf :
    (i : ℕ) (infos : List Info) (lyrs : List Layer) (n : ℕ) (info : Info)
    → AreOf i infos lyrs
    → at infos n ≡ some info
    → (info.index ≡ i + n) × Describes lyrs n info.digest
unfolding at
at-AreOf i [] lyrs n info h e = absurd (cc e)
at-AreOf i (first ∷ infos) [] n info h e = absurd h
at-AreOf i (first ∷ infos) (lyr ∷ lyrs) zero info (n, d, h) e =
    subst
      (λ o. elim o [ none ↦ Unit | some x ↦ (x.index ≡ i + 0) × Describes (lyr ∷ lyrs) 0 x.digest ])
      e (omega (arith, n), (lyr, refl, d))
at-AreOf i (first ∷ infos) (lyr ∷ lyrs) (suc n) info (_, _, h) e =
    let (numbered, described) = at-AreOf (suc i) infos lyrs n info h e in
    (omega (arith, numbered), described)

build_infos-AreOf :
    (img : Image) (lyrs : List Layer) → IfOk (λ infos. AreOf 0 infos lyrs) (build_infos img lyrs)
unfolding build_infos
build_infos-AreOf img lyrs =
    IfOk-bind (λ _. Unit {0}) (λ infos. AreOf 0 infos lyrs) img.config_file _
      (IfOk-trivial img.config_file)
      λ cfg _.
        IfOk-elim (λ infos. AreOf 0 infos lyrs) (ok (infos_from 0 lyrs))
          (λ cf. ok (pair_history (infos_from 0 lyrs) cf.history)) cfg (infos_from-AreOf 0 lyrs)
          λ cf. pair_history-AreOf 0 (infos_from 0 lyrs) lyrs cf.history (infos_from-AreOf 0 lyrs)

walk-AreOf :
    (ctx : ℕ → Option Text) (img : Image) (lyrs : List Layer)
    → img.layers ≡ ok lyrs
    → IfOk (λ m. AreOf 0 m.layers lyrs) (walk ctx img)
unfolding walk
walk-AreOf ctx img lyrs read =
    rw (read, walk)
      (IfOk-bind (λ infos. AreOf 0 infos lyrs) (λ m. AreOf 0 m.layers lyrs) (build_infos img lyrs) _
        (build_infos-AreOf img lyrs)
        λ descs described.
          IfOk-bind (λ _. Unit {0}) (λ m. AreOf 0 m.layers lyrs) (walk_layers ctx 0 lyrs []) _
            (IfOk-trivial (walk_layers ctx 0 lyrs [])) (λ paths _. described))

-- A descriptor that `Lookup` finds in a walked image bears the number that the map has for the path,
-- and the digest of the layer of that number.
pub lookup_path-Describes :
    (ctx : ℕ → Option Text) (img : Image) (lyrs : List Layer) (m : FileMap) (p : Text) (info : Info)
    → img.layers ≡ ok lyrs
    → walk ctx img ≡ ok m
    → lookup_path m p ≡ some info
    → (lookup (normalize_path p) m.paths ≡ some info.index) × Describes lyrs info.index info.digest
unfolding lookup_path
lookup_path-Describes ctx img lyrs m p info read walked found =
    let described =
      subst (IfOk (λ m. AreOf 0 m.layers lyrs)) walked (walk-AreOf ctx img lyrs read) in
    elim (Option-cases (lookup (normalize_path p) m.paths)) [
      | inl missing ↦ absurd (cc (rw (missing, lookup_path) at found))
      | inr (idx, here) ↦
          let (n, d) =
            at-AreOf 0 m.layers lyrs idx info described (rw (here, lookup_path) at found) in
          let same : info.index ≡ idx = omega (arith, n) in rw (same) (here, d)
    ]
