-- ===== src/Runtime/Laws.antt =====
-- internal/image/runtime/normalize.go against internal/image/layer/walker.go: both pair the layers with
-- the history, each in its own loop.
use astinus.Base.{
  ℕ, suc, ◌≡◌, refl, inl, inr, List, [], ◌∷◌, map, some, Text, Bool-cases, if_ind, ok,
}
use astinus.Base.Strings.{trim_space, cut_prefix}
use astinus.Layers.{Info, History, Layer, ConfigFile, Image, infos_from, pair_history, build_infos}
use astinus.Runtime.{
  Runtime, docker, build_kit, podman, buildah, kaniko, jib, ko, unknown, NormalizedLayer,
  strip_created_by, next_entry, normalize_layer, normalize_layers, normalize,
}

-- A layer's number, its digest and the text of its history entry.
abbrev pub Summary : Type 0
Summary = ℕ × Text × Text

abbrev pub summary : NormalizedLayer → Summary
summary nl = (nl.index, nl.digest, nl.created_by)

-- The same of the walker's descriptor, less what the runtime adds to the text.
abbrev pub stripped : Runtime → Info → Summary
stripped rt i = (i.index, i.digest, strip_created_by rt i.created_by)

strip_created_by-nil : (rt : Runtime) → strip_created_by rt [] ≡ []
unfolding strip_created_by trim_space cut_prefix
strip_created_by-nil docker = refl
strip_created_by-nil build_kit = refl
strip_created_by-nil podman = refl
strip_created_by-nil buildah = refl
strip_created_by-nil kaniko = refl
strip_created_by-nil jib = refl
strip_created_by-nil ko = refl
strip_created_by-nil unknown = refl

pair_history-nil : (hs : List History) → pair_history [] hs ≡ []
unfolding pair_history
pair_history-nil [] = refl
pair_history-nil (h ∷ hs) = if_ind (λ infos. infos ≡ []) h.empty_layer (pair_history-nil hs) refl

normalize_layers-unpaired :
    (rt : Runtime) (i : ℕ) (layers : List Layer)
    → map summary (normalize_layers rt i layers []) ≡ map (stripped rt) (infos_from i layers)
unfolding normalize_layers infos_from normalize_layer next_entry
normalize_layers-unpaired rt i [] = refl
normalize_layers-unpaired rt i (layer ∷ layers) =
    rw (normalize_layers-unpaired rt (suc i) layers, strip_created_by-nil rt) refl

normalize_layers-pair_history :
    (rt : Runtime) (i : ℕ) (layers : List Layer) (hs : List History)
    → map summary (normalize_layers rt i layers hs)
      ≡ map (stripped rt) (pair_history (infos_from i layers) hs)
unfolding normalize_layers infos_from normalize_layer next_entry pair_history
normalize_layers-pair_history rt i layers [] = normalize_layers-unpaired rt i layers
normalize_layers-pair_history rt i [] (h ∷ hs) = rw (pair_history-nil (h ∷ hs)) refl
normalize_layers-pair_history rt i (layer ∷ layers) (h ∷ hs) = elim (Bool-cases h.empty_layer) [
  | inl empty ↦ rw (empty) (normalize_layers-pair_history rt i (layer ∷ layers) hs)
  | inr made ↦ rw (made, normalize_layers-pair_history rt (suc i) layers hs) refl
]

-- The layers that `Normalize` returns and the descriptors that `Walk` returns agree in number and
-- order, and each pair agrees in index, digest and history text, less the runtime's marker that
-- `Normalize` strips, whenever the config, with a history, and the layers can be read.
pub normalize-build_infos :
    (rt : Runtime) (img : Image) (layers : List Layer) (cf : ConfigFile)
    → img.config_file ≡ ok (some cf)
    → img.layers ≡ ok layers
    → (nls : List NormalizedLayer) × (infos : List Info) × (normalize rt img ≡ ok nls)
      × (build_infos img layers ≡ ok infos)
      × (map summary nls ≡ map (stripped rt) infos)
unfolding normalize build_infos
normalize-build_infos rt img layers cf config read = (
  normalize_layers rt 0 layers cf.history,
  pair_history (infos_from 0 layers) cf.history,
  rw (config, read) refl,
  rw (config) refl,
  normalize_layers-pair_history rt 0 layers cf.history,
)
