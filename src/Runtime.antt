-- ===== src/Runtime.antt =====
-- internal/image/runtime/normalize.go: the layers of an image, each with the history entry that made it
-- and the Dockerfile instruction of that entry. A time is a text.

pub mod Detect
pub mod Laws
pub mod Labels
pub mod Samples
mod Tests
use astinus.Base.{
  ℕ, zero, suc, ◌≡◌, refl, Bool, true, false, ◌&&◌, not, List, [], ◌∷◌, ◌++◌, Option, none, some,
  leb, Text, codes, text_eq, nat_eq, ◌==◌, if◌then◌else◌, length, take, Result, ok, err, ◌>>=◌,
}
use astinus.Base.Dict.{Dict, insert}
use astinus.Base.Strings.{to_upper, equal_fold, trim_space, has_prefix, trim_prefix, after_text}
use astinus.Layers.{History, Layer, ConfigFile, Image, digest_text}

-- `Runtime`, its text below.
pub data Runtime : Type 0 where
  docker build_kit podman buildah kaniko jib ko unknown : Runtime

unfoldable pub runtime_text : Runtime → Text
runtime_text docker = codes "docker"
runtime_text build_kit = codes "buildkit"
runtime_text podman = codes "podman"
runtime_text buildah = codes "buildah"
runtime_text kaniko = codes "kaniko"
runtime_text jib = codes "jib"
runtime_text ko = codes "ko"
runtime_text unknown = codes "unknown"

-- An instruction type is its text, as in the source.
abbrev pub instruction_unknown : Text
instruction_unknown = codes "UNKNOWN"

abbrev pub instruction_run : Text
instruction_run = codes "RUN"

abbrev pub known_instructions : List Text
known_instructions =
    codes "FROM"
    ∷ codes "RUN"
    ∷ codes "COPY"
    ∷ codes "ADD"
    ∷ codes "ENV"
    ∷ codes "LABEL"
    ∷ codes "ARG"
    ∷ []

pub record NormalizedLayer : Type 0 where
  pub index : ℕ
  pub digest : Text
  pub diff_id : Text
  pub size : ℕ
  pub created_by : Text
  pub created : Text
  pub comment : Text
  pub empty_layer : Bool
  pub instruction_type : Text
  pub runtime_metadata : Dict Text Text

unfoldable pub first_word_of : List Text → Text → Text
first_word_of [] upper = instruction_unknown
first_word_of (it ∷ its) upper =
    let rest = first_word_of its upper in if has_prefix upper (it ++ codes " ") then it else rest

unfoldable pub classify_instruction_word : Text → Text
unfolding first_word_of
classify_instruction_word s = first_word_of known_instructions (to_upper s)

unfoldable pub has_instruction_prefix : Text → Text → Bool
has_instruction_prefix s prefix =
    leb (length prefix) (length s) && equal_fold (take (length prefix) s) prefix

abbrev pub is_shell : Text → Bool
is_shell s = if has_prefix s (codes "/bin/sh -c") then true else has_prefix s (codes "/bin/bash -c")

-- What is left of `parseInstructionType` without the marker `#(nop)`.
unfoldable pub parse_direct : Text → Text
unfolding classify_instruction_word has_instruction_prefix
parse_direct s =
    let it = classify_instruction_word s in
    if has_instruction_prefix s (codes "RUN ")
    then instruction_run
    else if it == instruction_unknown
    then if is_shell s then instruction_run else instruction_unknown
    else it

unfoldable pub parse_instruction_type : Text → Text
unfolding parse_direct after_text
parse_instruction_type created_by =
    let s = trim_space created_by in
    if s == [] then instruction_unknown else elim (after_text s (codes "#(nop)")) [
      | some rest ↦ classify_instruction_word (trim_space rest)
      | none ↦ parse_direct s
    ]

-- What `applyRuntimeQuirks` does to `CreatedBy`.
unfoldable pub strip_created_by : Runtime → Text → Text
strip_created_by podman s =
    trim_space
      (trim_prefix (trim_space (trim_prefix s (codes "containers-storage:"))) (codes "buildah:"))
strip_created_by buildah s =
    trim_space
      (trim_prefix (trim_space (trim_prefix s (codes "containers-storage:"))) (codes "buildah:"))
strip_created_by build_kit s =
    trim_space (
      trim_prefix (trim_space (trim_prefix s (codes "buildkit:")))
        (codes "buildkit.dockerfile.v0:"))
strip_created_by docker s = s
strip_created_by kaniko s = s
strip_created_by jib s = s
strip_created_by ko s = s
strip_created_by unknown s = s

abbrev pub quirk_metadata : Runtime → Dict Text Text → Dict Text Text
quirk_metadata kaniko m = insert (codes "squashed") (codes "likely") m
quirk_metadata _ m = m

unfoldable pub apply_runtime_quirks : Runtime → NormalizedLayer → NormalizedLayer
unfolding strip_created_by
apply_runtime_quirks rt nl = record nl {
  created_by = strip_created_by rt nl.created_by;
  runtime_metadata = quirk_metadata rt nl.runtime_metadata;
}

-- The inner loop of `Normalize`: the next entry that made a layer, and what is left after it.
unfoldable pub next_entry : List History → Option History × List History
next_entry [] = (none, [])
next_entry (h ∷ hs) = if h.empty_layer then next_entry hs else (some h, hs)

abbrev pub size_of : Option ℕ → ℕ
size_of none = 0
size_of (some n) = n

-- A layer with the entry that is paired with it, before the quirks.
unfoldable pub pair_layer : ℕ → Layer → Option History → NormalizedLayer
unfolding parse_instruction_type
pair_layer i layer entry = record {
  index = i;
  digest = digest_text layer.digest;
  diff_id = digest_text layer.diff_id;
  size = size_of layer.size;
  created_by = elim entry [ none ↦ [] | some h ↦ h.created_by ];
  created = elim entry [ none ↦ [] | some h ↦ h.created ];
  comment = elim entry [ none ↦ [] | some h ↦ h.comment ];
  empty_layer = false;
  instruction_type = elim entry [
    | none ↦ instruction_unknown
    | some h ↦ parse_instruction_type h.created_by
  ];
  runtime_metadata = [];
}

-- The second parse, after the quirks.
unfoldable pub reparse : NormalizedLayer → NormalizedLayer
unfolding parse_instruction_type
reparse nl = record nl {
  instruction_type =
      if nl.instruction_type == instruction_unknown && not (nl.created_by == [])
      then parse_instruction_type nl.created_by
      else nl.instruction_type;
}

unfoldable pub normalize_layer : Runtime → ℕ → Layer → Option History → NormalizedLayer
unfolding pair_layer apply_runtime_quirks reparse
normalize_layer rt i layer entry = reparse (apply_runtime_quirks rt (pair_layer i layer entry))

unfoldable pub normalize_layers : Runtime → ℕ → List Layer → List History → List NormalizedLayer
unfolding normalize_layer next_entry
normalize_layers rt i [] hs = []
normalize_layers rt i (layer ∷ layers) hs =
    let (entry, rest) = next_entry hs in
    normalize_layer rt i layer entry ∷ normalize_layers rt (suc i) layers rest

-- Without a config `cf.History` is a nil dereference, which is an error of its own here.
unfoldable pub normalize : Runtime → Image → Result Text (List NormalizedLayer)
unfolding normalize_layers
normalize rt img = do
  cfg ← img.config_file
  layers ← img.layers
  elim cfg [
    | none ↦ err (codes "panic: nil config")
    | some cf ↦ ok (normalize_layers rt 0 layers cf.history)
  ]
