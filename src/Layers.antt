-- ===== src/Layers.antt =====
-- internal/image/layer/walker.go: the map from each path to the last layer that wrote it. An image is
-- what go-containerregistry reads: layers with a digest, if it can be read, and a tar stream, the image
-- config with its history, and the annotations of the manifest, if it can be read. The context's error is a function of the number of layers walked.
pub mod Diff
pub mod Laws
pub mod Visible
pub mod Latest
pub mod Range
pub mod Digests
pub mod Files
pub mod Shown
mod Tests
use astinus.Base.{
  ℕ, zero, suc, ◌≡◌, refl, Bool, true, false, ◌&&◌, ◌||◌, not, List, [], ◌∷◌, ◌++◌, map, Option,
  none, some, ltb, Text, codes, text_eq, nat_eq, ◌==◌, if◌then◌else◌, length, Result, ok, err,
  ◌>>=◌,
}
use astinus.Base.Dict.{Dict, lookup, insert, erase}
use astinus.Base.Strings.{has_prefix, trim_prefix}
use astinus.Base.Paths.{clean, base_of, dir_of, join}

pub record Info : Type 0 where
  pub index : ℕ
  pub digest : Text
  pub created_by : Text
  pub empty_layer : Bool

pub record History : Type 0 where
  pub created : Text
  pub created_by : Text
  pub author : Text
  pub comment : Text
  pub empty_layer : Bool

-- What the source reads of the image config; `entrypoint` and `labels` are of its `Config`.
pub record ConfigFile : Type 0 where
  pub author : Text
  pub entrypoint : List Text
  pub labels : Dict Text Text
  pub history : List History

-- A tar entry; no body where reading it fails.
pub record Header : Type 0 where
  pub name : Text
  pub is_dir : Bool
  pub is_regular : Bool
  pub body : Option Text

-- The headers that a stream yields, and the error after them where it does not end with EOF.
pub record Tar : Type 0 where
  pub headers : List Header
  pub failure : Option Text

pub record Layer : Type 0 where
  pub digest : Option Text
  pub diff_id : Option Text
  pub size : Option ℕ
  pub uncompressed : Result Text Tar

pub record Image : Type 0 where
  pub layers : Result Text (List Layer)
  pub config_file : Result Text (Option ConfigFile)
  pub annotations : Option (Dict Text Text)

pub record FileMap : Type 0 where
  pub paths : Dict Text ℕ
  pub layers : List Info

abbrev pub slash_of : ℕ → ℕ
slash_of c = if c == b'\\' then b'/' else c

-- `normalizePath`
unfoldable pub normalize_path : Text → Text
unfolding clean
normalize_path p =
    let cleaned = clean (trim_prefix (trim_prefix (map slash_of p) (codes "./")) (codes "/")) in
    if p == [] || p == codes "."
    then []
    else if cleaned == codes "." || cleaned == codes "/"
    then []
    else trim_prefix cleaned (codes "/")

-- `removePrefixFromPriorLayers`
unfoldable pub remove_prefix_from_prior_layers : Dict Text ℕ → Text → ℕ → Dict Text ℕ
remove_prefix_from_prior_layers [] prefix current = []
remove_prefix_from_prior_layers ((k, idx) ∷ paths) prefix current =
    let rest = remove_prefix_from_prior_layers paths prefix current in
    if ltb idx current && has_prefix k prefix then rest else (k, idx) ∷ rest

abbrev pub whiteout_prefix : Text
whiteout_prefix = codes ".wh."

abbrev pub opaque_marker : Text
opaque_marker = codes ".wh..wh..opq"

-- The body of the loop of `walkLayer`, by the base and the directory of the header's name.
unfoldable pub walk_entry : ℕ → Dict Text ℕ → Text → Text → Text → Bool → Dict Text ℕ
unfolding remove_prefix_from_prior_layers normalize_path
walk_entry i paths name base dir is_dir =
    if base == opaque_marker
    then remove_prefix_from_prior_layers paths (dir ++ (b'/' ∷ [])) i
    else if has_prefix base whiteout_prefix
    then erase (normalize_path (join dir (trim_prefix base whiteout_prefix))) paths
    else if is_dir
    then paths
    else insert name i paths

unfoldable pub walk_header : ℕ → Dict Text ℕ → Header → Dict Text ℕ
unfolding walk_entry
walk_header i paths hdr =
    let name = normalize_path hdr.name in
    if name == [] then paths else walk_entry i paths name (base_of name) (dir_of name) hdr.is_dir

unfoldable pub walk_headers : ℕ → Dict Text ℕ → List Header → Dict Text ℕ
unfolding walk_header
walk_headers i paths [] = paths
walk_headers i paths (hdr ∷ hdrs) = walk_headers i (walk_header i paths hdr) hdrs

-- `walkLayer`; what an error leaves in the map is dropped by `Walk`.
unfoldable pub walk_layer : ℕ → Layer → Dict Text ℕ → Result Text (Dict Text ℕ)
unfolding walk_headers
walk_layer i lyr paths = do
  tar ← lyr.uncompressed
  elim tar.failure [ some e ↦ err e | none ↦ ok (walk_headers i paths tar.headers) ]

unfoldable pub walk_layers :
    (ℕ → Option Text) → ℕ → List Layer → Dict Text ℕ → Result Text (Dict Text ℕ)
unfolding walk_layer
walk_layers ctx i [] paths = ok paths
walk_layers ctx i (lyr ∷ lyrs) paths = elim (ctx i) [
  | some e ↦ err e
  | none ↦ walk_layer i lyr paths >>= walk_layers ctx (suc i) lyrs
]

abbrev pub digest_text : Option Text → Text
digest_text none = []
digest_text (some d) = d

-- The first loop of `buildInfos`.
unfoldable pub infos_from : ℕ → List Layer → List Info
infos_from i [] = []
infos_from i (lyr ∷ lyrs) =
    record { index = i; digest = digest_text lyr.digest; created_by = []; empty_layer = false }
    ∷ infos_from (suc i) lyrs

-- The second: the infos from the history cursor on take the entries that made a layer.
unfoldable pub pair_history : List Info → List History → List Info
pair_history infos [] = infos
pair_history [] (h ∷ hs) = if h.empty_layer then pair_history [] hs else []
pair_history (i ∷ infos) (h ∷ hs) =
    let skipped = pair_history (i ∷ infos) hs in
    let stepped = pair_history infos hs in
    if h.empty_layer
    then skipped
    else record i { created_by = h.created_by; empty_layer = false } ∷ stepped

unfoldable pub build_infos : Image → List Layer → Result Text (List Info)
unfolding infos_from pair_history
build_infos img lyrs = do
  cfg ← img.config_file
  elim cfg [
    | none ↦ ok (infos_from 0 lyrs)
    | some cf ↦ ok (pair_history (infos_from 0 lyrs) cf.history)
  ]

unfoldable pub walk : (ℕ → Option Text) → Image → Result Text FileMap
unfolding build_infos walk_layers
walk ctx img = do
  lyrs ← img.layers
  descs ← build_infos img lyrs
  paths ← walk_layers ctx 0 lyrs []
  ok (record { paths = paths; layers = descs })

-- `layers[idx]` where it is in range.
unfoldable pub at : List Info → ℕ → Option Info
at [] n = none
at (i ∷ infos) zero = some i
at (i ∷ infos) (suc n) = at infos n

-- `Lookup`, its boolean as an option.
unfoldable pub lookup_path : FileMap → Text → Option Info
unfolding at
lookup_path m p = elim (lookup (normalize_path p) m.paths) [
  | none ↦ none
  | some idx ↦ at m.layers idx
]
