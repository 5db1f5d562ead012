-- ===== src/Layers/Tests.antt =====
-- A small image, and the theorems at it.
use astinus.Base.{
  ℕ, ◌≡◌, refl, Bool, true, false, List, [], ◌∷◌, ◌++◌, map, none, some, Text, codes, text_eq,
  nat_eq, ok, All,
}
use astinus.Base.Dict.{lookup, insert, erase}
use astinus.Base.Strings.{cut_prefix, has_prefix}
use astinus.Base.Paths.{clean, base_of, dir_of, join}
use astinus.Layers.{
  Info, History, ConfigFile, Header, Layer, Image, FileMap, normalize_path, walk_headers,
  remove_prefix_from_prior_layers, infos_from, pair_history, build_infos, walk, lookup_path,
}
use astinus.Layers.Diff.{prefix_mode, Diff, layer_prefix, digests_match}
use astinus.Layers.Shown.{AreVisible, walk_files-visit_all}
use astinus.Layers.Files.{FileEntry, Visit, go_on, walk_files, visit_all}
use astinus.Layers.Visible.{write, mask, act_of, owners, lookup-walk_headers}
use astinus.Layers.Latest.{Keeps, Leaves, walk_headers-write}
use astinus.Layers.Range.{lookup_path-walk}

walking : Unit {0}
unfolding walk build_infos infos_from pair_history walk_headers layer_prefix digests_match
    lookup_path normalize_path clean base_of dir_of join cut_prefix lookup insert erase
    remove_prefix_from_prior_layers
walking = tt

abbrev file : Text → Header
file n = record { name = n; is_dir = false; is_regular = true; body = some [] }

normalize :
    (normalize_path (codes "/usr//bin/../lib/./x") ≡ codes "usr/lib/x")
    × (normalize_path (codes "./a\\b") ≡ codes "a/b")
    × (normalize_path (codes "../x") ≡ codes "../x")
    × (normalize_path (codes "/") ≡ [])
unfolding walking
normalize = (refl, refl, refl, refl)

abbrev bottom : List Header
bottom = file (codes "etc/a") ∷ file (codes "etc/b") ∷ file (codes "bin/sh") ∷ []

abbrev top : List Header
top =
    file (codes "etc/c")
    ∷ file (codes "etc/.wh..wh..opq")
    ∷ file (codes "bin/.wh.sh")
    ∷ file (codes "./etc/b")
    ∷ []

walk_two :
    walk_headers 1 (walk_headers 0 [] bottom) top ≡ (codes "etc/c", 1) ∷ (codes "etc/b", 1) ∷ []
unfolding walking
walk_two = refl

abbrev layer : Text → List Header → Layer
layer digest hdrs = record {
  digest = some digest;
  diff_id = none;
  size = none;
  uncompressed = ok (record { headers = hdrs; failure = none });
}

abbrev layers : List Layer
layers = layer (codes "sha256:a") bottom ∷ layer (codes "sha256:b") top ∷ []

abbrev history : Text → Bool → History
history by empty = record {
  created = [];
  created_by = by;
  author = [];
  comment = [];
  empty_layer = empty;
}

abbrev config : List History → ConfigFile
config hs = record { author = []; entrypoint = []; labels = []; history = hs }

abbrev image : Image
image = record {
  layers = ok layers;
  config_file = ok (
      some (
        config (
          history (codes "ADD rootfs") false
          ∷ history (codes "ENV a=b") true
          ∷ history (codes "COPY etc") false
          ∷ [])));
  annotations = none;
}

abbrev info : ℕ → Text → Text → Info
info i digest by = record { index = i; digest = digest; created_by = by; empty_layer = false }

abbrev mapped : FileMap
mapped = record {
  paths = (codes "etc/c", 1) ∷ (codes "etc/b", 1) ∷ [];
  layers =
      info 0 (codes "sha256:a") (codes "ADD rootfs")
      ∷ info 1 (codes "sha256:b") (codes "COPY etc")
      ∷ [];
}

walk-image : walk (λ _. none) image ≡ ok mapped
unfolding walking
walk-image = refl

lookup_path-walk_example :
    (i : Info) × (lookup_path mapped (codes "/etc/b") ≡ some i) × (i.index ≡ 1)
lookup_path-walk_example =
    lookup_path-walk (λ _. none) image mapped (codes "/etc/b") 1 walk-image (unfold walking in refl)

lookup-walk_headers_example :
    lookup (codes "etc/b") (walk_headers 1 [] top)
    ≡ owners 1 (codes "etc/b") (map act_of top) (lookup (codes "etc/b") [])
lookup-walk_headers_example = lookup-walk_headers 1 [] top (codes "etc/b") tt

abbrev opaque : Header
opaque = file (codes "etc/.wh..wh..opq")

walk_headers-write_example :
    lookup (codes "etc/c") (walk_headers 1 [] ([] ++ file (codes "etc/c") ∷ opaque ∷ [])) ≡ some 1
walk_headers-write_example =
    walk_headers-write 1 (codes "etc/c") [] [] (file (codes "etc/c")) (opaque ∷ []) tt writes kept
  where
    writes : act_of (file (codes "etc/c")) ≡ write (codes "etc/c")
    writes = unfold walking in refl

    kept : All (Keeps (codes "etc/c")) (map act_of (opaque ∷ []))
    kept = unfold walking in (tt, tt)

    masks : act_of opaque ≡ mask (codes "etc/")
    masks = unfold walking in refl

    covered : has_prefix (codes "etc/a") (codes "etc/") ≡ true
    covered = unfold walking in refl

    left : All (Leaves (codes "etc/a")) (map act_of (file (codes "etc/c") ∷ []))
    left = unfold walking in (refl, tt)

abbrev base_layers : List Layer
base_layers = layer (codes "sha256:a") [] ∷ []

abbrev base_image : Image
base_image = record { layers = ok base_layers; config_file = ok none; annotations = none }

abbrev prefixed : Diff
prefixed = record { mode = prefix_mode; base_prefix = 1; base_paths = [] }

abbrev collect : List Text → FileEntry → Visit (List Text)
collect seen e = go_on (e.path ∷ seen)

walk_files-visit_all_example :
    (es : List FileEntry) × AreVisible mapped 0 layers es
    × (visit_all collect [] es ≡ ok (codes "etc/b" ∷ codes "etc/c" ∷ []))
walk_files-visit_all_example =
    walk_files-visit_all collect (λ n. none) (λ n. none) (λ i j. none) image layers mapped []
      (codes "etc/b" ∷ codes "etc/c" ∷ []) refl (unfold walking in refl)
      (unfold walking walk_files in refl)
