-- ===== src/BaseDiff/Tests.antt =====
-- An image on a base of one layer, the enricher on it, and the theorems at it.
use astinus.Base.{
  ℕ, ◌≡◌, refl, true, false, List, [], ◌∷◌, Option, none, some, Text, codes, text_eq, nat_eq, ok,
  Pairwise,
}
use astinus.Base.Strings.{cut_prefix}
use astinus.Base.Paths.{clean, base_of, dir_of, join}
use astinus.Base.Dict.{lookup, insert}
use astinus.Model.{LayerInfo, ComponentFields, nil, cons, Sbom}
use astinus.Model.Samples.{bare, leaf, sbom_of}
use astinus.Model.Walk.{walk_components, all_components}
use astinus.Layers.{Header, Layer, ConfigFile, Image, FileMap, normalize_path, walk, lookup_path}
use astinus.Layers.Diff.{prefix_mode, Diff, digest_at, compute_diff, is_base_layer}
use astinus.Layers.Files.{walk_files, visible_files}
use astinus.ContentHash.{find_evidence, add, new_base_set, has_path}
use astinus.ContentHash.Scan.{max_file_bytes, build_base_set, scan_target, hashed_files, record_all}
use astinus.Runtime.Samples.{test_layer, test_config}
use astinus.BaseDiff.Reference.{mode_auto, Options, detect_from_labels}
use astinus.BaseDiff.Classify.{paths_for_component}
use astinus.BaseDiff.Stamp.{origin_for}
use astinus.BaseDiff.Run.{World, run_content_strategy, enrich}
use astinus.BaseDiff.Content.{content_origin, run_content_strategy-origin}
use astinus.BaseDiff.Known.{AllPlaced, NamesStrategy, enrich-IsFinished}
use astinus.BaseDiff.Digests.{origin_for-digest}

running : Unit {0}
unfolding enrich walk lookup_path normalize_path clean base_of dir_of join cut_prefix lookup insert
    compute_diff detect_from_labels origin_for
running = tt

abbrev file : Text → Text → Header
file name body = record { name = name; is_dir = false; is_regular = true; body = some body }

abbrev holding : Text → List Header → Layer
holding digest hdrs = record (test_layer digest) {
  uncompressed = ok (record { headers = hdrs; failure = none });
}

abbrev base_layers : List Layer
base_layers = holding (codes "sha256:a") (file (codes "bin/sh") (codes "ab") ∷ []) ∷ []

abbrev target_layers : List Layer
target_layers =
    holding (codes "sha256:a") (file (codes "bin/sh") (codes "ab") ∷ [])
    ∷ holding (codes "sha256:b") (file (codes "app") (codes "cd") ∷ [])
    ∷ []

abbrev labelled : ConfigFile
labelled = record test_config {
  labels =
      (codes "org.opencontainers.image.base.name", codes "alpine")
      ∷ (codes "org.opencontainers.image.base.digest", codes "sha256:f")
      ∷ [];
  history = [];
}

abbrev base_image : Image
base_image = record { layers = ok base_layers; config_file = ok none; annotations = none }

abbrev target_image : Image
target_image = record {
  layers = ok target_layers;
  config_file = ok (some labelled);
  annotations = none;
}

detect_from_labels_example : detect_from_labels (some labelled) ≡ codes "alpine@sha256:f"
unfolding running
detect_from_labels_example = refl

abbrev never : ℕ → Option Text
never n = none

abbrev world : World
world = record {
  open_image = λ ref. ok base_image;
  sha256 = λ s. s;
  filter_bits = 64;
  filter_hashes = 1;
  base_walk = never;
  base_layers = never;
  base_entries = λ i j. none;
  target_walk = never;
  target_layers = never;
  target_entries = λ i j. none;
  diff_walk = never;
}

abbrev located : Text → Text → ComponentFields
located ref path = record (bare ref) { properties = (codes "syft:location:0:path", path) ∷ [] }

abbrev sbom : Sbom
sbom = sbom_of (
    record {
      fields = located (codes "sh") (codes "/bin/sh");
      sub_components = cons (located (codes "app") (codes "/app")) nil nil;
    }
    ∷ leaf (bare (codes "bare"))
    ∷ [])

abbrev auto : Options
auto = record { mode = mode_auto; reference = [] }

enrich-IsFinished_example :
    AllPlaced (enrich world auto target_image sbom)
    × NamesStrategy world auto target_image sbom (enrich world auto target_image sbom)
enrich-IsFinished_example = enrich-IsFinished world auto target_image sbom refl

abbrev base_map : FileMap
base_map = record {
  paths = (codes "bin/sh", 0) ∷ [];
  layers =
      record { index = 0; digest = codes "sha256:a"; created_by = []; empty_layer = false } ∷ [];
}

abbrev target_map : FileMap
target_map = record {
  paths = (codes "bin/sh", 0) ∷ (codes "app", 1) ∷ [];
  layers =
      record { index = 0; digest = codes "sha256:a"; created_by = []; empty_layer = false }
      ∷ record { index = 1; digest = codes "sha256:b"; created_by = []; empty_layer = false }
      ∷ [];
}

abbrev shell_info : LayerInfo
shell_info = record {
  layer_digest = codes "sha256:a";
  layer_index = 0;
  dockerfile_line = [];
  added_by = [];
}

abbrev prefixed : Diff
prefixed = record { mode = prefix_mode; base_prefix = 1; base_paths = [] }

origin_for-digest_example : digest_at base_layers 0 ≡ some (codes "sha256:a")
origin_for-digest_example =
    origin_for-digest never target_image base_image target_layers base_layers prefixed target_map
      (record (bare (codes "sh")) { layer_info = some shell_info }) shell_info
      (record { path = codes "/bin/sh"; line_no = 0 } ∷ []) refl refl (unfold running in refl) refl
      refl (codes "/bin/sh", refl, unfold running in refl, (_, refl, refl))
      (unfold running is_base_layer in refl)

scanning : Unit {0}
unfolding run_content_strategy max_file_bytes build_base_set walk_files scan_target walk_components
    find_evidence add new_base_set has_path
scanning = tt

abbrev after : Sbom
after = sbom_of (
    record {
      fields = record (bare (codes "sh")) {
        origin = codes "base";
        properties =
            (codes "syft:location:0:path", codes "/bin/sh")
            ∷ (codes "astinus:basediff:matched-base-path", codes "bin/sh")
            ∷ [];
      };
      sub_components =
          cons (record (located (codes "app") (codes "/app")) { origin = codes "app" }) nil nil;
    }
    ∷ leaf (record (bare (codes "bare")) { origin = codes "unknown" })
    ∷ [])

run_content_strategy-origin_example :
    Pairwise
      (λ c c'.
        c'.origin
        ≡ content_origin
            (hashed_files world.sha256 (visible_files base_map 0 base_layers))
            (record_all world.sha256 []
              (hashed_files world.sha256 (visible_files target_map 0 target_layers)))
            (paths_for_component c))
      (all_components sbom.components)
      (all_components after.components)
run_content_strategy-origin_example =
    run_content_strategy-origin world target_image base_image sbom after target_layers base_layers
      target_map base_map refl refl (unfold running in refl) (unfold running in refl)
      (unfold running scanning in refl)
