-- ===== src/Runtime/Samples.antt =====
-- An image that BuildKit made, for the tests.
use astinus.Base.{Bool, true, false, List, [], ◌∷◌, none, some, Text, codes, ok}
use astinus.Layers.{History, Layer, ConfigFile, Image}

abbrev pub test_layer : Text → Layer
test_layer digest = record {
  digest = some digest;
  diff_id = none;
  size = some 10;
  uncompressed = ok (record { headers = []; failure = none });
}

abbrev pub test_history : Text → Bool → History
test_history by empty = record {
  created = [];
  created_by = by;
  author = [];
  comment = [];
  empty_layer = empty;
}

abbrev pub test_config : ConfigFile
test_config = record {
  author = [];
  entrypoint = [];
  labels = (codes "vendor", codes "x") ∷ (codes "moby.buildkit.frontend", codes "d") ∷ [];
  history =
      test_history (codes "buildkit: ADD rootfs") false
      ∷ test_history (codes "ENV a=b") true
      ∷ test_history (codes "COPY a b") false
      ∷ [];
}

abbrev pub test_layers : List Layer
test_layers = test_layer (codes "sha256:a") ∷ test_layer (codes "sha256:b") ∷ test_layer [] ∷ []

abbrev pub test_image : Image
test_image = record {
  layers = ok test_layers;
  config_file = ok (some test_config);
  annotations = none;
}
