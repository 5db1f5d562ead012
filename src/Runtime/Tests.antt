-- ===== src/Runtime/Tests.antt =====
-- Instructions, an image that BuildKit made, and the theorems at it.
use astinus.Base.{◌≡◌, refl, List, [], ◌∷◌, map, Text, codes, text_eq, arith, ok, ==_iff}
use astinus.Base.Dict.{lookup}
use astinus.Base.Strings.{to_lower, to_upper, trim_space, cut_prefix}
use astinus.Layers.{Info, build_infos}
use astinus.Runtime.{
  build_kit, podman, docker, NormalizedLayer, parse_instruction_type, normalize_layers,
  strip_created_by, normalize,
}
use astinus.Runtime.Samples.{test_layers, test_config, test_image}
use astinus.Runtime.Detect.{detected, detect}
use astinus.Runtime.Laws.{summary, stripped, normalize-build_infos}

parse_instruction_type_examples :
    (parse_instruction_type (codes "/bin/sh -c #(nop) COPY file:a in /app") ≡ codes "COPY")
    × (parse_instruction_type (codes " run make ") ≡ codes "RUN")
    × (parse_instruction_type (codes "/bin/bash -c make") ≡ codes "RUN")
    × (parse_instruction_type (codes "RUNTIME x") ≡ codes "UNKNOWN")
    × (parse_instruction_type (codes "/bin/sh -c #(nop) CMD [sh]") ≡ codes "UNKNOWN")
unfolding parse_instruction_type trim_space to_upper to_lower
parse_instruction_type_examples = (refl, refl, refl, refl, refl)

strip_created_by_examples :
    (strip_created_by podman (codes "containers-storage: buildah: RUN x") ≡ codes "RUN x")
    × (strip_created_by build_kit (codes "buildkit.dockerfile.v0: COPY a b") ≡ codes "COPY a b")
    × (strip_created_by docker (codes "buildkit: x") ≡ codes "buildkit: x")
unfolding strip_created_by trim_space cut_prefix
strip_created_by_examples = (refl, refl, refl)

detect_example :
    detect test_image
    ≡ ok (
        detected build_kit
          (codes "config.Labels[moby.buildkit.frontend]")
          (codes "d")
          (codes "moby.buildkit.* label present"))
unfolding detect cut_prefix
detect_example = refl

normalize_example :
    map
      (λ (nl : NormalizedLayer). nl.instruction_type)
      (normalize_layers build_kit 0 test_layers test_config.history)
    ≡ codes "ADD" ∷ codes "COPY" ∷ codes "UNKNOWN" ∷ []
unfolding normalize_layers trim_space to_lower to_upper
normalize_example = refl

normalize-build_infos_example :
    (nls : List NormalizedLayer) × (infos : List Info) × (normalize build_kit test_image ≡ ok nls)
    × (build_infos test_image test_layers ≡ ok infos)
    × (map summary nls ≡ map (stripped build_kit) infos)
normalize-build_infos_example =
    normalize-build_infos build_kit test_image test_layers test_config refl refl

abbrev swapped : List (Text × Text)
swapped = (codes "moby.buildkit.frontend", codes "d") ∷ (codes "vendor", codes "x") ∷ []

swapped-same : (k : Text) → lookup k swapped ≡ lookup k test_config.labels
unfolding lookup
swapped-same k = grind (arith, ==_iff (codes "moby.buildkit.frontend") k, ==_iff (codes "vendor") k)
