-- ===== src/Attribution/Tests.antt =====
-- An image of two layers, three components, and the theorem at them.
use astinus.Base.{◌≡◌, refl, true, false, List, [], ◌∷◌, none, some, Text, codes, ok, Pairwise}
use astinus.Base.Sort.{text_less, sort_stable}
use astinus.Base.Strings.{cut_prefix}
use astinus.Base.Paths.{clean, base_of, dir_of, join}
use astinus.Base.Dict.{lookup, insert}
use astinus.Model.{ComponentFields, nil, cons, Sbom}
use astinus.Model.Samples.{bare, leaf, sbom_of}
use astinus.Model.Walk.{all_components}
use astinus.Layers.{Info, Layer, Image, FileMap, normalize_path, walk, lookup_path}
use astinus.Runtime.{docker, build_kit}
use astinus.Runtime.Samples.{test_layer, test_image}
use astinus.Attribution.{confidence_none, determine_confidence, evidence_summary, Bundle, enrich}
use astinus.Attribution.Laws.{IsAttributed, enrich-IsAttributed}

walking : Unit {0}
unfolding enrich walk lookup_path normalize_path clean base_of dir_of join cut_prefix lookup insert
walking = tt

confidence_examples :
    ((determine_confidence [] docker none).0 ≡ confidence_none)
    × ((determine_confidence [] docker (some true)).0 ≡ codes "high")
unfolding determine_confidence
confidence_examples = (refl, refl)

evidence_summary_example :
    evidence_summary
      (λ s. s)
      (record { field = codes "b"; value = codes "1"; reason = codes "x" }
        ∷ record { field = codes "a"; value = codes "2"; reason = codes "y" }
        ∷ [])
    ≡ codes "a=2 (y); b=1 (x)"
unfolding evidence_summary sort_stable text_less
evidence_summary_example = refl

abbrev pub wrote : Text → Layer → Layer
wrote path layer = record layer {
  uncompressed = ok (record {
    headers = record { name = path; is_dir = false; is_regular = true; body = some [] } ∷ [];
    failure = none;
  });
}

abbrev lyrs : List Layer
lyrs =
    wrote (codes "usr/bin/foo") (test_layer (codes "sha256:a"))
    ∷ wrote (codes "./opt/jq") (test_layer (codes "sha256:b"))
    ∷ []

abbrev image : Image
image = record test_image { layers = ok lyrs }

abbrev bundle : Bundle
bundle = record { image = image; runtime = some build_kit; runtime_evidence = [] }

abbrev located : Text → Text → ComponentFields
located ref path = record (bare ref) {
  evidence = some (record {
    method = [];
    confidence = 0;
    locations = record { path = path; line_no = 0 } ∷ [];
  });
}

abbrev sbom : Sbom
sbom = sbom_of (
    record {
      fields = located (codes "jq") (codes "/opt/jq");
      sub_components = cons (located (codes "gone") (codes "/gone")) nil nil;
    }
    ∷ leaf (bare (codes "bare"))
    ∷ [])

abbrev infos : List Info
infos =
    record {
      index = 0;
      digest = codes "sha256:a";
      created_by = codes "buildkit: ADD rootfs";
      empty_layer = false;
    }
    ∷ record {
      index = 1;
      digest = codes "sha256:b";
      created_by = codes "COPY a b";
      empty_layer = false;
    }
    ∷ []

abbrev mapped : FileMap
mapped = record { paths = (codes "usr/bin/foo", 0) ∷ (codes "opt/jq", 1) ∷ []; layers = infos }

enrich-IsAttributed_example :
    (after : Sbom) × (enrich (λ n. none) (λ s. s) none bundle sbom ≡ ok after)
    × Pairwise
        (IsAttributed lyrs mapped)
        (all_components sbom.components)
        (all_components after.components)
enrich-IsAttributed_example =
    enrich-IsAttributed (λ n. none) (λ s. s) none bundle sbom lyrs mapped refl
      (unfold walking in refl)
