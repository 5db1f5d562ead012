-- ===== src/Runtime/Labels.antt =====
-- internal/image/runtime/detect.go: Go ranges over the labels in any order, and the runtime that the
-- detectors find does not depend on it.
use astinus.Base.{
  ◌≡◌, refl, ap, inl, inr, Bool, true, false, List, [], ◌∷◌, Option, none, some, arith, Text, codes,
  text_eq, nat_eq, ◌==◌, ==_iff, if◌then◌else◌, Option-cases, Result, ok, err, or_else,
}
use astinus.Base.Dict.{Dict, lookup}
use astinus.Layers.{Layer, ConfigFile, Image}
use astinus.Runtime.{Runtime, build_kit, jib, ko}
use astinus.Runtime.Detect.{
  Detection, find_label, by_label, is_buildkit_label, detect_buildkit, builder_label, by_builder,
  by_squash, author_detection, detect_kaniko, is_jib_label, detect_jib, is_ko_label, by_entrypoint,
  detect_ko, detect_from_config, detect, or_docker,
}

-- Two lists of entries that stand for one map.
abbrev pub SameMap : Dict Text Text → Dict Text Text → Type 0
SameMap d e = (k : Text) → lookup k d ≡ lookup k e

find_label-none :
    (p : Text → Bool) (d : Dict Text Text) (k : Text)
    → find_label p d ≡ none
    → p k ≡ true
    → lookup k d ≡ none
unfolding find_label lookup
find_label-none p [] k h q = refl
find_label-none p ((j, v) ∷ d) k h q = ground (arith, find_label-none p d k, ==_iff j k)

find_label-some :
    (p : Text → Bool) (d : Dict Text Text) (k v : Text)
    → find_label p d ≡ some (k, v)
    → (p k ≡ true) × (lookup k d ≡ some v)
unfolding find_label lookup
find_label-some p [] k v h = absurd (cc h)
find_label-some p ((j, w) ∷ d) k v h = grind (arith, find_label-some p d k v, ==_iff j k)

passes : Option (Text × Text) → Bool
passes none = false
passes (some kv) = true

passes-find_label :
    (p : Text → Bool) (d e : Dict Text Text)
    → SameMap d e
    → passes (find_label p d) ≡ passes (find_label p e)
unfolding passes
passes-find_label p d e same = elim (Option-cases (find_label p d)) [
  | inl missing ↦ elim (Option-cases (find_label p e)) [
    | inl missing' ↦ rw (missing, missing') refl
    | inr ((k, v), found') ↦
        let (q, here) = find_label-some p e k v found' in
        absurd (cc (same k, find_label-none p d k missing q, here))
  ]
  | inr ((k, v), found) ↦ elim (Option-cases (find_label p e)) [
    | inl missing' ↦
        let (q, here) = find_label-some p d k v found in
        absurd (cc (same k, find_label-none p e k missing' q, here))
    | inr (kv', found') ↦ rw (found, found') refl
  ]
]

-- The runtime of a detection, if there is one.
abbrev pub runtime_of : Option Detection → Option Runtime
runtime_of none = none
runtime_of (some d) = some d.0

runtime_of-or_else :
    (a a' b b' : Option Detection)
    → runtime_of a ≡ runtime_of a'
    → runtime_of b ≡ runtime_of b'
    → runtime_of (or_else a b) ≡ runtime_of (or_else a' b')
runtime_of-or_else none none b b' h k = k
runtime_of-or_else none (some d) b b' h k = absurd (cc h)
runtime_of-or_else (some d) none b b' h k = absurd (cc h)
runtime_of-or_else (some d) (some d') b b' h k = h

runtime_of-by_label :
    (rt : Runtime) (reason : Text) (p : Text → Bool) (cf : ConfigFile)
    → runtime_of (by_label rt reason p cf)
      ≡ (if passes (find_label p cf.labels) then some rt else none)
unfolding by_label passes
runtime_of-by_label rt reason p cf = elim (Option-cases (find_label p cf.labels)) [
  | inl missing ↦ rw (missing, by_label) refl
  | inr (kv, found) ↦ rw (found, by_label) refl
]

-- A config whose labels are listed otherwise.
abbrev relabelled : ConfigFile → Dict Text Text → ConfigFile
relabelled cf labels = record cf { labels = labels }

module _ (cf : ConfigFile) (labels : Dict Text Text) (same : SameMap labels cf.labels) where
  by_label-relabelled :
      (rt : Runtime) (reason : Text) (p : Text → Bool)
      → runtime_of (by_label rt reason p (relabelled cf labels))
        ≡ runtime_of (by_label rt reason p cf)
  by_label-relabelled rt reason p =
      rw
        (
          runtime_of-by_label rt reason p (relabelled cf labels),
          runtime_of-by_label rt reason p cf,
          passes-find_label p labels cf.labels same,
        )
        refl

  by_builder-relabelled : by_builder (relabelled cf labels) ≡ by_builder cf
  unfolding by_builder lookup
  by_builder-relabelled = rw (same builder_label) refl

  by_squash-relabelled :
      (layers : Result Text (List Layer))
      → by_squash layers (relabelled cf labels) ≡ by_squash layers cf
  unfolding by_squash
  by_squash-relabelled (ok layers) = refl
  by_squash-relabelled (err e) = refl

  detect_kaniko-relabelled :
      (layers : Result Text (List Layer))
      → detect_kaniko layers (relabelled cf labels) ≡ detect_kaniko layers cf
  unfolding detect_kaniko
  detect_kaniko-relabelled layers =
      ap (λ later. if cf.author == codes "Kaniko" then some (author_detection cf) else later)
        (cc (by_builder-relabelled, by_squash-relabelled layers))

  detect_jib-relabelled :
      runtime_of (detect_jib (relabelled cf labels)) ≡ runtime_of (detect_jib cf)
  unfolding detect_jib
  detect_jib-relabelled = runtime_of-or_else _ _ _ _ (by_label-relabelled jib _ is_jib_label) refl

  by_entrypoint-relabelled : by_entrypoint (relabelled cf labels) ≡ by_entrypoint cf
  unfolding by_entrypoint lookup
  by_entrypoint-relabelled = rw (same (codes "org.opencontainers.image.source")) refl

  detect_ko-relabelled : runtime_of (detect_ko (relabelled cf labels)) ≡ runtime_of (detect_ko cf)
  unfolding detect_ko
  detect_ko-relabelled =
      runtime_of-or_else _ _ _ _ (by_label-relabelled ko _ is_ko_label)
        (ap runtime_of by_entrypoint-relabelled)

  detect_from_config-relabelled :
      (layers : Result Text (List Layer))
      → runtime_of (detect_from_config layers (relabelled cf labels))
        ≡ runtime_of (detect_from_config layers cf)
  unfolding detect_from_config
  detect_from_config-relabelled layers =
      runtime_of-or_else _ _ _ _ (ap runtime_of (detect_kaniko-relabelled layers)) (
        runtime_of-or_else _ _ _ _ detect_jib-relabelled
          (runtime_of-or_else _ _ _ _ detect_ko-relabelled refl))

  detect_buildkit-relabelled :
      (mf : Option (Dict Text Text))
      → runtime_of (detect_buildkit (some (relabelled cf labels)) mf)
        ≡ runtime_of (detect_buildkit (some cf) mf)
  unfolding detect_buildkit
  detect_buildkit-relabelled mf =
      runtime_of-or_else _ _ _ _ refl
        (runtime_of-or_else _ _ _ _ (by_label-relabelled build_kit _ is_buildkit_label) refl)

-- The runtime that `Detect` finds, where it returns one.
abbrev pub runtime_found : Result Text Detection → Option Runtime
runtime_found (ok d) = some d.0
runtime_found (err e) = none

or_docker-runtime :
    (a b : Option Detection)
    → runtime_of a ≡ runtime_of b
    → runtime_found (ok (or_docker a)) ≡ runtime_found (ok (or_docker b))
or_docker-runtime none none h = refl
or_docker-runtime none (some d) h = absurd (cc h)
or_docker-runtime (some d) none h = absurd (cc h)
or_docker-runtime (some d) (some d') h = h

-- Of an image with a config, `Detect` finds the same runtime in whatever order the config's labels
-- are listed: a list of labels in which every key has the value that it has in the config.
pub detect-relabelled :
    (img : Image) (cf : ConfigFile) (labels : Dict Text Text)
    → SameMap labels cf.labels
    → runtime_found (detect (record img { config_file = ok (some (relabelled cf labels)) }))
      ≡ runtime_found (detect (record img { config_file = ok (some cf) }))
unfolding detect
detect-relabelled img cf labels same = or_docker-runtime _ _ (
    runtime_of-or_else _ _ _ _ (detect_buildkit-relabelled cf labels same img.annotations)
      (detect_from_config-relabelled cf labels same img.layers))
