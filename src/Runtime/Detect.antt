-- ===== src/Runtime/Detect.antt =====
-- internal/image/runtime/detect.go: the build tool of an image, by what it left in the config. The
-- source ranges over the labels in any order, and the model in the list's.
use astinus.Base.{
  ℕ, suc, Bool, true, false, ◌&&◌, ◌||◌, List, [], ◌∷◌, ◌++◌, Option, none, some, leb, Text, codes,
  text_eq, nat_eq, ◌==◌, if◌then◌else◌, length, Result, ok, err, ◌>>=◌, or_else,
}
use astinus.Base.Dict.{Dict, lookup}
use astinus.Base.Decimal.{format_nat}
use astinus.Base.Strings.{to_lower, equal_fold, has_prefix, contains_text}
use astinus.Layers.{History, Layer, ConfigFile, Image}
use astinus.Runtime.{Runtime, docker, build_kit, podman, buildah, kaniko, jib, ko}

pub record DetectionEvidence : Type 0 where
  pub field : Text
  pub value : Text
  pub reason : Text

abbrev pub Detection : Type 0
Detection = Runtime × List DetectionEvidence

abbrev pub detected : Runtime → Text → Text → Text → Detection
detected rt field value reason = (rt, record { field = field; value = value; reason = reason } ∷ [])

abbrev pub label_field : Text → Text
label_field k = codes "config.Labels[" ++ (k ++ codes "]")

abbrev pub history_field : ℕ → Text → Text
history_field i name = codes "history[" ++ (format_nat i ++ (codes "]." ++ name))

-- The loops over the labels: the first key that passes the test.
unfoldable pub find_label : (Text → Bool) → Dict Text Text → Option (Text × Text)
find_label p [] = none
find_label p ((k, v) ∷ labels) = let rest = find_label p labels in if p k then some (k, v) else rest

unfoldable pub by_label : Runtime → Text → (Text → Bool) → ConfigFile → Option Detection
unfolding find_label
by_label rt reason p cf = elim (find_label p cf.labels) [
  | none ↦ none
  | some found ↦ some (detected rt (label_field found.0) found.1 reason)
]

abbrev pub reference_type : Text
reference_type = codes "vnd.docker.reference.type"

unfoldable pub by_annotation : Option (Dict Text Text) → Option Detection
by_annotation none = none
by_annotation (some annotations) = elim (lookup reference_type annotations) [
  | none ↦ none
  | some v ↦
      if v == codes "attestation-manifest"
      then some (
          detected build_kit (codes "manifest.annotations[vnd.docker.reference.type]") v
            (codes "image is a BuildKit attestation manifest"))
      else none
]

unfoldable pub by_frontend : ℕ → List History → Option Detection
by_frontend i [] = none
by_frontend i (h ∷ hs) =
    let rest = by_frontend (suc i) hs in
    if contains_text h.created_by (codes "buildkit.dockerfile.v")
    then some (
        detected build_kit (history_field i (codes "CreatedBy")) h.created_by
          (codes "history mentions buildkit.dockerfile frontend"))
    else rest

abbrev pub is_buildkit_label : Text → Bool
is_buildkit_label k = has_prefix k (codes "moby.buildkit")

unfoldable pub detect_buildkit : Option ConfigFile → Option (Dict Text Text) → Option Detection
unfolding by_annotation by_label by_frontend
detect_buildkit none mf = by_annotation mf
detect_buildkit (some cf) mf = or_else (by_annotation mf) (
    or_else (by_label build_kit (codes "moby.buildkit.* label present") is_buildkit_label cf)
      (by_frontend 0 cf.history))

abbrev pub builder_label : Text
builder_label = codes "org.opencontainers.image.builder"

unfoldable pub by_builder : ConfigFile → Option Detection
by_builder cf = elim (lookup builder_label cf.labels) [
  | none ↦ none
  | some v ↦
      if contains_text (to_lower v) (codes "kaniko")
      then some (
          detected kaniko (label_field builder_label) v
            (codes "OCI image.builder label names Kaniko"))
      else none
]

unfoldable pub by_squash : Result Text (List Layer) → ConfigFile → Option Detection
by_squash (err e) cf = none
by_squash (ok layers) cf =
    if leb 5 (length cf.history) && leb (length layers) 2
    then some (
        detected kaniko (codes "heuristic.squash")
          (codes "history="
            ++ (format_nat (length cf.history) ++ (codes " layers=" ++ format_nat (length layers))))
          (codes "many history entries but few layers (Kaniko or `docker build --squash`)"))
    else none

abbrev pub author_detection : ConfigFile → Detection
author_detection cf =
    detected kaniko (codes "config.Author") cf.author
      (codes "Kaniko sets the Author field to its own name")

unfoldable pub detect_kaniko : Result Text (List Layer) → ConfigFile → Option Detection
unfolding by_builder by_squash
detect_kaniko layers cf =
    let later = or_else (by_builder cf) (by_squash layers cf) in
    if cf.author == codes "Kaniko" then some (author_detection cf) else later

abbrev pub is_jib_label : Text → Bool
is_jib_label k =
    has_prefix k (codes "jib.image.") || has_prefix k (codes "com.google.cloud.tools.jib")

abbrev pub jib_layer_names : List Text
jib_layer_names = codes "dependencies" ∷ codes "resources" ∷ codes "classes" ∷ []

unfoldable pub names_jib_layer : List Text → History → Bool
names_jib_layer [] h = false
names_jib_layer (name ∷ names) h =
    let rest = names_jib_layer names h in
    if contains_text h.created_by (codes "jib-" ++ name)
    then true
    else if contains_text h.comment (codes "jib-" ++ name)
    then true
    else rest

unfoldable pub jib_hits : List History → ℕ
unfolding names_jib_layer
jib_hits [] = 0
jib_hits (h ∷ hs) =
    let rest = jib_hits hs in if names_jib_layer jib_layer_names h then suc rest else rest

unfoldable pub detect_jib : ConfigFile → Option Detection
unfolding by_label jib_hits
detect_jib cf =
    let hits = jib_hits cf.history in
    or_else (by_label jib (codes "Jib-specific label present") is_jib_label cf) (
      if leb 2 hits
      then some (
          detected jib (codes "history.CreatedBy")
            (codes "matched " ++ (format_nat hits ++ codes " Jib layer markers"))
            (codes "history names Jib's canonical layer kinds"))
      else none)

abbrev pub is_ko_label : Text → Bool
is_ko_label k = has_prefix k (codes "ko.build.") || k == codes "dev.ko.build"

unfoldable pub has_ko_app : List Text → Bool
has_ko_app [] = false
has_ko_app (cmd ∷ cmds) =
    let rest = has_ko_app cmds in if has_prefix cmd (codes "/ko-app/") then true else rest

unfoldable pub by_entrypoint : ConfigFile → Option Detection
unfolding has_ko_app
by_entrypoint cf = elim (lookup (codes "org.opencontainers.image.source") cf.labels) [
  | none ↦ none
  | some source ↦
      if has_ko_app cf.entrypoint
      then some (
          detected ko (codes "config.Entrypoint+config.Labels")
            (codes "entrypoint=/ko-app/* source=" ++ source)
            (codes "Ko's canonical /ko-app entrypoint plus image.source label"))
      else none
]

unfoldable pub detect_ko : ConfigFile → Option Detection
unfolding by_label by_entrypoint
detect_ko cf =
    or_else (by_label ko (codes "ko.build.* label present") is_ko_label cf) (by_entrypoint cf)

-- The body of the loop over the history in the detector of Podman and Buildah.
unfoldable pub by_entry : ℕ → History → Option Detection
by_entry i h =
    let lower = to_lower h.created_by in
    let field = history_field i (codes "CreatedBy") in
    if equal_fold h.author (codes "buildah")
    then some (
        detected buildah (history_field i (codes "Author")) h.author
          (codes "Buildah stamps its name into history.Author"))
    else if contains_text lower (codes "/usr/bin/buildah") || has_prefix lower (codes "buildah:")
    then some (detected buildah field h.created_by (codes "history.CreatedBy mentions buildah"))
    else if has_prefix lower (codes "containers-storage:")
    then some (
        detected podman field h.created_by
          (codes "history.CreatedBy uses containers-storage transport"))
    else if has_prefix lower (codes "podman:") || contains_text lower (codes "/usr/bin/podman")
    then some (detected podman field h.created_by (codes "history.CreatedBy mentions podman"))
    else none

unfoldable pub detect_podman_buildah : ℕ → List History → Option Detection
unfolding by_entry
detect_podman_buildah i [] = none
detect_podman_buildah i (h ∷ hs) =
    let rest = detect_podman_buildah (suc i) hs in or_else (by_entry i h) rest

-- The detectors without BuildKit's, in the order of the source.
unfoldable pub detect_from_config : Result Text (List Layer) → ConfigFile → Option Detection
unfolding detect_kaniko detect_jib detect_ko detect_podman_buildah
detect_from_config layers cf =
    or_else (detect_kaniko layers cf)
      (or_else (detect_jib cf) (or_else (detect_ko cf) (detect_podman_buildah 0 cf.history)))

abbrev pub or_docker : Option Detection → Detection
or_docker none = (docker, [])
or_docker (some d) = d

-- `Detect`; the runtime beside an error is `unknown`.
unfoldable pub detect : Image → Result Text Detection
unfolding detect_buildkit detect_from_config
detect img = do
  cfg ← img.config_file
  ok (
      or_docker (
        or_else (detect_buildkit cfg img.annotations)
          (elim cfg [ none ↦ none | some cf ↦ detect_from_config img.layers cf ])))
