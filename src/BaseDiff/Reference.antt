-- ===== src/BaseDiff/Reference.antt =====
-- internal/enrich/basediff/detector.go, and `resolveBaseRef` of enricher.go: which image is the base.
use astinus.Base.{
  ◌&&◌, not, List, [], ◌∷◌, ◌++◌, Option, none, some, Text, codes, text_eq, nat_eq, ◌==◌,
  if◌then◌else◌, contains, Result, ok, err, ◌>>=◌,
}
use astinus.Base.Dict.{Dict, lookup}
use astinus.Layers.{ConfigFile, Image}

pub data Mode : Type 0 where
  mode_auto mode_explicit mode_none mode_partial : Mode

pub record Options : Type 0 where
  pub mode : Mode
  pub reference : Text

abbrev pub auto_labels : List Text
auto_labels =
    codes "org.opencontainers.image.base.name" ∷ codes "org.opencontainers.image.base.ref.name" ∷ []

abbrev pub digest_labels : List Text
digest_labels = codes "org.opencontainers.image.base.digest" ∷ []

unfoldable pub first_non_empty : Dict Text Text → List Text → Text
first_non_empty m [] = []
first_non_empty m (k ∷ keys) =
    let rest = first_non_empty m keys in
    elim (lookup k m) [ none ↦ rest | some v ↦ if v == [] then rest else v ]

unfoldable pub detect_from_labels : Option ConfigFile → Text
unfolding first_non_empty
detect_from_labels none = []
detect_from_labels (some cfg) =
    let name = first_non_empty cfg.labels auto_labels in
    let digest = first_non_empty cfg.labels digest_labels in
    if name == []
    then []
    else if not (digest == []) && not (contains name b'@')
    then name ++ (b'@' ∷ digest)
    else name

unfoldable pub resolve_base_ref : Options → Image → Result Text Text
unfolding detect_from_labels
resolve_base_ref opts img = elim opts.mode [
  | mode_explicit ↦
      if opts.reference == []
      then err (codes "basediff: explicit mode requires Options.Reference")
      else ok opts.reference
  | mode_auto ↦ img.config_file >>= λ cfg. ok (detect_from_labels cfg)
  | mode_none ↦ ok []
  | mode_partial ↦ err (codes "basediff: unknown mode 3")
]
