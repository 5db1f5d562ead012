-- ===== src/Attribution/Laws.antt =====
-- internal/enrich/attribution/enricher.go and the walker: what is stamped on the components.
use astinus.Base.{
  ℕ, ◌≡◌, refl, ◌⊎◌, inl, inr, Bool, true, List, [], ◌∷◌, map, Option, none, some, arith, Text,
  text_eq, nat_eq, ◌==◌, ==_iff, ==_refl, Bool-cases, Option-cases, contains, ok, All, Pairwise,
  Pairwise-map,
}
use astinus.Base.Dict.{lookup}
use astinus.Model.{EvidenceLocation, LayerInfo, ComponentFields, Sbom}
use astinus.Model.Walk.{all_components, all_components-walk_components}
use astinus.Layers.{Layer, Image, FileMap, normalize_path, walk, lookup_path}
use astinus.Layers.Digests.{Describes, lookup_path-Describes}
use astinus.Attribution.{first_located, locations_of, apply, enrich, stamp_all, Bundle}

abbrev pub paths_of : List EvidenceLocation → List Text
paths_of locs = map (λ loc. loc.path) locs

-- A path of the component whose last writer the map knows, and that writer's number and digest.
abbrev pub IsOwner : List Layer → FileMap → List EvidenceLocation → LayerInfo → Type 0
IsOwner lyrs fm locs info =
    (p : Text) × (contains (paths_of locs) p ≡ true)
    × (lookup (normalize_path p) fm.paths ≡ some info.layer_index)
    × Describes lyrs info.layer_index info.layer_digest

-- A location that says nothing, or a path that the image does not have.
abbrev pub IsUnknown : FileMap → EvidenceLocation → Type 0
IsUnknown fm loc = (loc.path ≡ []) ⊎ (lookup_path fm loc.path ≡ none)

-- The layer info after the stamping, by that before: it is kept, or it is that of an owner, or
-- no location is known.
abbrev pub IsStamped :
    List Layer → FileMap → List EvidenceLocation → Option LayerInfo → Option LayerInfo → Type 0
IsStamped lyrs fm locs (some old) new = new ≡ some old
IsStamped lyrs fm locs none (some info) = IsOwner lyrs fm locs info
IsStamped lyrs fm locs none none = All (IsUnknown fm) locs

-- A component after the enricher: nothing but its layer info is changed.
abbrev pub IsAttributed : List Layer → FileMap → ComponentFields → ComponentFields → Type 0
IsAttributed lyrs fm before after =
    (after ≡ record before { layer_info = after.layer_info })
    × IsStamped lyrs fm (locations_of before.evidence) before.layer_info after.layer_info

IsStamped-later :
    (lyrs : List Layer) (fm : FileMap) (loc : EvidenceLocation) (locs : List EvidenceLocation)
    (o : Option LayerInfo)
    → IsUnknown fm loc
    → IsStamped lyrs fm locs none o
    → IsStamped lyrs fm (loc ∷ locs) none o
IsStamped-later lyrs fm loc locs none u h = (u, h)
IsStamped-later lyrs fm loc locs (some info) u (p, c, rest, described) =
    (p, ground (arith, c), rest, described)

first_located-IsStamped :
    (ctx : ℕ → Option Text) (img : Image) (lyrs : List Layer) (fm : FileMap)
    (locs : List EvidenceLocation)
    → img.layers ≡ ok lyrs
    → walk ctx img ≡ ok fm
    → IsStamped lyrs fm locs none (first_located fm locs)
unfolding first_located
first_located-IsStamped ctx img lyrs fm [] read walked = tt
first_located-IsStamped ctx img lyrs fm (loc ∷ locs) read walked =
    let ih = first_located-IsStamped ctx img lyrs fm locs read walked in
    elim (Bool-cases (loc.path == [])) [
      | inl empty ↦
          rw (empty, first_located)
            (IsStamped-later lyrs fm loc locs (first_located fm locs)
              (inl ((==_iff loc.path []).0 empty)) ih)
      | inr full ↦ elim (Option-cases (lookup_path fm loc.path)) [
        | inl missing ↦
            rw (full, missing, first_located)
              (IsStamped-later lyrs fm loc locs (first_located fm locs) (inr missing) ih)
        | inr (info, found) ↦
            let (owned, described) =
              lookup_path-Describes ctx img lyrs fm loc.path info read walked found in
            rw (full, found, first_located)
              (loc.path, ground (arith, ==_refl loc.path), owned, described)
      ]
    ]

apply-IsAttributed :
    (ctx : ℕ → Option Text) (img : Image) (lyrs : List Layer) (fm : FileMap) (c : ComponentFields)
    → img.layers ≡ ok lyrs
    → walk ctx img ≡ ok fm
    → IsAttributed lyrs fm c (apply fm c)
unfolding apply
apply-IsAttributed ctx img lyrs fm c read walked = elim (Option-cases c.layer_info) [
  | inl missing ↦ (
    refl,
    rw (missing) (first_located-IsStamped ctx img lyrs fm (locations_of c.evidence) read walked),
  )
  | inr (old, there) ↦ (refl, rw (there) refl)
]

-- Where the layers can be read and the walk ends, the enricher returns an SBOM with the same
-- components in the same order, in each of which only the layer info may differ. An info that was
-- there is kept. A new one bears the digest and the number of the layer that, by the walk, last wrote
-- one of the component's evidence paths. A component is left without one only where the image has
-- none of those paths.
pub enrich-IsAttributed :
    (ctx : ℕ → Option Text) (quote : Text → Text) (has_provenance : Option Bool) (bundle : Bundle)
    (sbom : Sbom) (lyrs : List Layer) (fm : FileMap)
    → bundle.image.layers ≡ ok lyrs
    → walk ctx bundle.image ≡ ok fm
    → (after : Sbom) × (enrich ctx quote has_provenance bundle sbom ≡ ok after)
      × Pairwise
          (IsAttributed lyrs fm)
          (all_components sbom.components)
          (all_components after.components)
unfolding enrich stamp_all
enrich-IsAttributed ctx quote has_provenance bundle sbom lyrs fm read walked = (
  stamp_all quote has_provenance bundle fm sbom,
  rw (walked, enrich) refl,
  rw (all_components-walk_components (apply fm) sbom.components) (
      Pairwise-map (IsAttributed lyrs fm) (apply fm)
        (λ c. apply-IsAttributed ctx bundle.image lyrs fm c read walked)
        (all_components sbom.components)),
)
