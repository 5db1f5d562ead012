-- ===== src/BaseDiff/Content.antt =====
-- internal/enrich/basediff: the content strategy against a plain search of the two images' files.
use mathlib.Core.Path.{subst}
use astinus.Base.Results.{IfOk, IfOk-bind, IfOk-self}
use astinus.Base.{
  ℕ, ◌≡◌, refl, sym, ◌∙◌, ap, inl, inr, Bool, true, false, ◌||◌, List, [], ◌∷◌, map, none, some,
  arith, Text, text_eq, nat_eq, ◌==◌, if◌then◌else◌, Bool-cases, Option-cases, contains, Result, ok,
  ◌>>=◌, Pairwise, Pairwise-map,
}
use astinus.Base.Dict.{Dict, lookup}
use astinus.Model.{ComponentFields, Component, Sbom}
use astinus.Model.Walk.{walk_components, all_components, all_components-walk_components}
use astinus.Layers.{Layer, Image, FileMap, normalize_path, walk}
use astinus.Layers.Files.{visible_files}
use astinus.ContentHash.{Evidence, BaseSet, new_base_set, add_all, has_path}
use astinus.ContentHash.Laws.{first_evidence, find_evidence-add_all, has_path-add_all}
use astinus.ContentHash.Scan.{
  build_base_set, scan_target, hashed_files, record_all, build_base_set-add_all,
  scan_target-record_all,
}
use astinus.BaseDiff.Classify.{
  origin_base, origin_app, origin_unknown, paths_for_component, Classification, matched, modified,
  application, matched_or, base_path_of, classify_paths, record_origin, classify_by,
  classify_component,
}
use astinus.BaseDiff.Run.{World, run_content_strategy}

module _ (files : List (Text × Evidence)) (target : Dict Text Text) where
  abbrev pub same_hash : Text → Bool
  same_hash key = elim (lookup key target) [
    | none ↦ false
    | some h ↦ contains (map (λ f. f.0) files) h
  ]

  -- The target has the path, and some file of the base the same hash.
  abbrev pub same_content : Text → Bool
  same_content p = if normalize_path p == [] then false else same_hash (normalize_path p)

  -- The base has a file at the path.
  abbrev pub same_path : Text → Bool
  same_path p =
      if normalize_path p == []
      then false
      else contains (map (λ f. f.1.base_path) files) (normalize_path p)

  abbrev pub in_base : Text → Bool
  in_base p = if same_content p then true else same_path p

abbrev pub any : (Text → Bool) → List Text → Bool
any p [] = false
any p (x ∷ xs) = p x || any p xs

-- What the strategy promises: no path leaves the origin open, and one path that the base has, by
-- content or by place, makes a component the base's.
abbrev pub content_origin : List (Text × Evidence) → Dict Text Text → List Text → Text
content_origin files target [] = origin_unknown
content_origin files target (p ∷ paths) =
    if any (in_base files target) (p ∷ paths) then origin_base else origin_app

or_false : (b : Bool) → (b || false) ≡ b
or_false true = refl
or_false false = refl

abbrev origin_of : Classification → Text
origin_of (matched p) = origin_base
origin_of modified = origin_base
origin_of application = origin_app

first_evidence-found :
    (files : List (Text × Evidence)) (h : Text) (ev : Evidence)
    → first_evidence files h ≡ some ev
    → contains (map (λ f. f.0) files) h ≡ true
first_evidence-found [] h ev e = absurd (cc e)
first_evidence-found ((k, first) ∷ files) h ev e = ground (arith, first_evidence-found files h ev)

first_evidence-missing :
    (files : List (Text × Evidence)) (h : Text)
    → first_evidence files h ≡ none
    → contains (map (λ f. f.0) files) h ≡ false
first_evidence-missing [] h e = refl
first_evidence-missing ((k, first) ∷ files) h e = ground (arith, first_evidence-missing files h)

module _ (m k : ℕ) (files : List (Text × Evidence)) (target : Dict Text Text) where
  abbrev set : BaseSet
  set = add_all (new_base_set m k) files

  -- What a path whose key is not empty adds to the answer.
  base_path_of-same_content :
      (p : Text) (later : Classification)
      → (normalize_path p == []) ≡ false
      → origin_of (matched_or (base_path_of set target (normalize_path p)) later)
        ≡ (if same_content files target p then origin_base else origin_of later)
  base_path_of-same_content p later full = elim (Option-cases (lookup (normalize_path p) target)) [
    | inl missing ↦ rw (full, missing, base_path_of, same_hash) refl
    | inr (h, there) ↦ elim (Option-cases (first_evidence files h)) [
      | inl unknown ↦
          rw
            (
              full,
              there,
              find_evidence-add_all m k files h,
              unknown,
              first_evidence-missing files h unknown,
              base_path_of,
              same_hash,
            )
            refl
      | inr (ev, known) ↦
          rw
            (
              full,
              there,
              find_evidence-add_all m k files h,
              known,
              first_evidence-found files h ev known,
              base_path_of,
              same_hash,
            )
            refl
    ]
  ]

  -- The flag of the loop stands for the paths that are passed already.
  classify_paths-origin :
      (seen : Bool) (paths : List Text)
      → origin_of (classify_paths set target seen paths)
        ≡ (if any (in_base files target) paths || seen then origin_base else origin_app)
  unfolding classify_paths
  classify_paths-origin true [] = refl
  classify_paths-origin false [] = refl
  classify_paths-origin seen (p ∷ paths) = elim (Bool-cases (normalize_path p == [])) [
    | inl empty ↦ rw (empty) (classify_paths-origin seen paths)
    | inr full ↦
        rw
          (
            full,
            base_path_of-same_content p _ full,
            classify_paths-origin (seen || has_path set (normalize_path p)) paths,
            has_path-add_all m k files (normalize_path p),
            full,
          )
          (by_cases (same_hash files target (normalize_path p))
            (contains (map (λ f. f.1.base_path) files) (normalize_path p))
            (any (in_base files target) paths) seen)
  ]
    where
      by_cases :
          (content place later seen : Bool)
          → (if content
              then origin_base
              else if later || (seen || place)
              then origin_base
              else origin_app)
            ≡ (if ((if content then true else place) || later) || seen
                then origin_base
                else origin_app)
      by_cases content place later seen = ground arith

  classify_component-origin :
      (c : ComponentFields)
      → (classify_component set target c).origin
        ≡ content_origin files target (paths_for_component c)
  unfolding classify_component
  classify_component-origin c = by_paths (paths_for_component c)
    where
      recorded : (cl : Classification) → (record_origin cl c).origin ≡ origin_of cl
      recorded (matched p) = refl
      recorded modified = refl
      recorded application = refl

      by_paths :
          (paths : List Text)
          → (classify_by set target c paths).origin ≡ content_origin files target paths
      by_paths [] = refl
      by_paths (p ∷ ps) =
          recorded (classify_paths set target false (p ∷ ps))
          ∙ rw (classify_paths-origin false (p ∷ ps)) (
              ap (λ b. if b then origin_base else origin_app)
                (or_false (any (in_base files target) (p ∷ ps))))

-- Each component has the origin of the search.
abbrev HasOrigin :
    List (Text × Evidence) → Dict Text Text → ComponentFields → ComponentFields → Type 0
HasOrigin files target c c' = c'.origin ≡ content_origin files target (paths_for_component c)

classified :
    (m k : ℕ) (files : List (Text × Evidence)) (target : Dict Text Text) (comps : List Component)
    → Pairwise (HasOrigin files target) (all_components comps) (
        all_components
          (walk_components (classify_component (add_all (new_base_set m k) files) target) comps))
classified m k files target comps =
    rw
      (all_components-walk_components (classify_component (add_all (new_base_set m k) files) target)
        comps)
      (Pairwise-map (HasOrigin files target)
        (classify_component (add_all (new_base_set m k) files) target)
        (classify_component-origin m k files target) (all_components comps))

-- Where both images can be walked and hashed, the content strategy gives every component, in order,
-- the origin that a plain search gives: `unknown` without a path, `base` if, for one of its paths,
-- the base shows a file with the target's hash or one at the same place, and else `app`. Neither
-- the filter nor the order of the paths matters.
pub run_content_strategy-origin :
    (w : World) (target base : Image) (sbom after : Sbom) (target_layers base_layers : List Layer)
    (target_map base_map : FileMap)
    → target.layers ≡ ok target_layers
    → base.layers ≡ ok base_layers
    → walk w.target_walk target ≡ ok target_map
    → walk w.base_walk base ≡ ok base_map
    → run_content_strategy w target base sbom ≡ ok after
    → Pairwise
        (λ c c'.
          c'.origin
          ≡ content_origin
              (hashed_files w.sha256 (visible_files base_map 0 base_layers))
              (record_all w.sha256 []
                (hashed_files w.sha256 (visible_files target_map 0 target_layers)))
              (paths_for_component c))
        (all_components sbom.components)
        (all_components after.components)
unfolding run_content_strategy
run_content_strategy-origin w target base sbom after tl bl tm bm read read' walked walked' h =
    subst (IfOk Searched) h (
      IfOk-bind IsBuilt Searched built_set (λ set. scan >>= λ hashes. ok (stamped set hashes))
        (IfOk-self built_set)
        λ set built.
          IfOk-bind IsScanned Searched scan (λ hashes. ok (stamped set hashes)) (IfOk-self scan)
            λ hashes scanned.
              subst (λ s. Searched (stamped s hashes))
                (sym (
                  build_base_set-add_all w.sha256 w.filter_bits w.filter_hashes w.base_walk
                    w.base_layers w.base_entries base bl bm set read' walked' built))
                (subst
                  (λ d.
                    Searched
                      (stamped (add_all (new_base_set w.filter_bits w.filter_hashes) files) d))
                  (sym (
                    scan_target-record_all w.sha256 w.target_walk w.target_layers w.target_entries
                      target tl tm hashes read walked scanned))
                  (classified w.filter_bits w.filter_hashes files hashed sbom.components)))
  where
    files : List (Text × Evidence)
    files = hashed_files w.sha256 (visible_files bm 0 bl)

    hashed : Dict Text Text
    hashed = record_all w.sha256 [] (hashed_files w.sha256 (visible_files tm 0 tl))

    Searched : Sbom → Type 0
    Searched after =
        Pairwise (HasOrigin files hashed) (all_components sbom.components)
          (all_components after.components)

    stamped : BaseSet → Dict Text Text → Sbom
    stamped set hashes = record sbom {
      components = walk_components (classify_component set hashes) sbom.components;
    }

    built_set : Result Text BaseSet
    built_set =
        build_base_set w.sha256 w.filter_bits w.filter_hashes w.base_walk w.base_layers
          w.base_entries base

    scan : Result Text (Dict Text Text)
    scan = scan_target w.sha256 w.target_walk w.target_layers w.target_entries target

    IsBuilt : BaseSet → Type 0
    IsBuilt set = built_set ≡ ok set

    IsScanned : Dict Text Text → Type 0
    IsScanned hashes = scan ≡ ok hashes
