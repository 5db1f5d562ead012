-- ===== src/Layers/Visible.antt =====
-- The owner of one path as a state machine of its own, which the walk over the map refines.
use astinus.Base.{
  ℕ, ◌≡◌, refl, ◌∙◌, ap, Bool, true, false, List, [], ◌∷◌, ◌++◌, map, Option, none, some, Text,
  text_eq, nat_eq, ◌==◌, if◌then◌else◌,
}
use astinus.Base.Dict.{Dict, lookup, lookup-insert, lookup-erase}
use astinus.Base.Strings.{has_prefix, trim_prefix}
use astinus.Base.Paths.{base_of, dir_of, join}
use astinus.Layers.{
  Header, opaque_marker, whiteout_prefix, normalize_path, walk_entry, walk_header, walk_headers,
}
use astinus.Layers.Laws.{Single, hide, insert-Single, erase-Single, remove-Single, lookup-remove}

-- What a tar header asks for: nothing, a file at a path, a path to be hidden, or all that earlier
-- layers have below a prefix to be hidden.
pub data Act : Type 0 where
  nothing : Act
  write : Text → Act
  white_out : Text → Act
  mask : Text → Act

abbrev pub act_of_entry : Text → Text → Text → Bool → Act
act_of_entry name base dir is_dir =
    if base == opaque_marker
    then mask (dir ++ (b'/' ∷ []))
    else if has_prefix base whiteout_prefix
    then white_out (normalize_path (join dir (trim_prefix base whiteout_prefix)))
    else if is_dir
    then nothing
    else write name

abbrev pub act_of : Header → Act
act_of hdr =
    let name = normalize_path hdr.name in
    if name == [] then nothing else act_of_entry name (base_of name) (dir_of name) hdr.is_dir

-- The owner of `k` after a header of layer `i`.
abbrev pub owner : ℕ → Text → Act → Option ℕ → Option ℕ
owner i k nothing o = o
owner i k (write name) o = if name == k then some i else o
owner i k (white_out target) o = if target == k then none else o
owner i k (mask prefix) o = hide (has_prefix k prefix) i o

abbrev pub owners : ℕ → Text → List Act → Option ℕ → Option ℕ
owners i k [] o = o
owners i k (a ∷ acts) o = owners i k acts (owner i k a o)

-- What a change of the map does: it keeps one entry for each path, and acts on each lookup.
abbrev pub Acts : ℕ → Dict Text ℕ → Act → Dict Text ℕ → Type 0
Acts i paths a after = Single after × ((k : Text) → lookup k after ≡ owner i k a (lookup k paths))

if_Acts :
    (i : ℕ) (paths : Dict Text ℕ) (b : Bool) (a a' : Act) (x x' : Dict Text ℕ)
    → Acts i paths a x
    → Acts i paths a' x'
    → Acts i paths (if b then a else a') (if b then x else x')
if_Acts i paths true a a' x x' h h' = h
if_Acts i paths false a a' x x' h h' = h'

walk_entry-Acts :
    (i : ℕ) (paths : Dict Text ℕ) (name base dir : Text) (is_dir : Bool)
    → Single paths
    → Acts i paths (act_of_entry name base dir is_dir) (walk_entry i paths name base dir is_dir)
unfolding walk_entry
walk_entry-Acts i paths name base dir is_dir h =
    if_Acts i paths (base == opaque_marker) _ _ _ _
      (
        remove-Single paths (dir ++ (b'/' ∷ [])) i h,
        λ k. lookup-remove paths (dir ++ (b'/' ∷ [])) i k h,
      )
      (if_Acts i paths (has_prefix base whiteout_prefix) _ _ _ _
        (erase-Single hidden paths h, λ k. lookup-erase hidden k paths)
        (if_Acts i paths is_dir _ _ _ _ (h, λ k. refl)
          (insert-Single name i paths h, λ k. lookup-insert name k i paths)))
  where
    hidden : Text
    hidden = normalize_path (join dir (trim_prefix base whiteout_prefix))

pub walk_header-Acts :
    (i : ℕ) (paths : Dict Text ℕ) (hdr : Header)
    → Single paths
    → Acts i paths (act_of hdr) (walk_header i paths hdr)
unfolding walk_header
walk_header-Acts i paths hdr h =
    if_Acts i paths (normalize_path hdr.name == []) _ _ _ _ (h, λ k. refl)
      (walk_entry-Acts i paths (normalize_path hdr.name) (base_of (normalize_path hdr.name))
        (dir_of (normalize_path hdr.name)) hdr.is_dir h)

-- On a map with one entry for each path, a walk over the headers of one layer changes the owner
-- of each path as that path's own state machine does, run over what the headers ask for.
pub lookup-walk_headers :
    (i : ℕ) (paths : Dict Text ℕ) (hdrs : List Header) (k : Text)
    → Single paths
    → lookup k (walk_headers i paths hdrs) ≡ owners i k (map act_of hdrs) (lookup k paths)
unfolding walk_headers
lookup-walk_headers i paths [] k h = refl
lookup-walk_headers i paths (hdr ∷ hdrs) k h =
    let (single, acts) = walk_header-Acts i paths hdr h in
    lookup-walk_headers i (walk_header i paths hdr) hdrs k single
    ∙ ap (owners i k (map act_of hdrs)) (acts k)
