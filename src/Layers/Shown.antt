-- ===== src/Layers/Shown.antt =====
-- internal/image/layer/extract.go: which files `WalkFiles` gives to its visitor, by the map that the walk over
-- the layers returned.
use mathlib.Core.Path.{subst}
use astinus.Base.{
  ℕ, suc, ◌≡◌, ◌≢◌, refl, sym, ap, ◌∙◌, inl, inr, true, false, List, [], ◌∷◌, ◌++◌, Option, none,
  some, Text, text_eq, nat_eq, ◌==◌, if◌then◌else◌, ==_iff, Bool-cases, Option-cases, ok,
}
use mathlib.Core.Option.{some-injective}
use astinus.Layers.{Info, Header, Layer, Image, FileMap, normalize_path, walk, lookup_path}
use astinus.Layers.Files.{
  FileEntry, Visit, entry_of, walk_files, cons_found, files_of, headers_of, visible_files,
  visit_all, walk_files-visible_files,
}

module _ (fm : FileMap) where
  -- The entry is that of the header: a regular file with a path, which the map gives to the layer of
  -- this number.
  pub record IsShown (idx : ℕ) (hdr : Header) (e : FileEntry) : Type 0 where
    pub regular : hdr.is_regular ≡ true
    pub named : normalize_path hdr.name ≢ []
    pub same_path : e.path ≡ normalize_path hdr.name
    pub same_header : e.header ≡ hdr
    pub owned : lookup_path fm (normalize_path hdr.name) ≡ some e.layer
    pub last_written : e.layer.index ≡ idx

  -- The entries of the headers in order, those that are not shown passed over.
  pub data AreShown (idx : ℕ) : List Header → List FileEntry → Type 0 where
    no_headers : AreShown idx [] []
    shown :
        {hdr : Header} {e : FileEntry} {hdrs : List Header} {es : List FileEntry}
        → IsShown idx hdr e
        → AreShown idx hdrs es
        → AreShown idx (hdr ∷ hdrs) (e ∷ es)
    hidden :
        {hdr : Header} {hdrs : List Header} {es : List FileEntry}
        → ((e : FileEntry) → ¬ (IsShown idx hdr e))
        → AreShown idx hdrs es
        → AreShown idx (hdr ∷ hdrs) es

  -- The same for the layers from a number on.
  pub data AreVisible : ℕ → List Layer → List FileEntry → Type 0 where
    no_layers : (i : ℕ) → AreVisible i [] []
    next_layer :
        {i : ℕ} {lyr : Layer} {lyrs : List Layer} {here after : List FileEntry}
        → AreShown i (headers_of lyr.uncompressed) here
        → AreVisible (suc i) lyrs after
        → AreVisible i (lyr ∷ lyrs) (here ++ after)

  module _ (idx : ℕ) (hdr : Header) where
    unfoldable path : Text
    path = normalize_path hdr.name

    entry_of_other : hdr.is_regular ≡ false → entry_of fm idx hdr ≡ none
    unfolding entry_of
    entry_of_other other = rw (other) refl

    entry_of_unnamed : (path == []) ≡ true → entry_of fm idx hdr ≡ none
    unfolding entry_of path
    entry_of_unnamed empty = elim (Bool-cases hdr.is_regular) [
      | inl regular ↦ rw (regular, empty) refl
      | inr other ↦ rw (other) refl
    ]

    entry_of_owned :
        (owner : Info)
        → hdr.is_regular ≡ true
        → (path == []) ≡ false
        → lookup_path fm path ≡ some owner
        → entry_of fm idx hdr ≡ (
            if owner.index == idx
            then some (record { path = path; layer = owner; header = hdr })
            else none)
    unfolding entry_of path
    entry_of_owned owner regular full found = simp (regular, full, found)

    entry_of_missing : lookup_path fm path ≡ none → entry_of fm idx hdr ≡ none
    unfolding entry_of path
    entry_of_missing missing = elim (Bool-cases hdr.is_regular) [
      | inr other ↦ rw (other) refl
      | inl regular ↦ elim (Bool-cases (path == [])) [
        | inl empty ↦ rw (regular, empty) refl
        | inr full ↦ rw (regular, full, missing) refl
      ]
    ]

    not_owner :
        (e : FileEntry) (owner : Info)
        → lookup_path fm path ≡ some owner
        → (owner.index == idx) ≡ false
        → ¬ (IsShown idx hdr e)
    unfolding path
    not_owner e owner found later h =
        let same : owner ≡ e.layer = some-injective owner e.layer (sym found ∙ h.owned) in
        absurd (cc (later, (==_iff owner.index idx).1 (ap (λ o. o.index) same ∙ h.last_written)))

    -- What `entry_of` returns is what has to be shown of the header.
    unfoldable IsEntry : Option FileEntry → Type 0
    IsEntry none = (e : FileEntry) → ¬ (IsShown idx hdr e)
    IsEntry (some e) = IsShown idx hdr e

    entry_of-IsEntry : IsEntry (entry_of fm idx hdr)
    unfolding path IsEntry
    entry_of-IsEntry = elim (Bool-cases hdr.is_regular) [
      | inr other ↦
          subst IsEntry (sym (entry_of_other other)) (λ e h. absurd (cc (other, h.regular)))
      | inl regular ↦ elim (Bool-cases (path == [])) [
        | inl empty ↦
            subst IsEntry (sym (entry_of_unnamed empty))
              (λ e h. absurd (h.named ((==_iff path []).0 empty)))
        | inr full ↦ elim (Option-cases (lookup_path fm path)) [
          | inl missing ↦
              subst IsEntry (sym (entry_of_missing missing)) (λ e h. absurd (cc (missing, h.owned)))
          | inr (owner, found) ↦
              subst IsEntry (sym (entry_of_owned owner regular full found))
                (by_owner owner regular full found)
        ]
      ]
    ]
      where
        by_owner :
            (owner : Info)
            → hdr.is_regular ≡ true
            → (path == []) ≡ false
            → lookup_path fm path ≡ some owner
            → IsEntry (
                if owner.index == idx
                then some (record { path = path; layer = owner; header = hdr })
                else none)
        by_owner owner regular full found = elim (Bool-cases (owner.index == idx)) [
          | inr later ↦ rw (later) (λ e h. not_owner e owner found later h)
          | inl same ↦ rw (same) (record {
            regular = regular;
            named = λ h. absurd (cc (full, (==_iff path []).1 h));
            same_path = refl;
            same_header = refl;
            owned = found;
            last_written = (==_iff owner.index idx).0 same;
          })
        ]

    AreShown-cons :
        (hdrs : List Header) (es : List FileEntry) (o : Option FileEntry)
        → IsEntry o
        → AreShown idx hdrs es
        → AreShown idx (hdr ∷ hdrs) (cons_found o es)
    unfolding IsEntry
    AreShown-cons hdrs es none h rest = hidden h rest
    AreShown-cons hdrs es (some e) h rest = shown h rest

  files_of-AreShown : (idx : ℕ) (hdrs : List Header) → AreShown idx hdrs (files_of fm idx hdrs)
  unfolding files_of
  files_of-AreShown idx [] = no_headers
  files_of-AreShown idx (hdr ∷ hdrs) =
      AreShown-cons idx hdr hdrs (files_of fm idx hdrs) (entry_of fm idx hdr)
        (entry_of-IsEntry idx hdr) (files_of-AreShown idx hdrs)

  visible_files-AreVisible :
      (i : ℕ) (lyrs : List Layer) → AreVisible i lyrs (visible_files fm i lyrs)
  unfolding visible_files
  visible_files-AreVisible i [] = no_layers i
  visible_files-AreVisible i (lyr ∷ lyrs) =
      next_layer (files_of-AreShown i (headers_of lyr.uncompressed))
        (visible_files-AreVisible (suc i) lyrs)

-- A walk that ends without an error has given the visitor, in the order of the layers and of their
-- headers, one entry for exactly those headers that are regular files with a path and stand in the
-- layer that the map gives for the path, which is the last that wrote it.
pub walk_files-visit_all {ℓ} :
    {S : Type ℓ} (visitor : S → FileEntry → Visit S) (ctx ctx' : ℕ → Option Text)
    (live : ℕ → ℕ → Option Text) (img : Image) (lyrs : List Layer) (fm : FileMap) (s out : S)
    → img.layers ≡ ok lyrs
    → walk ctx img ≡ ok fm
    → walk_files visitor ctx ctx' live img s ≡ ok out
    → (es : List FileEntry) × AreVisible fm 0 lyrs es × (visit_all visitor s es ≡ ok out)
walk_files-visit_all visitor ctx ctx' live img lyrs fm s out read walked h = (
  visible_files fm 0 lyrs,
  visible_files-AreVisible fm 0 lyrs,
  walk_files-visible_files visitor ctx ctx' live img lyrs fm s out read walked h,
)
