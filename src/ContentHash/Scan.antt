-- ===== src/ContentHash/Scan.antt =====
-- internal/enrich/basediff/contenthash/scan.go: the hashes of the files that two images show. SHA-256, in
-- hexadecimal, is a parameter.
use astinus.Base.Results.{ok_injective}
use astinus.Base.{
  ℕ, ◌^◌, ◌≡◌, refl, sym, ◌∙◌, List, [], ◌∷◌, Option, none, some, Text, text_eq, length, take,
  Result, ok, Option-cases, inl, inr,
}
use astinus.Base.Dict.{Dict, insert}
use astinus.Layers.{Layer, Image, FileMap, walk}
use astinus.Layers.Files.{
  FileEntry, Visit, go_on, skip_file, walk_files, visible_files, visit_all,
  walk_files-visible_files,
}
use astinus.ContentHash.{Evidence, BaseSet, new_base_set, add, add_all}

-- `MaxFileBytes`, 1 GiB.
unfoldable pub max_file_bytes : ℕ
max_file_bytes = 2 ^ 30

module _ (sha256 : Text → Text) where
  -- The visitor of `BuildBaseSet`.
  unfoldable pub add_file : BaseSet → FileEntry → Visit BaseSet
  add_file set fe = elim fe.header.body [
    | none ↦ skip_file set
    | some body ↦
        let bytes = take max_file_bytes body in
        go_on (
          add set (sha256 bytes)
            (record { base_path = fe.path; layer_index = fe.layer.index; size = length bytes }))
  ]

  -- `BuildBaseSet`; `m` and `k` size the filter.
  unfoldable pub build_base_set :
      ℕ
      → ℕ
      → (ℕ → Option Text)
      → (ℕ → Option Text)
      → (ℕ → ℕ → Option Text)
      → Image
      → Result Text BaseSet
  unfolding add_file
  build_base_set m k ctx ctx' live img = walk_files add_file ctx ctx' live img (new_base_set m k)

  -- The visitor of `ScanTarget`.
  unfoldable pub record_hash : Dict Text Text → FileEntry → Visit (Dict Text Text)
  record_hash out fe = elim fe.header.body [
    | none ↦ skip_file out
    | some body ↦ go_on (insert fe.path (sha256 (take max_file_bytes body)) out)
  ]

  unfoldable pub scan_target :
      (ℕ → Option Text)
      → (ℕ → Option Text)
      → (ℕ → ℕ → Option Text)
      → Image
      → Result Text (Dict Text Text)
  unfolding record_hash
  scan_target ctx ctx' live img = walk_files record_hash ctx ctx' live img []

  -- The files that can be read, each with its hash and its place.
  unfoldable pub hashed_files : List FileEntry → List (Text × Evidence)
  hashed_files [] = []
  hashed_files (fe ∷ files) =
      let rest = hashed_files files in
      elim fe.header.body [
        | none ↦ rest
        | some body ↦
            let bytes = take max_file_bytes body in
            (
              sha256 bytes,
              record { base_path = fe.path; layer_index = fe.layer.index; size = length bytes },
            )
            ∷ rest
      ]

  -- The entries of the map that the same files leave, in order.
  abbrev pub record_all : Dict Text Text → List (Text × Evidence) → Dict Text Text
  record_all out [] = out
  record_all out ((h, ev) ∷ files) = record_all (insert ev.base_path h out) files

  visit_all-add_file :
      (files : List FileEntry) (set : BaseSet)
      → visit_all add_file set files ≡ ok (add_all set (hashed_files files))
  unfolding visit_all hashed_files add_all add_file
  visit_all-add_file [] set = refl
  visit_all-add_file (fe ∷ files) set = elim (Option-cases fe.header.body) [
    | inl missing ↦ rw (missing) (visit_all-add_file files set)
    | inr (body, there) ↦ rw (there) (visit_all-add_file files _)
  ]

  visit_all-record_hash :
      (files : List FileEntry) (out : Dict Text Text)
      → visit_all record_hash out files ≡ ok (record_all out (hashed_files files))
  unfolding visit_all hashed_files record_hash
  visit_all-record_hash [] out = refl
  visit_all-record_hash (fe ∷ files) out = elim (Option-cases fe.header.body) [
    | inl missing ↦ rw (missing) (visit_all-record_hash files out)
    | inr (body, there) ↦ rw (there) (visit_all-record_hash files _)
  ]

  -- The set that `BuildBaseSet` returns is that of the files which the image shows: their hashes,
  -- where each can be read, added in order.
  pub build_base_set-add_all :
      (m k : ℕ) (ctx ctx' : ℕ → Option Text) (live : ℕ → ℕ → Option Text) (img : Image)
      (lyrs : List Layer) (fm : FileMap) (set : BaseSet)
      → img.layers ≡ ok lyrs
      → walk ctx img ≡ ok fm
      → build_base_set m k ctx ctx' live img ≡ ok set
      → set ≡ add_all (new_base_set m k) (hashed_files (visible_files fm 0 lyrs))
  unfolding build_base_set
  build_base_set-add_all m k ctx ctx' live img lyrs fm set read walked h = ok_injective (
      sym (
        walk_files-visible_files add_file ctx ctx' live img lyrs fm (new_base_set m k) set read
          walked h)
      ∙ visit_all-add_file (visible_files fm 0 lyrs) (new_base_set m k))

  -- The hashes that `ScanTarget` returns are those of the files which the image shows, the last
  -- where a layer holds a path twice.
  pub scan_target-record_all :
      (ctx ctx' : ℕ → Option Text) (live : ℕ → ℕ → Option Text) (img : Image) (lyrs : List Layer)
      (fm : FileMap) (hashes : Dict Text Text)
      → img.layers ≡ ok lyrs
      → walk ctx img ≡ ok fm
      → scan_target ctx ctx' live img ≡ ok hashes
      → hashes ≡ record_all [] (hashed_files (visible_files fm 0 lyrs))
  unfolding scan_target
  scan_target-record_all ctx ctx' live img lyrs fm hashes read walked h = ok_injective (
      sym (walk_files-visible_files record_hash ctx ctx' live img lyrs fm [] hashes read walked h)
      ∙ visit_all-record_hash (visible_files fm 0 lyrs) [])
