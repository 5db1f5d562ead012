-- ===== src/Layers/Files.antt =====
-- internal/image/layer/extract.go: the files of an image that no later layer hides, each given to a visitor
-- with the state that it keeps. Texts that wrap an error are left out.
use mathlib.Core.Path.{subst}
use astinus.Base.Results.{IfOk, IfOk-elim, >>=_congr, >>=_assoc}
use astinus.Base.{
  ℕ, suc, ◌≡◌, refl, sym, ap, ◌∙◌, List, [], ◌∷◌, ◌++◌, Option, none, some, Text, text_eq, nat_eq,
  ◌==◌, if◌then◌else◌, Result, ok, err, ◌>>=◌,
}
use astinus.Layers.{Info, Header, Tar, Layer, Image, FileMap, normalize_path, walk, lookup_path}

pub record FileEntry : Type 0 where
  pub path : Text
  pub layer : Info
  pub header : Header

-- What a visitor returns: nil, `SkipFile`, or another error.
pub data Visit {ℓ} (S : Type ℓ) : Type ℓ where
  go_on : S → Visit S
  skip_file : S → Visit S
  halt : Text → Visit S

-- The guards of `streamLayer`: the entry that the visitor gets, unless the header is passed over.
unfoldable pub entry_of : FileMap → ℕ → Header → Option FileEntry
unfolding lookup_path
entry_of fm idx hdr =
    let path = normalize_path hdr.name in
    if hdr.is_regular
    then if path == [] then none else elim (lookup_path fm path) [
      | none ↦ none
      | some owner ↦
          if owner.index == idx
          then some (record { path = path; layer = owner; header = hdr })
          else none
    ]
    else none

module _ {ℓ} {S : Type ℓ} (visitor : S → FileEntry → Visit S) where
  abbrev pub visited : Visit S → Result Text S
  visited (go_on s) = ok s
  visited (skip_file s) = ok s
  visited (halt e) = err e

  abbrev pub visit_entry : S → Option FileEntry → Result Text S
  visit_entry s none = ok s
  visit_entry s (some e) = visited (visitor s e)

  -- `streamLayer` from the entry of number `j` on; `live` is the context's error by that number.
  unfoldable pub stream_entries :
      (ℕ → Option Text) → FileMap → ℕ → ℕ → List Header → Option Text → S → Result Text S
  unfolding entry_of
  stream_entries live fm idx j [] failure s = elim (live j) [
    | some e ↦ err e
    | none ↦ elim failure [ some e ↦ err e | none ↦ ok s ]
  ]
  stream_entries live fm idx j (hdr ∷ hdrs) failure s = elim (live j) [
    | some e ↦ err e
    | none ↦ visit_entry s (entry_of fm idx hdr) >>= stream_entries live fm idx (suc j) hdrs failure
  ]

  unfoldable pub stream_layer : (ℕ → Option Text) → FileMap → ℕ → Layer → S → Result Text S
  unfolding stream_entries
  stream_layer live fm idx lyr s = do
    tar ← lyr.uncompressed
    stream_entries live fm idx 0 tar.headers tar.failure s

  unfoldable pub stream_layers :
      (ℕ → Option Text) → (ℕ → ℕ → Option Text) → FileMap → ℕ → List Layer → S → Result Text S
  unfolding stream_layer
  stream_layers ctx live fm i [] s = ok s
  stream_layers ctx live fm i (lyr ∷ lyrs) s = elim (ctx i) [
    | some e ↦ err e
    | none ↦ stream_layer (live i) fm i lyr s >>= stream_layers ctx live fm (suc i) lyrs
  ]

  -- `WalkFiles`; `ctx'` and `live` are the context's errors in the second reading.
  unfoldable pub walk_files :
      (ℕ → Option Text) → (ℕ → Option Text) → (ℕ → ℕ → Option Text) → Image → S → Result Text S
  unfolding stream_layers
  walk_files ctx ctx' live img s = do
    fm ← walk ctx img
    layers ← img.layers
    stream_layers ctx' live fm 0 layers s

-- The files that a header list, or the layers from number `i` on, have to show by a map.
abbrev pub cons_found : Option FileEntry → List FileEntry → List FileEntry
cons_found none es = es
cons_found (some e) es = e ∷ es

unfoldable pub files_of : FileMap → ℕ → List Header → List FileEntry
files_of fm idx [] = []
files_of fm idx (hdr ∷ hdrs) = cons_found (entry_of fm idx hdr) (files_of fm idx hdrs)

abbrev pub headers_of : Result Text Tar → List Header
headers_of (ok tar) = tar.headers
headers_of (err e) = []

unfoldable pub visible_files : FileMap → ℕ → List Layer → List FileEntry
unfolding files_of
visible_files fm i [] = []
visible_files fm i (lyr ∷ lyrs) =
    files_of fm i (headers_of lyr.uncompressed) ++ visible_files fm (suc i) lyrs

module _ {ℓ} {S : Type ℓ} (visitor : S → FileEntry → Visit S) where
  -- The visitor on each file in turn.
  unfoldable pub visit_all : S → List FileEntry → Result Text S
  visit_all s [] = ok s
  visit_all s (e ∷ es) = visited visitor (visitor s e) >>= λ s'. visit_all s' es

  visit_all-append :
      (s : S) (es fs : List FileEntry)
      → visit_all s (es ++ fs) ≡ (visit_all s es >>= λ s'. visit_all s' fs)
  unfolding visit_all
  visit_all-append s [] fs = refl
  visit_all-append s (e ∷ es) fs =
      >>=_congr (visited visitor (visitor s e)) _ _ (λ s'. visit_all-append s' es fs)
      ∙ sym (>>=_assoc (visited visitor (visitor s e)) _ _)

  -- A streaming that ends without an error has visited the files in order.
  abbrev Visits : S → List FileEntry → Result Text S → Type ℓ
  Visits s es r = IfOk (λ out. visit_all s es ≡ ok out) r

  Visits-cons :
      (s : S) (o : Option FileEntry) (es : List FileEntry) (f : S → Result Text S)
      → ((s' : S) → Visits s' es (f s'))
      → Visits s (cons_found o es) (visit_entry visitor s o >>= f)
  unfolding visit_all
  Visits-cons s none es f h = h s
  Visits-cons s (some e) es f h = go (visited visitor (visitor s e))
    where
      go : (r : Result Text S) → IfOk (λ out. (r >>= λ s'. visit_all s' es) ≡ ok out) (r >>= f)
      go (ok s') = h s'
      go (err x) = tt

  stream_entries-Visits :
      (live : ℕ → Option Text) (fm : FileMap) (idx j : ℕ) (hdrs : List Header)
      (failure : Option Text) (s : S)
      → Visits s (files_of fm idx hdrs) (stream_entries visitor live fm idx j hdrs failure s)
  unfolding stream_entries files_of visit_all
  stream_entries-Visits live fm idx j [] failure s =
      IfOk-elim (λ out. ok s ≡ ok out) _ err (live j)
        (IfOk-elim (λ out. ok s ≡ ok out) (ok s) err failure refl (λ e. tt)) (λ e. tt)
  stream_entries-Visits live fm idx j (hdr ∷ hdrs) failure s =
      IfOk-elim _ _ err (live j)
        (Visits-cons s (entry_of fm idx hdr) (files_of fm idx hdrs)
          (stream_entries visitor live fm idx (suc j) hdrs failure)
          (λ s'. stream_entries-Visits live fm idx (suc j) hdrs failure s'))
        (λ e. tt)

  stream_layer-Visits :
      (live : ℕ → Option Text) (fm : FileMap) (idx : ℕ) (lyr : Layer) (s : S)
      → Visits s
          (files_of fm idx (headers_of lyr.uncompressed))
          (stream_layer visitor live fm idx lyr s)
  unfolding stream_layer
  stream_layer-Visits live fm idx lyr s = by_stream lyr.uncompressed
    where
      by_stream :
          (r : Result Text Tar)
          → Visits s
              (files_of fm idx (headers_of r))
              (r >>= λ tar. stream_entries visitor live fm idx 0 tar.headers tar.failure s)
      by_stream (ok tar) = stream_entries-Visits live fm idx 0 tar.headers tar.failure s
      by_stream (err e) = tt

  Visits-append :
      (s : S) (es fs : List FileEntry) (r : Result Text S) (f : S → Result Text S)
      → Visits s es r
      → ((s' : S) → Visits s' fs (f s'))
      → Visits s (es ++ fs) (r >>= f)
  Visits-append s es fs (ok s') f h k =
      subst (λ r. IfOk (λ out. r ≡ ok out) (f s'))
        (sym (visit_all-append s es fs ∙ ap (λ r. r >>= λ s''. visit_all s'' fs) h)) (k s')
  Visits-append s es fs (err e) f h k = tt

  stream_layers-Visits :
      (ctx : ℕ → Option Text) (live : ℕ → ℕ → Option Text) (fm : FileMap) (i : ℕ)
      (lyrs : List Layer) (s : S)
      → Visits s (visible_files fm i lyrs) (stream_layers visitor ctx live fm i lyrs s)
  unfolding stream_layers visible_files visit_all
  stream_layers-Visits ctx live fm i [] s = refl
  stream_layers-Visits ctx live fm i (lyr ∷ lyrs) s =
      IfOk-elim _ _ err (ctx i)
        (Visits-append s (files_of fm i (headers_of lyr.uncompressed))
          (visible_files fm (suc i) lyrs) (stream_layer visitor (live i) fm i lyr s)
          (stream_layers visitor ctx live fm (suc i) lyrs) (stream_layer-Visits (live i) fm i lyr s)
          (λ s'. stream_layers-Visits ctx live fm (suc i) lyrs s'))
        (λ e. tt)

  pub walk_files-visible_files :
      (ctx ctx' : ℕ → Option Text) (live : ℕ → ℕ → Option Text) (img : Image) (lyrs : List Layer)
      (fm : FileMap) (s out : S)
      → img.layers ≡ ok lyrs
      → walk ctx img ≡ ok fm
      → walk_files visitor ctx ctx' live img s ≡ ok out
      → visit_all s (visible_files fm 0 lyrs) ≡ ok out
  unfolding walk_files
  walk_files-visible_files ctx ctx' live img lyrs fm s out read walked h =
      subst (Visits s (visible_files fm 0 lyrs)) h
        (rw (walked, read, walk_files) (stream_layers-Visits ctx' live fm 0 lyrs s))
