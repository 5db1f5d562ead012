-- ===== src/Layers/Range.antt =====
-- The indices of the map are those of the layer descriptors, so a lookup never falls out of range.
use mathlib.Core.Path.{subst}
use astinus.Base.{
  ℕ, zero, suc, ◌+◌, ◌<◌, ◌≡◌, refl, ◌∙◌, sym, ap, ◌&&◌, List, [], ◌∷◌, Option, none, some, arith,
  ltb, Text, text_eq, nat_eq, ◌==◌, if_ind, length, ok, err, IfOk, IfOk-bind, IfOk-trivial,
  IfOk-elim, ◌>>=◌,
}
use astinus.Base.Dict.{Dict, lookup}
use astinus.Base.Strings.{has_prefix}
use astinus.Layers.{
  Info, History, Header, Layer, Image, FileMap, normalize_path, walk_header, walk_headers,
  walk_layer, walk_layers, infos_from, pair_history, build_infos, walk, at, lookup_path,
}
use astinus.Layers.Laws.{Single}
use astinus.Layers.Visible.{Act, nothing, write, white_out, mask, act_of, owner, walk_header-Acts}

abbrev pub IsBelow : ℕ → Option ℕ → Type 0
IsBelow n none = Unit
IsBelow n (some idx) = idx < n

-- Every entry is of a layer below `n`, and each path has one entry.
abbrev pub IsWalked : ℕ → Dict Text ℕ → Type 0
IsWalked n paths = Single paths × ((k : Text) → IsBelow n (lookup k paths))

owner-IsBelow :
    (i : ℕ) (k : Text) (a : Act) (o : Option ℕ)
    → IsBelow (suc i) o
    → IsBelow (suc i) (owner i k a o)
owner-IsBelow i k nothing o h = h
owner-IsBelow i k (write name) o h = if_ind (IsBelow (suc i)) (name == k) (omega arith) h
owner-IsBelow i k (white_out target) o h = if_ind (IsBelow (suc i)) (target == k) tt h
owner-IsBelow i k (mask prefix) none h = tt
owner-IsBelow i k (mask prefix) (some idx) h =
    if_ind (IsBelow (suc i)) (ltb idx i && has_prefix k prefix) tt h

walk_headers-IsWalked :
    (i : ℕ) (paths : Dict Text ℕ) (hdrs : List Header)
    → IsWalked (suc i) paths
    → IsWalked (suc i) (walk_headers i paths hdrs)
unfolding walk_headers
walk_headers-IsWalked i paths [] h = h
walk_headers-IsWalked i paths (hdr ∷ hdrs) (single, below) =
    let (single', acts) = walk_header-Acts i paths hdr single in
    walk_headers-IsWalked i (walk_header i paths hdr) hdrs (
      single',
      λ k. subst (IsBelow (suc i)) (sym (acts k)) (owner-IsBelow i k (act_of hdr) _ (below k)),
    )

IsBelow-suc : (n : ℕ) (o : Option ℕ) → IsBelow n o → IsBelow (suc n) o
IsBelow-suc n none h = tt
IsBelow-suc n (some idx) h = omega (arith, h)

IsWalked-suc : (n : ℕ) (paths : Dict Text ℕ) → IsWalked n paths → IsWalked (suc n) paths
IsWalked-suc n paths (single, below) = (single, λ k. IsBelow-suc n (lookup k paths) (below k))

walk_layer-IsWalked :
    (i : ℕ) (lyr : Layer) (paths : Dict Text ℕ)
    → IsWalked i paths
    → IfOk (IsWalked (suc i)) (walk_layer i lyr paths)
unfolding walk_layer
walk_layer-IsWalked i lyr paths walked =
    IfOk-bind (λ _. Unit {0}) (IsWalked (suc i)) lyr.uncompressed _ (IfOk-trivial lyr.uncompressed)
      λ tar _.
        IfOk-elim (IsWalked (suc i)) (ok (walk_headers i paths tar.headers)) err tar.failure
          (walk_headers-IsWalked i paths tar.headers (IsWalked-suc i paths walked)) (λ e. tt)

walk_layers-IsWalked :
    (ctx : ℕ → Option Text) (i : ℕ) (lyrs : List Layer) (paths : Dict Text ℕ)
    → IsWalked i paths
    → IfOk (IsWalked (i + length lyrs)) (walk_layers ctx i lyrs paths)
unfolding walk_layers
walk_layers-IsWalked ctx i [] paths walked = subst (λ n. IsWalked n paths) (omega arith) walked
walk_layers-IsWalked ctx i (lyr ∷ lyrs) paths walked =
    IfOk-elim (IsWalked (i + suc (length lyrs)))
      (walk_layer i lyr paths >>= walk_layers ctx (suc i) lyrs) err (ctx i)
      (IfOk-bind (IsWalked (suc i)) (IsWalked (i + suc (length lyrs))) (walk_layer i lyr paths)
        (walk_layers ctx (suc i) lyrs) (walk_layer-IsWalked i lyr paths walked)
        λ after walked'.
          subst (λ n. IfOk (IsWalked n) (walk_layers ctx (suc i) lyrs after)) (omega arith)
            (walk_layers-IsWalked ctx (suc i) lyrs after walked'))
      (λ e. tt)

-- The descriptors are numbered in order.
abbrev pub AreNumbered : ℕ → List Info → Type 0
AreNumbered i [] = Unit
AreNumbered i (info ∷ infos) = (info.index ≡ i) × AreNumbered (suc i) infos

infos_from-AreNumbered : (i : ℕ) (lyrs : List Layer) → AreNumbered i (infos_from i lyrs)
unfolding infos_from
infos_from-AreNumbered i [] = tt
infos_from-AreNumbered i (lyr ∷ lyrs) = (refl, infos_from-AreNumbered (suc i) lyrs)

length-infos_from : (i : ℕ) (lyrs : List Layer) → length (infos_from i lyrs) ≡ length lyrs
unfolding infos_from
length-infos_from i [] = refl
length-infos_from i (lyr ∷ lyrs) = ap suc (length-infos_from (suc i) lyrs)

-- Pairing with the history keeps the number of descriptors and their numbers.
pair_history-kept :
    (i : ℕ) (infos : List Info) (hs : List History)
    → AreNumbered i infos
    → AreNumbered i (pair_history infos hs) × (length (pair_history infos hs) ≡ length infos)
unfolding pair_history
pair_history-kept i infos [] h = (h, refl)
pair_history-kept i [] (e ∷ hs) h =
    if_ind (λ l. AreNumbered i l × (length l ≡ 0)) e.empty_layer (pair_history-kept i [] hs tt)
      (tt, refl)
pair_history-kept i (info ∷ infos) (e ∷ hs) (h, h') =
    if_ind (λ l. AreNumbered i l × (length l ≡ suc (length infos))) e.empty_layer
      (pair_history-kept i (info ∷ infos) hs (h, h'))
      (
        (h, (pair_history-kept (suc i) infos hs h').0),
        ap suc (pair_history-kept (suc i) infos hs h').1,
      )

at-AreNumbered :
    (i : ℕ) (infos : List Info) (n : ℕ)
    → AreNumbered i infos
    → n < length infos
    → (info : Info) × (at infos n ≡ some info) × (info.index ≡ i + n)
unfolding at
at-AreNumbered i [] n h l = absurd (omega (arith, l))
at-AreNumbered i (info ∷ infos) zero (h, h') l = (info, refl, omega (arith, h))
at-AreNumbered i (info ∷ infos) (suc n) (h, h') l =
    let (found, e, numbered) = at-AreNumbered (suc i) infos n h' (omega (arith, l)) in
    (found, e, omega (arith, numbered))

-- One descriptor for each of `n` layers.
abbrev pub Describes : ℕ → List Info → Type 0
Describes n infos = AreNumbered 0 infos × (length infos ≡ n)

build_infos-Describes :
    (img : Image) (lyrs : List Layer) → IfOk (Describes (length lyrs)) (build_infos img lyrs)
unfolding build_infos
build_infos-Describes img lyrs =
    IfOk-bind (λ _. Unit {0}) (Describes (length lyrs)) img.config_file _
      (IfOk-trivial img.config_file)
      λ cfg _.
        IfOk-elim (Describes (length lyrs)) (ok (infos_from 0 lyrs))
          (λ cf. ok (pair_history (infos_from 0 lyrs) cf.history)) cfg plain
          λ cf.
            let (numbered, same) = pair_history-kept 0 (infos_from 0 lyrs) cf.history plain.0 in
            (numbered, same ∙ plain.1)
  where
    plain : Describes (length lyrs) (infos_from 0 lyrs)
    plain = (infos_from-AreNumbered 0 lyrs, length-infos_from 0 lyrs)

-- The map of a walk that ended, and its descriptors.
abbrev pub IsMapped : FileMap → Type 0
IsMapped m = IsWalked (length m.layers) m.paths × AreNumbered 0 m.layers

walk-IsMapped : (ctx : ℕ → Option Text) (img : Image) → IfOk IsMapped (walk ctx img)
unfolding walk
walk-IsMapped ctx img =
    IfOk-bind (λ _. Unit {0}) IsMapped img.layers _ (IfOk-trivial img.layers)
      λ lyrs _.
        IfOk-bind (Describes (length lyrs)) IsMapped (build_infos img lyrs) _
          (build_infos-Describes img lyrs)
          λ descs described.
            IfOk-bind (IsWalked (length lyrs)) IsMapped (walk_layers ctx 0 lyrs []) _
              (subst (λ n. IfOk (IsWalked n) (walk_layers ctx 0 lyrs [])) (omega arith)
                (walk_layers-IsWalked ctx 0 lyrs [] (tt, λ k. unfold lookup in tt)))
              λ paths walked. (subst (λ n. IsWalked n paths) (sym described.1) walked, described.0)

-- Whatever a walked image maps a path to is the number of a descriptor, so `Lookup` finds it.
pub lookup_path-walk :
    (ctx : ℕ → Option Text) (img : Image) (m : FileMap) (p : Text) (idx : ℕ)
    → walk ctx img ≡ ok m
    → lookup (normalize_path p) m.paths ≡ some idx
    → (info : Info) × (lookup_path m p ≡ some info) × (info.index ≡ idx)
unfolding lookup_path
lookup_path-walk ctx img m p idx h found =
    let ((_, below), numbered) = subst (IfOk IsMapped) h (walk-IsMapped ctx img) in
    let (info, e, same) =
      at-AreNumbered 0 m.layers idx numbered
        (subst (IsBelow (length m.layers)) found (below (normalize_path p))) in
    (info, rw (found, lookup_path) e, omega (arith, same))
