-- ===== src/CycloneDx/MarkLaws.antt =====
-- internal/sbom/cyclonedx/mapper.go: the properties of astinusProperties, read by hydrateAstinusFields.
use astinus.Base.{
  ◌^◌, ◌<◌, ◌≡◌, refl, ◌∙◌, ap, inl, inr, Bool, true, false, ◌||◌, [], ◌∷◌, Option, none, some,
  Text, text_eq, nat_eq, ◌==◌, ==_iff, if◌then◌else◌, Bool-cases, or_else, arith,
}
use astinus.Base.Dict.{Dict, lookup, lookup-insert}
use astinus.Base.Decimal.{format_nat}
use astinus.Base.Decimal.Atoi.{atoi-format_nat}
use astinus.Base.Strings.{cut_prefix}
use astinus.Model.{LayerInfo}
use astinus.CycloneDx.Marks.{
  property_origin, property_layer_digest, property_layer_index, property_layer_dockerfile_line,
  property_layer_added_by, put_given, put_layer, value_or_empty, was_given, layer_of, read_layer,
  is_cpe_key,
}

-- One of the keys of the origin and of the layer.
abbrev pub is_mark : Text → Bool
is_mark k =
    property_origin == k
    || (property_layer_digest == k
        || (property_layer_index == k
            || (property_layer_dockerfile_line == k || property_layer_added_by == k)))

abbrev pub given : Text → Option Text
given v = if v == [] then none else some v

pub value_or_empty-given : (v : Text) → value_or_empty (given v) ≡ v
value_or_empty-given [] = refl
value_or_empty-given (c ∷ v) = refl

pub or_else-none : (o : Option Text) → or_else o none ≡ o
or_else-none none = refl
or_else-none (some v) = refl

-- An entry, or what stands below it.
abbrev entry : Bool → Option Text → Option Text → Option Text
entry here o rest = if here then or_else o rest else rest

lookup-put_given :
    (k j v : Text) (out : Dict Text Text)
    → lookup k (put_given j v out) ≡ entry (j == k) (given v) (lookup k out)
lookup-put_given k j [] out = ground arith
lookup-put_given k j (c ∷ v) out = lookup-insert j k (c ∷ v) out

-- A key that is no mark differs from each mark.
pub no_mark :
    (k : Text)
    → is_mark k ≡ false
    → ((property_origin == k) ≡ false)
      × ((property_layer_digest == k) ≡ false)
      × ((property_layer_index == k) ≡ false)
      × ((property_layer_dockerfile_line == k) ≡ false)
      × ((property_layer_added_by == k) ≡ false)
no_mark k h =
    split (property_origin == k) (property_layer_digest == k) (property_layer_index == k)
      (property_layer_dockerfile_line == k) (property_layer_added_by == k) h
  where
    split :
        (a b c d e : Bool)
        → (a || (b || (c || (d || e)))) ≡ false
        → (a ≡ false) × (b ≡ false) × (c ≡ false) × (d ≡ false) × (e ≡ false)
    split false false false false false h = (refl, refl, refl, refl, refl)
    split true b c d e h = absurd (cc h)
    split false true c d e h = absurd (cc h)
    split false false true d e h = absurd (cc h)
    split false false false true e h = absurd (cc h)
    split false false false false true h = absurd (cc h)

not_mark : (k j : Text) → is_cpe_key k ≡ true → is_cpe_key j ≡ false → (j == k) ≡ false
not_mark k j h f = elim (Bool-cases (j == k)) [
  | inl same ↦ absurd (cc (h, f, (==_iff j k).0 same))
  | inr other ↦ other
]

pub is_cpe_key-is_mark : (k : Text) → is_cpe_key k ≡ true → is_mark k ≡ false
unfolding cut_prefix
is_cpe_key-is_mark k h =
    rw
      (
        not_mark k property_origin h refl,
        not_mark k property_layer_digest h refl,
        not_mark k property_layer_index h refl,
        not_mark k property_layer_dockerfile_line h refl,
        not_mark k property_layer_added_by h refl,
      )
      refl

-- What is written of the origin and the layer.
abbrev pub marks : Option LayerInfo → Text → Dict Text Text
marks li origin = put_layer li (put_given property_origin origin [])

lookup-marks_layer :
    (k origin : Text) (li : LayerInfo)
    → lookup k (marks (some li) origin)
      ≡ entry (property_layer_added_by == k) (given li.added_by) (
          entry (property_layer_dockerfile_line == k) (given li.dockerfile_line) (
            entry (property_layer_index == k) (some (format_nat li.layer_index)) (
              entry
                (property_layer_digest == k)
                (given li.layer_digest)
                (entry (property_origin == k) (given origin) none))))
unfolding lookup
lookup-marks_layer k origin li =
    lookup-put_given k property_layer_added_by li.added_by _
    ∙ ap (entry (property_layer_added_by == k) (given li.added_by)) (
        lookup-put_given k property_layer_dockerfile_line li.dockerfile_line _
        ∙ ap (entry (property_layer_dockerfile_line == k) (given li.dockerfile_line)) (
            lookup-insert property_layer_index k (format_nat li.layer_index) _
            ∙ ap (entry (property_layer_index == k) (some (format_nat li.layer_index))) (
                lookup-put_given k property_layer_digest li.layer_digest _
                ∙ ap (entry (property_layer_digest == k) (given li.layer_digest))
                    (lookup-put_given k property_origin origin []))))

lookup-marks_bare :
    (k origin : Text)
    → lookup k (marks none origin) ≡ entry (property_origin == k) (given origin) none
unfolding lookup
lookup-marks_bare k origin = lookup-put_given k property_origin origin []

pub lookup-marks_missing :
    (k origin : Text) (li : Option LayerInfo)
    → is_mark k ≡ false
    → lookup k (marks li origin) ≡ none
lookup-marks_missing k origin none h =
    let (o, _, _, _, _) = no_mark k h in lookup-marks_bare k origin ∙ rw (o) refl
lookup-marks_missing k origin (some li) h =
    let (o, d, i, l, a) = no_mark k h in lookup-marks_layer k origin li ∙ rw (o, d, i, l, a) refl

pub lookup-marks_origin :
    (origin : Text) (li : Option LayerInfo)
    → lookup property_origin (marks li origin) ≡ given origin
lookup-marks_origin origin none =
    lookup-marks_bare property_origin origin ∙ or_else-none (given origin)
lookup-marks_origin origin (some li) =
    lookup-marks_layer property_origin origin li ∙ or_else-none (given origin)

-- The index of the layer is an int64.
abbrev pub IsIndexed : Option LayerInfo → Type 0
IsIndexed none = Unit
IsIndexed (some li) = li.layer_index < 2 ^ 63

pub or_true : (b : Bool) → (b || true) ≡ true
or_true true = refl
or_true false = refl

read_layer-given :
    (li : LayerInfo)
    → IsIndexed (some li)
    → layer_of
        (given li.layer_digest)
        (some (format_nat li.layer_index))
        (given li.dockerfile_line)
        (given li.added_by)
      ≡ some li
read_layer-given li h =
    rw
      (
        or_true (was_given (given li.layer_digest)),
        value_or_empty-given li.layer_digest,
        value_or_empty-given li.dockerfile_line,
        value_or_empty-given li.added_by,
        atoi-format_nat li.layer_index h,
      )
      refl

pub read_layer-marks :
    (origin : Text) (li : Option LayerInfo) → IsIndexed li → read_layer (marks li origin) ≡ li
read_layer-marks origin none h =
    rw
      (
        lookup-marks_bare property_layer_digest origin,
        lookup-marks_bare property_layer_index origin,
        lookup-marks_bare property_layer_dockerfile_line origin,
        lookup-marks_bare property_layer_added_by origin,
      )
      refl
read_layer-marks origin (some li) h =
    rw
      (
        lookup-marks_layer property_layer_digest origin li,
        lookup-marks_layer property_layer_index origin li,
        lookup-marks_layer property_layer_dockerfile_line origin li,
        lookup-marks_layer property_layer_added_by origin li,
        or_else-none (given li.layer_digest),
        or_else-none (given li.dockerfile_line),
        or_else-none (given li.added_by),
      )
      (read_layer-given li h)
