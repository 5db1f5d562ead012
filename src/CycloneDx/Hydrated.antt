-- ===== src/CycloneDx/Hydrated.antt =====
-- internal/sbom/cyclonedx/mapper.go: a component's properties after they were written and read.
use astinus.Base.{
  ◌≡◌, refl, ◌∙◌, sym, ap, inl, inr, Bool, true, false, ◌||◌, Option, none, Text, text_eq, nat_eq,
  ◌==◌, if◌then◌else◌, Bool-cases, or_else, count, arith,
}
use astinus.Base.Dict.{Dict, lookup, lookup-erase}
use astinus.Base.Strings.{cut_prefix}
use astinus.Model.{ComponentFields}
use astinus.CycloneDx.Bags.{
  props_from_cdx, map_to_cdx_properties, merge_properties, lookup-merge, lookup-props_from_cdx,
}
use astinus.CycloneDx.Marks.{
  property_origin, property_layer_digest, property_layer_index, property_layer_dockerfile_line,
  property_layer_added_by, extra_cpes, astinus_properties, value_or_empty, read_layer, is_cpe_key,
  values_of, without, erase_marks,
}
use astinus.CycloneDx.MarkLaws.{
  is_mark, is_cpe_key-is_mark, or_else-none, marks, lookup-marks_missing, lookup-marks_origin,
  IsIndexed, read_layer-marks, value_or_empty-given,
}
use astinus.CycloneDx.Values.{
  IsMap, props_from_cdx-IsMap, erase-IsMap, values_of-same, lookup-without,
}
use astinus.CycloneDx.Numbered.{
  numbered, lookup-put_cpes, lookup-numbered_missing, numbered-IsMap, values_of-numbered,
}

-- An entry that is left by an `erase`.
abbrev left : Bool → Option Text → Option Text
left erased o = if erased then none else o

left_any :
    (o g i l a : Bool) (r : Option Text)
    → left a (left l (left i (left g (left o r)))) ≡ left (o || (g || (i || (l || a)))) r
left_any o g i l a r = ground arith

pub lookup-erase_marks :
    (k : Text) (d : Dict Text Text) → lookup k (erase_marks d) ≡ left (is_mark k) (lookup k d)
lookup-erase_marks k d =
    lookup-erase property_layer_added_by k _
    ∙ ap (left (property_layer_added_by == k)) (
        lookup-erase property_layer_dockerfile_line k _
        ∙ ap (left (property_layer_dockerfile_line == k)) (
            lookup-erase property_layer_index k _
            ∙ ap (left (property_layer_index == k)) (
                lookup-erase property_layer_digest k _
                ∙ ap (left (property_layer_digest == k)) (lookup-erase property_origin k d))))
    ∙ left_any (property_origin == k) (property_layer_digest == k) (property_layer_index == k)
        (property_layer_dockerfile_line == k) (property_layer_added_by == k) (lookup k d)

-- The properties as they are read again.
abbrev pub bag : ComponentFields → Dict Text Text
bag c =
    props_from_cdx (map_to_cdx_properties (merge_properties c.properties (astinus_properties c)))

module _ (c : ComponentFields)
    (marked : (k : Text) → is_mark k ≡ true → lookup k c.properties ≡ none)
    (cpe_keys : (k : Text) → is_cpe_key k ≡ true → lookup k c.properties ≡ none) where
  lookup-astinus :
      (k : Text)
      → lookup k (astinus_properties c)
        ≡ or_else
            (lookup k (numbered 1 (extra_cpes c.cpes)))
            (lookup k (marks c.layer_info c.origin))
  unfolding astinus_properties
  lookup-astinus k = lookup-put_cpes k 1 (extra_cpes c.cpes) (marks c.layer_info c.origin)

  lookup-bag :
      (k : Text)
      → lookup k (bag c) ≡ or_else (lookup k (astinus_properties c)) (lookup k c.properties)
  lookup-bag k =
      lookup-props_from_cdx k (merge_properties c.properties (astinus_properties c))
      ∙ lookup-merge k c.properties (astinus_properties c)

  lookup-bag_mark :
      (k : Text)
      → is_mark k ≡ true
      → is_cpe_key k ≡ false
      → lookup k (bag c) ≡ lookup k (marks c.layer_info c.origin)
  lookup-bag_mark k mark other =
      lookup-bag k
      ∙ rw (lookup-astinus k, lookup-numbered_missing k 1 (extra_cpes c.cpes) other, marked k mark)
          (or_else-none (lookup k (marks c.layer_info c.origin)))

  lookup-bag_cpe :
      (k : Text)
      → is_cpe_key k ≡ true
      → lookup k (bag c) ≡ lookup k (numbered 1 (extra_cpes c.cpes))
  lookup-bag_cpe k cpe =
      lookup-bag k
      ∙ rw
          (
            lookup-astinus k,
            lookup-marks_missing k c.origin c.layer_info (is_cpe_key-is_mark k cpe),
            cpe_keys k cpe,
            or_else-none (lookup k (numbered 1 (extra_cpes c.cpes))),
          )
          (or_else-none (lookup k (numbered 1 (extra_cpes c.cpes))))

  lookup-bag_free :
      (k : Text)
      → is_mark k ≡ false
      → is_cpe_key k ≡ false
      → lookup k (bag c) ≡ lookup k c.properties
  lookup-bag_free k mark cpe =
      lookup-bag k
      ∙ rw
          (
            lookup-astinus k,
            lookup-numbered_missing k 1 (extra_cpes c.cpes) cpe,
            lookup-marks_missing k c.origin c.layer_info mark,
          )
          refl

  pub bag-origin : value_or_empty (lookup property_origin (bag c)) ≡ c.origin
  unfolding cut_prefix
  bag-origin =
      ap value_or_empty
        (lookup-bag_mark property_origin refl refl ∙ lookup-marks_origin c.origin c.layer_info)
      ∙ value_or_empty-given c.origin

  pub bag-layer : IsIndexed c.layer_info → read_layer (bag c) ≡ c.layer_info
  unfolding cut_prefix
  bag-layer indexed =
      rw
        (
          lookup-bag_mark property_layer_digest refl refl,
          lookup-bag_mark property_layer_index refl refl,
          lookup-bag_mark property_layer_dockerfile_line refl refl,
          lookup-bag_mark property_layer_added_by refl refl,
        )
        (read_layer-marks c.origin c.layer_info indexed)

  erase_marks-IsMap : (d : Dict Text Text) → IsMap d → IsMap (erase_marks d)
  erase_marks-IsMap d h = erase-IsMap property_layer_added_by _ (
      erase-IsMap property_layer_dockerfile_line _ (
        erase-IsMap property_layer_index _
          (erase-IsMap property_layer_digest _ (erase-IsMap property_origin d h))))

  pub bag-cpes :
      (x : Text)
      → count x (values_of is_cpe_key (erase_marks (bag c))) ≡ count x (extra_cpes c.cpes)
  bag-cpes x =
      values_of-same is_cpe_key x (erase_marks (bag c)) (numbered 1 (extra_cpes c.cpes))
        (erase_marks-IsMap (bag c) (props_from_cdx-IsMap _)) (numbered-IsMap 1 (extra_cpes c.cpes))
        (λ k cpe.
          lookup-erase_marks k (bag c) ∙ rw (is_cpe_key-is_mark k cpe) (lookup-bag_cpe k cpe))
      ∙ ap (count x) (values_of-numbered 1 (extra_cpes c.cpes))

  pub bag-properties :
      (k : Text) → lookup k (without is_cpe_key (erase_marks (bag c))) ≡ lookup k c.properties
  bag-properties k = lookup-without is_cpe_key k (erase_marks (bag c)) ∙ by_kind
    where
      by_kind :
          (if is_cpe_key k then none else lookup k (erase_marks (bag c))) ≡ lookup k c.properties
      by_kind = elim (Bool-cases (is_cpe_key k)) [
        | inl cpe ↦ rw (cpe) (sym (cpe_keys k cpe))
        | inr other ↦ elim (Bool-cases (is_mark k)) [
          | inl mark ↦ rw (other) (lookup-erase_marks k (bag c) ∙ rw (mark) (sym (marked k mark)))
          | inr free ↦
              rw (other) (lookup-erase_marks k (bag c) ∙ rw (free) (lookup-bag_free k free other))
        ]
      ]
