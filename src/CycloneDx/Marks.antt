-- ===== src/CycloneDx/Marks.antt =====
-- internal/sbom/cyclonedx/mapper.go: the fields that only the canonical model has, as properties.
-- A negative layer index, which no layer has, is read as an index that is no number.
use astinus.Base.{
  ℕ, suc, Bool, true, false, ◌||◌, List, [], ◌∷◌, ◌++◌, Option, none, some, Text, codes, text_eq,
  nat_eq, ◌==◌, if◌then◌else◌,
}
use astinus.Base.Dict.{Dict, lookup, insert, erase}
use astinus.Base.Decimal.{ℤ, pos, negsuc, format_nat, atoi}
use astinus.Base.Strings.{has_prefix}
use astinus.Model.{LayerInfo, ComponentFields}

abbrev pub property_origin : Text
property_origin = codes "astinus:origin"

abbrev pub property_layer_digest : Text
property_layer_digest = codes "astinus:layer:digest"

abbrev pub property_layer_index : Text
property_layer_index = codes "astinus:layer:index"

abbrev pub property_layer_dockerfile_line : Text
property_layer_dockerfile_line = codes "astinus:layer:dockerfile-line"

abbrev pub property_layer_added_by : Text
property_layer_added_by = codes "astinus:layer:added-by"

abbrev pub cpe_prefix : Text
cpe_prefix = codes "astinus:cpe:"

-- `if v != "" { out[k] = v }`
abbrev pub put_given : Text → Text → Dict Text Text → Dict Text Text
put_given k v out = if v == [] then out else insert k v out

abbrev pub put_layer : Option LayerInfo → Dict Text Text → Dict Text Text
put_layer none out = out
put_layer (some li) out = put_given property_layer_added_by li.added_by (
    put_given property_layer_dockerfile_line li.dockerfile_line (
      insert property_layer_index (format_nat li.layer_index)
        (put_given property_layer_digest li.layer_digest out)))

abbrev pub numbered_key : ℕ → Text
numbered_key i = cpe_prefix ++ format_nat i

-- The CPEs from the `i`th on, each under its number; the last is put in first, which makes no
-- difference since the numbers differ.
unfoldable pub put_cpes : ℕ → List Text → Dict Text Text → Dict Text Text
unfolding format_nat
put_cpes i [] out = out
put_cpes i (cpe ∷ cpes) out = insert (numbered_key i) cpe (put_cpes (suc i) cpes out)

abbrev pub extra_cpes : List Text → List Text
extra_cpes [] = []
extra_cpes (first ∷ cpes) = cpes

unfoldable pub astinus_properties : ComponentFields → Dict Text Text
unfolding put_cpes
astinus_properties c =
    put_cpes 1 (extra_cpes c.cpes) (put_layer c.layer_info (put_given property_origin c.origin []))

-- A property that is read and deleted: its value, the empty text if it is not there.
abbrev pub value_or_empty : Option Text → Text
value_or_empty none = []
value_or_empty (some v) = v

abbrev pub was_given : Option Text → Bool
was_given none = false
was_given (some v) = true

abbrev pub nat_or_zero : Option ℤ → ℕ
nat_or_zero none = 0
nat_or_zero (some (negsuc n)) = 0
nat_or_zero (some (pos n)) = n

abbrev pub read_index : Option Text → ℕ
read_index none = 0
read_index (some v) = nat_or_zero (atoi v)

abbrev pub layer_of : Option Text → Option Text → Option Text → Option Text → Option LayerInfo
layer_of digest index line added_by =
    if was_given digest || (was_given index || (was_given line || was_given added_by))
    then some (record {
      layer_digest = value_or_empty digest;
      layer_index = read_index index;
      dockerfile_line = value_or_empty line;
      added_by = value_or_empty added_by;
    })
    else none

abbrev pub read_layer : Dict Text Text → Option LayerInfo
read_layer props =
    layer_of (lookup property_layer_digest props) (lookup property_layer_index props)
      (lookup property_layer_dockerfile_line props) (lookup property_layer_added_by props)

abbrev pub is_cpe_key : Text → Bool
is_cpe_key k = has_prefix k cpe_prefix

-- The values under the keys that pass a test, and the other entries.
module _ (p : Text → Bool) where
  unfoldable pub values_of : Dict Text Text → List Text
  values_of [] = []
  values_of ((k, v) ∷ props) = let rest = values_of props in if p k then v ∷ rest else rest

  unfoldable pub without : Dict Text Text → Dict Text Text
  without [] = []
  without ((k, v) ∷ props) = let rest = without props in if p k then rest else (k, v) ∷ rest

abbrev pub erase_marks : Dict Text Text → Dict Text Text
erase_marks props = erase property_layer_added_by (
    erase property_layer_dockerfile_line
      (erase property_layer_index (erase property_layer_digest (erase property_origin props))))

-- `hydrateAstinusFields`, for a component that has no origin and no layer yet.
unfoldable pub hydrate_astinus_fields : ComponentFields → ComponentFields
unfolding atoi values_of without
hydrate_astinus_fields c = record c {
  origin = value_or_empty (lookup property_origin c.properties);
  layer_info = read_layer c.properties;
  cpes = c.cpes ++ values_of is_cpe_key (erase_marks c.properties);
  properties = without is_cpe_key (erase_marks c.properties);
}
