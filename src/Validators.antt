-- ===== src/Validators.antt =====
-- internal/policy/builtin/compliance: the validators, each of which lists what an SBOM lacks. The quoting of
-- `%q` is a parameter. The loops that append to one slice are concatenations.
pub mod Ntia
pub mod Structural
pub mod EuCra
pub mod Config
pub mod Laws
pub mod Duplicates
mod Tests
use astinus.Base.{
  ℕ, ◌≡◌, refl, Bool, true, false, List, [], ◌∷◌, ◌++◌, Text, codes, text_eq, nat_eq, ◌==◌,
  if◌then◌else◌,
}
use astinus.Model.{ComponentFields, SubComponents, nil, cons, Component}
use astinus.Compliance.{Severity, Finding}

abbrev pub finding : Severity → Text → Text → Text → Text → Finding
finding severity rule_id component message reference = record {
  severity = severity;
  rule_id = rule_id;
  component = component;
  message = message;
  reference = reference;
}

-- A finding under a condition.
abbrev pub flag : Bool → Finding → List Finding
flag b f = if b then f ∷ [] else []

-- Two characters outside ASCII.
abbrev pub em_dash : Text
em_dash = 226 ∷ 128 ∷ 148 ∷ []

abbrev pub section_sign : Text
section_sign = 194 ∷ 167 ∷ []

abbrev pub component_label : ComponentFields → Text
component_label c =
    if c.name == [] then if c.bom_ref == [] then codes "<unnamed>" else c.bom_ref else c.name

abbrev pub file_type : Text
file_type = codes "file"

-- The recursive loops over components: what is passed over, with its sub-components, and what the
-- others add.
module _ (skips : ComponentFields → Bool) (check : ComponentFields → List Finding) where
  unfoldable pub collect_below : SubComponents → List Finding
  collect_below nil = []
  collect_below (cons c below next) =
      let inside = collect_below below in
      let rest = collect_below next in if skips c then rest else check c ++ (inside ++ rest)

  unfoldable pub collect : List Component → List Finding
  unfolding collect_below
  collect [] = []
  collect (c ∷ comps) =
      let rest = collect comps in
      if skips c.fields then rest else check c.fields ++ (collect_below c.sub_components ++ rest)

abbrev pub skips_files : ComponentFields → Bool
skips_files c = c.type == file_type

abbrev pub skips_none : ComponentFields → Bool
skips_none c = false
