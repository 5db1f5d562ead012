-- ===== src/Model/Samples.antt =====
-- Small values of the model, for the tests.
use astinus.Base.{List, [], none, Text}
use astinus.Model.{ComponentFields, Component, nil, Sbom}

-- A component of which only the reference is known.
abbrev pub bare : Text → ComponentFields
bare ref = record {
  bom_ref = ref;
  type = [];
  group = [];
  name = [];
  version = [];
  description = [];
  scope = [];
  purl = [];
  cpes = [];
  hashes = [];
  licenses = [];
  supplier = [];
  author = [];
  publisher = [];
  copyright = [];
  properties = [];
  evidence = none;
  layer_info = none;
  origin = [];
}

abbrev pub leaf : ComponentFields → Component
leaf c = record { fields = c; sub_components = nil }

abbrev pub sbom_of : List Component → Sbom
sbom_of comps = record {
  metadata = record {
    timestamp = record { seconds = 0; nanos = 0 };
    authors = [];
    tools = [];
    component = none;
    properties = [];
  };
  components = comps;
  relationships = [];
  properties = [];
  source_format = [];
}
