-- ===== src/Enrich/Interface.antt =====
-- internal/enrich/enricher.go. `S` is what Enrich mutates in place (the SBOM); the read-only bundle
-- and the context are captured by the function. An error is its message.
use astinus.Base.{Text, List, Option}

pub record Enricher (S : Type 0) : Type 0 where
  pub name : Text
  pub dependencies : List Text
  pub enrich : S → S × Option Text
