-- ===== src/Registry/Run.antt =====
-- internal/enrich/registry/enricher.go: the resolver on each component, with the cache that it fills.
use astinus.Base.{Bool, List, [], Option, Text, text_eq, ◌==◌, if◌then◌else◌, Result, ok, err}
use astinus.Base.Dict.{Dict}
use astinus.Model.{ComponentFields, Sbom}
use astinus.Model.Walk.{thread_components}
use astinus.Cpe.Purl.{Purl, PurlError, parse_purl}
use astinus.Registry.Resolve.{Metadata, FetchError, Source, MemoryCache, resolve}
use astinus.Registry.Apply.{apply_metadata}

abbrev pub apply_found : Text → Result FetchError Metadata → ComponentFields → ComponentFields
apply_found now (err e) c = c
apply_found now (ok meta) c = apply_metadata now meta c

module _ (unescape : Text → Option Text) (parse_query : Text → Option (Dict Text (List Text)))
    (now : Text) (sources : List Source) (network_ok : Bool) where
  abbrev pub process_parsed :
      Result PurlError Purl → MemoryCache → ComponentFields → MemoryCache × ComponentFields
  process_parsed (err e) cache c = (cache, c)
  process_parsed (ok purl) cache c =
      let (cache', found) = resolve sources network_ok purl cache in
      (cache', apply_found now found c)

  -- `processComponent`
  unfoldable pub process_component : MemoryCache → ComponentFields → MemoryCache × ComponentFields
  unfolding resolve apply_metadata
  process_component cache c =
      if c.purl == []
      then (cache, c)
      else process_parsed (parse_purl unescape parse_query c.purl) cache c

  unfoldable pub enrich : MemoryCache → Sbom → MemoryCache × Sbom
  unfolding process_component
  enrich cache sbom =
      let (cache', comps) = thread_components process_component cache sbom.components in
      (cache', record sbom { components = comps })
