-- ===== src/Registry/Resolve.antt =====
-- internal/enrich/registry: source.go, resolver.go and the memory cache.
use astinus.Base.{
  Bool, true, false, ◌&&◌, ◌||◌, not, List, [], ◌∷◌, ◌++◌, Option, none, some, Text, codes, text_eq,
  nat_eq, ◌==◌, if◌then◌else◌, length, Result, ok, err, or_else,
}
use astinus.Base.Dict.{Dict, lookup, insert}
use astinus.Base.Strings.{to_lower}
use astinus.Cpe.Purl.{Purl}

pub record RegistryLicense : Type 0 where
  pub spdx_id : Text
  pub name : Text
  pub url : Text

pub record Supplier : Type 0 where
  pub name : Text
  pub url : Text
  pub email : Text

-- Of the fields, those that the enricher reads.
pub record Metadata : Type 0 where
  pub description : Text
  pub licenses : List RegistryLicense
  pub supplier : Supplier
  pub author : Text
  pub homepage : Text
  pub repository : Text
  pub bug_tracker : Text
  pub documentation : Text
  pub hashes : Dict Text Text

unfoldable pub is_empty : Metadata → Bool
is_empty m =
    m.description == []
    && (m.author == []
        && (m.homepage == []
            && (m.repository == []
                && (m.bug_tracker == []
                    && (m.documentation == []
                        && (length m.licenses == 0
                            && (m.supplier.name == [] && length m.hashes == 0)))))))

pub data FetchError : Type 0 where
  not_found transient unsupported : FetchError
  other : Text → FetchError

pub record Source : Type 0 where
  pub supports : Text → Bool
  pub requires_network : Bool
  pub fetch : Purl → Result FetchError (Option Metadata)

-- A source's answer, if it is of use.
abbrev pub useful : Result FetchError (Option Metadata) → Option Metadata
useful (err e) = none
useful (ok none) = none
useful (ok (some m)) = if is_empty m then none else some m

-- The loop of `Resolve`: the first answer of use, and whether a source was tried.
unfoldable pub try_sources : Bool → List Source → Purl → Option Metadata × Bool
unfolding is_empty
try_sources network_ok [] purl = (none, false)
try_sources network_ok (src ∷ sources) purl =
    let rest = try_sources network_ok sources purl in
    if src.supports purl.type && (network_ok || not src.requires_network)
    then (or_else (useful (src.fetch purl)) rest.0, true)
    else rest

unfoldable pub canonical_purl_key : Purl → Text
canonical_purl_key p =
    to_lower p.type
    ++ (codes "|"
        ++ (to_lower p.namespace ++ (codes "|" ++ (to_lower p.name ++ (codes "|" ++ p.version)))))

-- `MemoryCache`, in which a nil pointer stands for a package that was not found.
abbrev pub MemoryCache : Type 0
MemoryCache = Dict Text (Option Metadata)

abbrev pub from_cached : Option Metadata → Result FetchError Metadata
from_cached none = err not_found
from_cached (some m) = ok m

abbrev pub remember :
    Text → Option Metadata × Bool → MemoryCache → MemoryCache × Result FetchError Metadata
remember key (some m, tried) cache = (insert key (some m) cache, ok m)
remember key (none, tried) cache =
    (insert key none cache, err (if tried then not_found else unsupported))

abbrev pub resolve_by :
    Text
    → Option Metadata × Bool
    → MemoryCache
    → Option (Option Metadata)
    → MemoryCache × Result FetchError Metadata
resolve_by key tried cache (some cached) = (cache, from_cached cached)
resolve_by key tried cache none = remember key tried cache

unfoldable pub resolve :
    List Source → Bool → Purl → MemoryCache → MemoryCache × Result FetchError Metadata
unfolding try_sources canonical_purl_key
resolve sources network_ok purl cache =
    let key = canonical_purl_key purl in
    resolve_by key (try_sources network_ok sources purl) cache (lookup key cache)
