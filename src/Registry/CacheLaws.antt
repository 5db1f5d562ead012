-- ===== src/Registry/CacheLaws.antt =====
-- internal/enrich/registry/resolver.go and enricher.go: the cache against the sources without one.
use astinus.Base.{
  ◌≡◌, refl, ap, ◌⊎◌, inl, inr, Bool, List, [], ◌∷◌, Option, none, some, Text, text_eq, ◌==◌,
  if◌then◌else◌, Bool-cases, Option-cases, Result, ok, err, All,
}
use astinus.Base.Dict.{Dict, lookup, insert}
use astinus.Base.Memo.{IsMemo, insert-IsMemo}
use astinus.Model.{ComponentFields, Sbom}
use astinus.Model.Walk.{walk_components, all_components, thread_components-walk_components}
use astinus.Cpe.Purl.{Purl, PurlError, parse_purl}
use astinus.Registry.Resolve.{
  Metadata, Source, try_sources, canonical_purl_key, MemoryCache, from_cached, remember, resolve,
}
use astinus.Registry.Apply.{apply_metadata}
use astinus.Registry.Run.{apply_found, process_parsed, process_component, enrich}

-- What an answer of the sources changes.
abbrev pub apply_answer : Text → Option Metadata → ComponentFields → ComponentFields
apply_answer now none c = c
apply_answer now (some meta) c = apply_metadata now meta c

module _ (sources : List Source) (network_ok : Bool) (S : Purl → Type 0) where
  -- Of the purls in question, the sources answer alike for any two that the cache takes for one.
  abbrev pub AreAlike : Type 0
  AreAlike =
      (p q : Purl)
      → S p
      → S q
      → canonical_purl_key p ≡ canonical_purl_key q
      → (try_sources network_ok sources p).0 ≡ (try_sources network_ok sources q).0

  abbrev key_of : (q : Purl) × S q → Text
  key_of x = canonical_purl_key x.0

  abbrev value_of : (q : Purl) × S q → Option Metadata
  value_of x = (try_sources network_ok sources x.0).0

  -- An entry is what the sources answer for every purl in question of its key.
  abbrev pub IsSound : MemoryCache → Type 0
  IsSound = IsMemo key_of value_of

module _ (sources : List Source) (network_ok : Bool) where
  module _ (unescape : Text → Option Text) (parse_query : Text → Option (Dict Text (List Text)))
      (now : Text) where
    abbrev pub answer_parsed : Result PurlError Purl → ComponentFields → ComponentFields
    answer_parsed (err e) c = c
    answer_parsed (ok p) c = apply_answer now (try_sources network_ok sources p).0 c

    -- The enricher's work on one component, each time by the sources.
    abbrev pub process_uncached : ComponentFields → ComponentFields
    process_uncached c =
        if c.purl == [] then c else answer_parsed (parse_purl unescape parse_query c.purl) c

  module _ (S : Purl → Type 0) (alike : AreAlike sources network_ok S) where
    resolve-IsSound :
        (now : Text) (p : Purl) (cache : MemoryCache) (c : ComponentFields)
        → S p
        → IsSound sources network_ok S cache
        → IsSound sources network_ok S (resolve sources network_ok p cache).0
          × (apply_found now (resolve sources network_ok p cache).1 c
              ≡ apply_answer now (try_sources network_ok sources p).0 c)
    unfolding resolve
    resolve-IsSound now p cache c listed sound =
        elim (Option-cases (lookup (canonical_purl_key p) cache)) [
          | inl missing ↦ rw (missing) (fresh (try_sources network_ok sources p) refl)
          | inr (v, there) ↦
              rw (there, sound (canonical_purl_key p) v there (p, listed) refl) (sound, cached v)
        ]
      where
        cached : (v : Option Metadata) → apply_found now (from_cached v) c ≡ apply_answer now v c
        cached none = refl
        cached (some m) = refl

        keep_answer :
            (v : Option Metadata)
            → (try_sources network_ok sources p).0 ≡ v
            → IsSound sources network_ok S (insert (canonical_purl_key p) v cache)
        keep_answer v e =
            insert-IsMemo (key_of sources network_ok S) (value_of sources network_ok S)
              (λ q r same. alike q.0 r.0 q.1 r.1 same) (p, listed) v cache e sound

        fresh :
            (r : Option Metadata × Bool)
            → try_sources network_ok sources p ≡ r
            → IsSound sources network_ok S (remember (canonical_purl_key p) r cache).0
              × (apply_found now (remember (canonical_purl_key p) r cache).1 c
                  ≡ apply_answer now r.0 c)
        fresh (none, tried) e = (keep_answer none (ap (λ x. x.0) e), refl)
        fresh (some m, tried) e = (keep_answer (some m) (ap (λ x. x.0) e), refl)

    module _ (unescape : Text → Option Text) (parse_query : Text → Option (Dict Text (List Text)))
        (now : Text) where
      process_component-IsSound :
          (cache : MemoryCache) (c : ComponentFields)
          → ((p : Purl) → parse_purl unescape parse_query c.purl ≡ ok p → S p)
          → IsSound sources network_ok S cache
          → IsSound sources network_ok S
              (process_component unescape parse_query now sources network_ok cache c).0
            × ((process_component unescape parse_query now sources network_ok cache c).1
                ≡ process_uncached unescape parse_query now c)
      unfolding process_component
      process_component-IsSound cache c listed sound = elim (Bool-cases (c.purl == [])) [
        | inl empty ↦ rw (empty) (sound, refl)
        | inr full ↦ rw (full) (by_purl (parse_purl unescape parse_query c.purl) refl)
      ]
        where
          by_purl :
              (r : Result PurlError Purl)
              → parse_purl unescape parse_query c.purl ≡ r
              → IsSound sources network_ok S
                  (process_parsed unescape parse_query now sources network_ok r cache c).0
                × ((process_parsed unescape parse_query now sources network_ok r cache c).1
                    ≡ answer_parsed unescape parse_query now r c)
          by_purl (err e) read = (sound, refl)
          by_purl (ok p) read = resolve-IsSound now p cache c (listed p read) sound

-- One of the components has this purl.
abbrev pub IsPurlOf : (Text → Result PurlError Purl) → List ComponentFields → Purl → Type 0
IsPurlOf parse [] p = ⊥
IsPurlOf parse (c ∷ cs) p = (parse c.purl ≡ ok p) ⊎ IsPurlOf parse cs p

-- Whatever a component's purl is read as is the purl of one of these.
abbrev IsListed : (Text → Result PurlError Purl) → List ComponentFields → ComponentFields → Type 0
IsListed parse cs c = (p : Purl) → parse c.purl ≡ ok p → IsPurlOf parse cs p

IsListed-more :
    (parse : Text → Result PurlError Purl) (d : ComponentFields) (cs more : List ComponentFields)
    → All (IsListed parse cs) more
    → All (IsListed parse (d ∷ cs)) more
IsListed-more parse d cs [] h = tt
IsListed-more parse d cs (c ∷ more) (l, h) = ((λ p e. inr (l p e)), IsListed-more parse d cs more h)

IsListed-all :
    (parse : Text → Result PurlError Purl) (cs : List ComponentFields) → All (IsListed parse cs) cs
IsListed-all parse [] = tt
IsListed-all parse (c ∷ cs) = ((λ p e. inl e), IsListed-more parse c cs cs (IsListed-all parse cs))

-- A purl of the SBOM.
abbrev pub IsSbomPurl :
    (Text → Option Text) → (Text → Option (Dict Text (List Text))) → Sbom → Purl → Type 0
IsSbomPurl unescape parse_query sbom =
    IsPurlOf (parse_purl unescape parse_query) (all_components sbom.components)

-- Where the sources answer alike for any two purls of the SBOM that have one cache key, and from a cache
-- whose entries are what the sources answer for the purls of the SBOM, as the empty one's are, the
-- registry enricher gives each component, nested ones included, exactly what asking the sources anew for
-- that component would give, changes nothing else of the SBOM, and leaves such a cache.
pub enrich-walk_components :
    (unescape : Text → Option Text) (parse_query : Text → Option (Dict Text (List Text)))
    (now : Text) (sources : List Source) (network_ok : Bool) (cache : MemoryCache) (sbom : Sbom)
    → AreAlike sources network_ok (IsSbomPurl unescape parse_query sbom)
    → IsSound sources network_ok (IsSbomPurl unescape parse_query sbom) cache
    → IsSound sources network_ok
        (IsSbomPurl unescape parse_query sbom)
        (enrich unescape parse_query now sources network_ok cache sbom).0
      × ((enrich unescape parse_query now sources network_ok cache sbom).1 ≡ record sbom {
        components =
            walk_components
              (process_uncached sources network_ok unescape parse_query now)
              sbom.components;
      })
unfolding enrich
enrich-walk_components unescape parse_query now sources network_ok cache sbom alike sound =
    let (sound', same) =
      thread_components-walk_components
        (process_component unescape parse_query now sources network_ok)
        (IsSound sources network_ok (IsSbomPurl unescape parse_query sbom))
        (IsListed (parse_purl unescape parse_query) (all_components sbom.components))
        (process_uncached sources network_ok unescape parse_query now)
        (λ s c.
          process_component-IsSound sources network_ok (IsSbomPurl unescape parse_query sbom) alike
            unescape parse_query now s c)
        cache sbom.components
        (IsListed-all (parse_purl unescape parse_query) (all_components sbom.components)) sound in
    (sound', ap (λ comps. record sbom { components = comps }) same)
