-- ===== src/Cpe/Sources.antt =====
-- internal/enrich/cpe/sources: source.go, the cache of cache.go, and the choice of multi.go among the
-- sources of candidates. A source is what it answers, and the logs are left out.
use astinus.Base.{
  ◌≡◌, refl, Bool, true, false, ◌&&◌, ◌||◌, not, List, [], ◌∷◌, ◌++◌, Option, none, some, Text,
  codes, text_eq, nat_eq, ◌==◌, if◌then◌else◌, ltb, leb, keep, ℕ, Result, ok, err,
}
use astinus.Base.Dict.{Dict, lookup, insert}
use astinus.Base.Sort.{sort_stable}
use astinus.Cpe.Candidates.{Candidate, default_threshold}
use astinus.Cpe.Purl.{Purl}
pub mod Laws
mod Tests

pub data Mode : Type 0 where
  online offline hybrid : Mode

-- `Mode`, in which a value that is not known stands for hybrid.
unfoldable pub mode_of : Text → Mode
mode_of s = if s == codes "online" then online else if s == codes "offline" then offline else hybrid

abbrev pub is_offline : Mode → Bool
is_offline offline = true
is_offline m = false

abbrev pub is_hybrid : Mode → Bool
is_hybrid hybrid = true
is_hybrid m = false

pub record CandidateSource : Type 0 where
  pub priority : ℕ
  pub requires_network : Bool
  pub match : Purl → Result Text (List Candidate)

-- The sources of `NewMultiSource`.
unfoldable pub new_multi_source : Mode → List CandidateSource → List CandidateSource
unfolding sort_stable
new_multi_source mode sources =
    sort_stable (λ s t. ltb t.priority s.priority)
      (keep (λ s. not (is_offline mode && s.requires_network)) sources)

unfoldable pub has_high_confidence : List Candidate → Bool
has_high_confidence [] = false
has_high_confidence (c ∷ cands) =
    let rest = has_high_confidence cands in
    if leb default_threshold.primary_min c.confidence then true else rest

abbrev pub found : Result Text (List Candidate) → List Candidate
found (ok cands) = cands
found (err e) = []

-- The loop of `resolveCtx`.
unfoldable pub match_sources : Mode → Bool → List CandidateSource → Purl → List Candidate
unfolding has_high_confidence
match_sources mode have_offline_high [] p = []
match_sources mode have_offline_high (src ∷ sources) p =
    let skipped = is_hybrid mode && (have_offline_high && src.requires_network) in
    let cands = if skipped then [] else found (src.match p) in
    let high = have_offline_high || (not src.requires_network && has_high_confidence cands) in
    cands ++ match_sources mode high sources p

unfoldable pub purl_cache_key : Purl → Text
purl_cache_key p =
    p.type ++ (codes "|" ++ (p.namespace ++ (codes "|" ++ (p.name ++ (codes "|" ++ p.version)))))

abbrev pub Cache : Type 0
Cache = Dict Text (List Candidate)

abbrev pub or_match :
    Text → List Candidate → Cache → Option (List Candidate) → Cache × List Candidate
or_match key all cache (some cached) = (cache, cached)
or_match key all cache none = (insert key all cache, all)

unfoldable pub resolve_ctx : Mode → List CandidateSource → Purl → Cache → Cache × List Candidate
unfolding match_sources purl_cache_key
resolve_ctx mode sources p cache =
    let key = purl_cache_key p in
    or_match key (match_sources mode false sources p) cache (lookup key cache)
