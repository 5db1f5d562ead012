-- ===== src/Matcher.antt =====
-- internal/fingerprint/matcher: matcher.go, the chain of matchers, and cached.go, the cache with an
-- expiry. A matcher's reply may change between calls, so the cache takes the inner reply and the two
-- readings of the clock of each call as arguments; the mutex has no counterpart.
pub mod Laws
mod Tests
use astinus.Base.{
  ℕ, suc, ◌+◌, ◌≡◌, refl, Bool, true, false, ◌&&◌, List, [], ◌∷◌, ◌++◌, Option, none, some, ltb,
  leb, Text, codes, text_eq, nat_eq, ◌==◌, if◌then◌else◌, length,
}
use astinus.Base.Dict.{Dict, lookup, insert, erase}
use astinus.Base.Strings.{to_lower, trim_space}
use astinus.Model.{License}

pub record Match : Type 0 where
  pub name : Text
  pub version : Text
  pub purl : Text
  pub cpes : List Text
  pub licenses : List License
  pub source : Text

pub data MatchError : Type 0 where
  no_match : MatchError
  failed : Text → MatchError

-- What a `Lookup` returns.
pub record Reply : Type 0 where
  pub match : Match
  pub error : Option MatchError

abbrev pub empty_match : Match
empty_match = record { name = []; version = []; purl = []; cpes = []; licenses = []; source = [] }

abbrev pub Matcher : Type 0
Matcher = Text → Text → Reply

-- What the loop of the chain does with a matcher's match and error.
abbrev pub after_reply : Match → Option MatchError → Reply → Reply
after_reply match none rest = record { match = match; error = none }
after_reply match (some no_match) rest = rest
after_reply match (some (failed message)) rest = record {
  match = empty_match;
  error = some (failed message);
}

-- `Chain.Lookup`
unfoldable pub chain_lookup : List Matcher → Matcher
chain_lookup [] alg digest = record { match = empty_match; error = some no_match }
chain_lookup (m ∷ ms) alg digest =
    let r = m alg digest in after_reply r.match r.error (chain_lookup ms alg digest)

pub record CachedEntry : Type 0 where
  pub reply : Reply
  pub inserted : ℕ

pub record CacheOptions : Type 0 where
  pub ttl : ℕ
  pub max_entries : ℕ

pub record Cache : Type 0 where
  pub entries : Dict Text CachedEntry
  pub order : List Text

-- `NewCached`: the options that are not positive get their defaults, an hour being the unit's.
unfoldable pub with_defaults : ℕ → CacheOptions → CacheOptions
with_defaults hour opts = record {
  ttl = if opts.ttl == 0 then hour else opts.ttl;
  max_entries = if opts.max_entries == 0 then 4096 else opts.max_entries;
}

abbrev pub empty_cache : Cache
empty_cache = record { entries = []; order = [] }

unfoldable pub local_key : Text → Text → Text
local_key alg digest = to_lower (trim_space alg) ++ (b':' ∷ to_lower (trim_space digest))

abbrev pub fresh_only :
    CacheOptions → ℕ → Text → Cache → Option CachedEntry → Option CachedEntry × Cache
fresh_only opts now key c none = (none, c)
fresh_only opts now key c (some entry) =
    if ltb (entry.inserted + opts.ttl) now
    then (none, record { entries = erase key c.entries; order = c.order })
    else (some entry, c)

-- `read` at the time `now`
unfoldable pub read : CacheOptions → ℕ → Text → Cache → Option CachedEntry × Cache
read opts now key c = fresh_only opts now key c (lookup key c.entries)

abbrev pub drop_oldest : Cache → Cache
drop_oldest c = elim c.order [
  | [] ↦ c
  | oldest ∷ order ↦ record { entries = erase oldest c.entries; order = order }
]

-- The eviction and the note of the insertion order, for a key that is not there.
abbrev pub make_room : CacheOptions → Text → Cache → Option CachedEntry → Cache
make_room opts key c (some old) = c
make_room opts key c none =
    let room = if leb opts.max_entries (length c.entries) then drop_oldest c else c in
    record { entries = room.entries; order = room.order ++ key ∷ [] }

unfoldable pub store : CacheOptions → Text → CachedEntry → Cache → Cache
store opts key entry c =
    let room = make_room opts key c (lookup key c.entries) in
    record { entries = insert key entry room.entries; order = room.order }

-- Whether an error is none or `ErrNoMatch`.
abbrev pub is_cacheable : Option MatchError → Bool
is_cacheable none = true
is_cacheable (some no_match) = true
is_cacheable (some (failed message)) = false

-- `Lookup` from the outcome of `read` on.
abbrev pub answer : CacheOptions → Text → Reply → ℕ → Option CachedEntry × Cache → Reply × Cache
answer opts key inner later (some entry, c) = (entry.reply, c)
answer opts key inner later (none, c) =
    if is_cacheable inner.error
    then (inner, store opts key (record { reply = inner; inserted = later }) c)
    else (inner, c)

-- `CachedMatcher.Lookup`, where the inner matcher would reply `inner`: the clock shows `now` when the
-- entry is read and `later` when the reply is stored.
unfoldable pub cached_lookup : CacheOptions → Text → Text → Reply → ℕ → ℕ → Cache → Reply × Cache
unfolding read store local_key
cached_lookup opts alg digest inner now later c =
    answer opts (local_key alg digest) inner later (read opts now (local_key alg digest) c)
