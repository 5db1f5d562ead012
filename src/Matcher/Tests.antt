-- ===== src/Matcher/Tests.antt =====
-- Small chains and caches, and the theorems at them.
use astinus.Base.{ℕ, ◌≡◌, refl, [], ◌∷◌, map, none, some, Text, codes, text_eq, nat_eq}
use astinus.Base.Dict.{lookup, insert, erase}
use astinus.Base.Strings.{to_lower, trim_space}
use astinus.Matcher.{
  no_match, Reply, Matcher, empty_match, chain_lookup, CachedEntry, CacheOptions, Cache,
  empty_cache, local_key, read, store, cached_lookup,
}
use astinus.Matcher.Laws.{started, called, IsSound, cached_lookup-IsSound}

matching : Unit {0}
unfolding chain_lookup local_key read store cached_lookup lookup insert erase to_lower trim_space
matching = tt

abbrev hit : Text → Reply
hit source = record {
  match = record {
    name = codes "jq";
    version = [];
    purl = [];
    cpes = [];
    licenses = [];
    source = source;
  };
  error = none;
}

abbrev miss : Matcher
miss alg digest = record { match = empty_match; error = some no_match }

abbrev registry : Matcher
registry alg digest = hit alg

run_chain : chain_lookup (miss ∷ registry ∷ miss ∷ []) (codes "sha256") [] ≡ hit (codes "sha256")
unfolding matching
run_chain = refl

abbrev opts : CacheOptions
opts = record { ttl = 10; max_entries = 1 }

abbrev at : ℕ → CachedEntry
at n = record { reply = hit (codes "first"); inserted = n }

abbrev key : Text
key = codes "sha256:ab"

-- The cache after one call, whose reply was stored at 3.
abbrev filled : Cache
filled = (cached_lookup opts (codes "sha256") (codes "ab") (hit (codes "first")) 2 3 empty_cache).1

cached_lookup-IsSound_example :
    IsSound opts filled
      ((local_key (codes "sha256") (codes "ab"), at 3) ∷ [])
      (local_key (codes "SHA256") (codes " AB"))
      (hit (codes "second"))
      9
      (cached_lookup opts (codes "SHA256") (codes " AB") (hit (codes "second")) 9 10 filled).0
cached_lookup-IsSound_example =
    cached_lookup-IsSound opts filled ((local_key (codes "sha256") (codes "ab"), at 3) ∷ [])
      (codes "SHA256") (codes " AB") (hit (codes "second")) 9 10
      (called started (codes "sha256") (codes "ab") (hit (codes "first")) 2 3)

run_cached :
    (cached_lookup opts (codes "SHA256") (codes " AB") (hit (codes "second")) 9 10 filled).0
    ≡ hit (codes "first")
unfolding matching
run_cached = refl

-- The key of an expired entry stays in the order, so the cache comes to hold more than it may.
run_overfull :
    map
      (λ e. e.0)
      (store opts (codes "c") (at 21) (
        store opts (codes "b") (at 20) (
          store opts
            (codes "a")
            (at 20)
            (read opts 20 (codes "a") (store opts (codes "a") (at 0) empty_cache)).1))).entries
    ≡ codes "b" ∷ codes "c" ∷ []
unfolding matching
run_overfull = refl
