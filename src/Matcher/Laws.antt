-- ===== src/Matcher/Laws.antt =====
-- What a chain and a cache of matchers may answer.
use mathlib.Core.Option.{some-injective}
use astinus.Base.{
  ℕ, ◌+◌, ◌≤◌, ◌<◌, ◌≡◌, refl, ◌∙◌, sym, ap, ◌⊎◌, inl, inr, Bool, true, false, List, [], ◌∷◌, ◌++◌,
  Option, none, some, arith, ltb, leb, Text, text_eq, nat_eq, ◌==◌, ==_iff, if◌then◌else◌, if_ind,
  Bool-cases, length,
}
use astinus.Base.Dict.{lookup, insert, erase, lookup-insert, lookup-erase}
use astinus.Matcher.{
  Match, MatchError, no_match, failed, Reply, Matcher, after_reply, chain_lookup, CachedEntry,
  CacheOptions, Cache, empty_cache, local_key, fresh_only, read, drop_oldest, make_room, store,
  is_cacheable, answer, cached_lookup,
}

abbrev pub is_miss : Option MatchError → Bool
is_miss (some no_match) = true
is_miss e = false

after_reply-append :
    (match : Match) (e : Option MatchError) (rest more : Reply)
    → after_reply match e (if is_miss rest.error then more else rest)
      ≡ (if is_miss (after_reply match e rest).error then more else after_reply match e rest)
after_reply-append match none rest more = refl
after_reply-append match (some no_match) rest more = refl
after_reply-append match (some (failed message)) rest more = refl

-- A longer chain asks its second part exactly when the first part misses, an error being no miss.
pub chain_lookup-append :
    (ms more : List Matcher) (alg digest : Text)
    → chain_lookup (ms ++ more) alg digest ≡ (
        if is_miss (chain_lookup ms alg digest).error
        then chain_lookup more alg digest
        else chain_lookup ms alg digest)
unfolding chain_lookup
chain_lookup-append [] more alg digest = refl
chain_lookup-append (m ∷ ms) more alg digest =
    ap (after_reply (m alg digest).match (m alg digest).error)
      (chain_lookup-append ms more alg digest)
    ∙ after_reply-append (m alg digest).match (m alg digest).error (chain_lookup ms alg digest)
        (chain_lookup more alg digest)

-- The replies of the inner matcher so far, each with its key and the time at which it would be
-- stored, whether it was or not.
abbrev pub Log : Type 0
Log = List (Text × CachedEntry)

-- No error but `ErrNoMatch`.
abbrev pub IsLasting : Option MatchError → Type 0
IsLasting e = (e ≡ none) ⊎ (e ≡ some no_match)

is_cacheable-IsLasting : (e : Option MatchError) → is_cacheable e ≡ true → IsLasting e
is_cacheable-IsLasting none h = inl refl
is_cacheable-IsLasting (some no_match) h = inr refl
is_cacheable-IsLasting (some (failed message)) h = absurd (cc h)

-- The log has this reply for the key, and it is no error but `ErrNoMatch`.
abbrev pub IsLogged : Log → Text → CachedEntry → Type 0
IsLogged [] k e = ⊥
IsLogged ((j, f) ∷ log) k e = ((j ≡ k) × (f ≡ e) × IsLasting f.reply.error) ⊎ IsLogged log k e

-- The cache holds only what was logged.
abbrev pub IsBacked : Log → Cache → Type 0
IsBacked log c = (k : Text) (e : CachedEntry) → lookup k c.entries ≡ some e → IsLogged log k e

IsBacked-erase :
    (log : Log) (key : Text) (c : Cache) (order : List Text)
    → IsBacked log c
    → IsBacked log (record { entries = erase key c.entries; order = order })
IsBacked-erase log key c order backed k e h = elim (Bool-cases (key == k)) [
  | inl same ↦ absurd (cc (sym (lookup-erase key k c.entries) ∙ h, same))
  | inr other ↦ backed k e (sym (lookup-erase key k c.entries ∙ rw (other) refl) ∙ h)
]

drop_oldest-IsBacked : (log : Log) (c : Cache) → IsBacked log c → IsBacked log (drop_oldest c)
drop_oldest-IsBacked log c backed = by_order c.order
  where
    by_order :
        (order : List Text)
        → IsBacked log (elim order [
          | [] ↦ c
          | oldest ∷ rest ↦ record { entries = erase oldest c.entries; order = rest }
        ])
    by_order [] = backed
    by_order (oldest ∷ rest) = IsBacked-erase log oldest c rest backed

make_room-IsBacked :
    (opts : CacheOptions) (log : Log) (key : Text) (c : Cache) (o : Option CachedEntry)
    → IsBacked log c
    → IsBacked log (make_room opts key c o)
make_room-IsBacked opts log key c (some old) backed = backed
make_room-IsBacked opts log key c none backed =
    if_ind (λ room. IsBacked log room) (leb opts.max_entries (length c.entries))
      (drop_oldest-IsBacked log c backed) backed

store-IsBacked :
    (opts : CacheOptions) (log : Log) (key : Text) (e : CachedEntry) (c : Cache)
    → IsLasting e.reply.error
    → IsBacked log c
    → IsBacked ((key, e) ∷ log) (store opts key e c)
unfolding store
store-IsBacked opts log key e c cacheable backed k f h = elim (Bool-cases (key == k)) [
  | inl same ↦
      inl
        ((==_iff key k).0 same, some-injective e f (sym (written ∙ rw (same) refl) ∙ h), cacheable)
  | inr other ↦ inr (
      make_room-IsBacked opts log key c (lookup key c.entries) backed k f
        (sym (written ∙ rw (other) refl) ∙ h))
]
  where
    room : Cache
    room = make_room opts key c (lookup key c.entries)

    written :
        lookup k (insert key e room.entries) ≡ (if key == k then some e else lookup k room.entries)
    written = lookup-insert key k e room.entries

-- The caches that calls lead to, each with the replies of the inner matcher on the way. A call runs
-- as a whole, or it is cut where it lets go of the mutex: it reads, and it goes on later, from the
-- outcome of its reading, when other calls may have changed the cache.
pub data Reaches (opts : CacheOptions) : Cache → Log → Type 0 where
  started : Reaches opts empty_cache []
  called :
      {c : Cache} {log : Log}
      → Reaches opts c log
      → (alg digest : Text) (inner : Reply) (now later : ℕ)
      → Reaches opts
          (cached_lookup opts alg digest inner now later c).1
          ((local_key alg digest, record { reply = inner; inserted = later }) ∷ log)
  read_only :
      {c : Cache} {log : Log}
      → Reaches opts c log
      → (now : ℕ) (key : Text) → Reaches opts (read opts now key c).1 log
  went_on :
      {c : Cache} {log : Log}
      → Reaches opts c log
      → (key : Text) (inner : Reply) (later : ℕ) (outcome : Option CachedEntry)
      → Reaches opts
          (answer opts key inner later (outcome, c)).1
          ((key, record { reply = inner; inserted = later }) ∷ log)

read-IsBacked :
    (opts : CacheOptions) (log : Log) (now : ℕ) (key : Text) (c : Cache)
    → IsBacked log c
    → IsBacked log (read opts now key c).1
unfolding read
read-IsBacked opts log now key c backed = by_entry (lookup key c.entries)
  where
    by_entry : (o : Option CachedEntry) → IsBacked log (fresh_only opts now key c o).1
    by_entry none = backed
    by_entry (some entry) =
        if_ind (λ (r : Option CachedEntry × Cache). IsBacked log r.1)
          (ltb (entry.inserted + opts.ttl) now) (IsBacked-erase log key c c.order backed) backed

answer-IsBacked :
    (opts : CacheOptions) (log : Log) (key : Text) (inner : Reply) (later : ℕ)
    (o : Option CachedEntry) (c : Cache)
    → IsBacked log c
    → IsBacked
        ((key, record { reply = inner; inserted = later }) ∷ log)
        (answer opts key inner later (o, c)).1
answer-IsBacked opts log key inner later (some e) c backed = λ k f h. inr (backed k f h)
answer-IsBacked opts log key inner later none c backed =
    elim (Bool-cases (is_cacheable inner.error)) [
      | inl lasting ↦
          rw (lasting, answer)
            (store-IsBacked opts log key (record { reply = inner; inserted = later }) c
              (is_cacheable-IsLasting inner.error lasting) backed)
      | inr other ↦ rw (other, answer) (λ k f h. inr (backed k f h))
    ]

cached_lookup-IsBacked :
    (opts : CacheOptions) (log : Log) (alg digest : Text) (inner : Reply) (now later : ℕ)
    (c : Cache)
    → IsBacked log c
    → IsBacked
        ((local_key alg digest, record { reply = inner; inserted = later }) ∷ log)
        (cached_lookup opts alg digest inner now later c).1
unfolding cached_lookup
cached_lookup-IsBacked opts log alg digest inner now later c backed =
    let key = local_key alg digest in
    answer-IsBacked opts log key inner later (read opts now key c).0 (read opts now key c).1
      (read-IsBacked opts log now key c backed)

Reaches-IsBacked :
    (opts : CacheOptions) (c : Cache) (log : Log) → Reaches opts c log → IsBacked log c
Reaches-IsBacked opts c log started = λ k e h. absurd (cc (nothing k, h))
  where
    nothing : (k : Text) → lookup k empty_cache.entries ≡ none
    nothing k = unfold lookup in refl
Reaches-IsBacked opts c log (called {c = before} {log = earlier} r alg digest inner now later) =
    cached_lookup-IsBacked opts earlier alg digest inner now later before
      (Reaches-IsBacked opts before earlier r)
Reaches-IsBacked opts c log (read_only {c = before} r now key) =
    read-IsBacked opts log now key before (Reaches-IsBacked opts before log r)
Reaches-IsBacked opts c log (went_on {c = before} {log = earlier} r key inner later o) =
    answer-IsBacked opts earlier key inner later o before (Reaches-IsBacked opts before earlier r)

-- The entry that a call has to use: the one of the key, unless it has expired.
abbrev pub IsLive : CacheOptions → Cache → Text → ℕ → CachedEntry → Type 0
IsLive opts c key now e = (lookup key c.entries ≡ some e) × (now ≤ e.inserted + opts.ttl)

-- What a call has to return: the reply of the live entry of its key, which was logged, or, where
-- none is live, the inner matcher's reply.
abbrev pub IsSound : CacheOptions → Cache → Log → Text → Reply → ℕ → Reply → Type 0
IsSound opts c log key inner now r =
    ((r ≡ inner) × ((e : CachedEntry) → ¬ (IsLive opts c key now e)))
    ⊎ ((e : CachedEntry) × IsLive opts c key now e × IsLogged log key e × (r ≡ e.reply))

answer-inner :
    (opts : CacheOptions) (key : Text) (inner : Reply) (later : ℕ) (c : Cache)
    → (answer opts key inner later (none, c)).0 ≡ inner
answer-inner opts key inner later c =
    if_ind (λ (x : Reply × Cache). x.0 ≡ inner) (is_cacheable inner.error) refl refl

answer-IsSound :
    (opts : CacheOptions) (c : Cache) (log : Log) (key : Text) (inner : Reply) (now later : ℕ)
    (o : Option CachedEntry)
    → lookup key c.entries ≡ o
    → IsBacked log c
    → IsSound opts c log key inner now (answer opts key inner later (fresh_only opts now key c o)).0
answer-IsSound opts c log key inner now later none found backed =
    inl (answer-inner opts key inner later c, λ e h. absurd (cc (found, h.0)))
answer-IsSound opts c log key inner now later (some e) found backed =
    elim (Bool-cases (ltb (e.inserted + opts.ttl) now)) [
      | inl late ↦
          let old : e.inserted + opts.ttl < now = ground (arith, late) in
          rw (late, fresh_only)
            (inl (
              answer-inner opts key inner later _,
              λ f h.
                  let same : e ≡ f = some-injective e f (sym found ∙ h.0) in
                  absurd (not_live e f same old h.1),
            ))
      | inr fresh ↦
          rw (fresh, fresh_only) (inr (e, (found, ground (arith, fresh)), backed key e found, refl))
    ]
  where
    not_live :
        (e f : CachedEntry) → e ≡ f → e.inserted + opts.ttl < now → now ≤ f.inserted + opts.ttl → ⊥
    not_live e f same old live = omega (arith, old, live, ap (λ x. x.inserted) same)

-- However calls follow one another or interleave, a call of the cache returns the reply of the entry
-- of its key that has not expired, which is an earlier reply of the inner matcher for the same key
-- and no error but `ErrNoMatch`; where there is none, it returns the inner matcher's reply.
pub cached_lookup-IsSound :
    (opts : CacheOptions) (c : Cache) (log : Log) (alg digest : Text) (inner : Reply)
    (now later : ℕ)
    → Reaches opts c log
    → IsSound opts c log
        (local_key alg digest)
        inner
        now
        (cached_lookup opts alg digest inner now later c).0
unfolding cached_lookup read
cached_lookup-IsSound opts c log alg digest inner now later r =
    answer-IsSound opts c log (local_key alg digest) inner now later
      (lookup (local_key alg digest) c.entries) refl (Reaches-IsBacked opts c log r)
