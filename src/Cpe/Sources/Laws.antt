-- ===== src/Cpe/Sources/Laws.antt =====
-- internal/enrich/cpe/sources/multi.go: which sources are asked, and what the cache may answer.
use mathlib.Core.List.{Perm}
use mathlib.Core.Path.{subst}
use astinus.Base.{
  ◌≡◌, refl, ◌∙◌, sym, ap, inl, inr, Bool, true, false, ◌&&◌, ◌||◌, not, List, [], ◌∷◌, ◌++◌,
  Option, none, some, Text, text_eq, nat_eq, ◌==◌, ==_iff, if◌then◌else◌, Bool-cases, Option-cases,
  All, arith, ltb, keep,
}
use astinus.Base.Dict.{lookup, insert, lookup-insert}
use astinus.Base.Sort.{
  sort_stable, sort_stable-All, sort_stable-perm, sort_stable-IsAscending, IsAscending,
}
use astinus.Cpe.Candidates.{Candidate}
use astinus.Cpe.Purl.{Purl}
use astinus.Cpe.Sources.{
  Mode, online, offline, hybrid, is_offline, is_hybrid, CandidateSource, new_multi_source,
  has_high_confidence, found, match_sources, purl_cache_key, Cache, resolve_ctx,
}

-- An offline source is among these whose answer has a candidate of high confidence.
abbrev pub any_high : Purl → List CandidateSource → Bool
any_high p [] = false
any_high p (s ∷ before) =
    (not s.requires_network && has_high_confidence (found (s.match p))) || any_high p before

any_high-append :
    (p : Purl) (before : List CandidateSource) (s : CandidateSource)
    → any_high p (before ++ (s ∷ []))
      ≡ (any_high p before || (not s.requires_network && has_high_confidence (found (s.match p))))
any_high-append p [] s = ground arith
any_high-append p (t ∷ before) s = ground (arith, any_high-append p before s)

-- The answers of the sources in their order, without those of the online sources that a hybrid mode
-- saves because of an offline source before them.
abbrev pub answers : Mode → Purl → List CandidateSource → List CandidateSource → List Candidate
answers mode p before [] = []
answers mode p before (s ∷ sources) =
    (if is_hybrid mode && (any_high p before && s.requires_network) then [] else found (s.match p))
    ++ answers mode p (before ++ (s ∷ [])) sources

-- An online source has no part in the flag, and no offline source is skipped.
flag-append :
    (skips high network : Bool) (cands : List Candidate)
    → (high
        || (not network && has_high_confidence (if skips && (high && network) then [] else cands)))
      ≡ (high || (not network && has_high_confidence cands))
flag-append skips high true cands = refl
flag-append false high false cands = refl
flag-append true true false cands = refl
flag-append true false false cands = refl

match_sources-answers :
    (mode : Mode) (p : Purl) (before sources : List CandidateSource)
    → match_sources mode (any_high p before) sources p ≡ answers mode p before sources
unfolding match_sources
match_sources-answers mode p before [] = refl
match_sources-answers mode p before (s ∷ sources) =
    ap
      (λ high.
        (if is_hybrid mode && (any_high p before && s.requires_network)
          then []
          else found (s.match p))
        ++ match_sources mode high sources p)
      (flag-append (is_hybrid mode) (any_high p before) s.requires_network (found (s.match p))
        ∙ sym (any_high-append p before s))
    ∙ ap
        (λ rest.
          (if is_hybrid mode && (any_high p before && s.requires_network)
            then []
            else found (s.match p))
          ++ rest)
        (match_sources-answers mode p (before ++ (s ∷ [])) sources)

-- The first of the purls with a cache key.
abbrev pub first_asked : Text → List Purl → Option Purl
first_asked key [] = none
first_asked key (q ∷ asked) =
    let rest = first_asked key asked in if purl_cache_key q == key then some q else rest

-- The purl whose answer counts for a purl: the first with its key, or itself.
abbrev pub stands_for : List Purl → Purl → Purl
stands_for asked p = elim (first_asked (purl_cache_key p) asked) [ none ↦ p | some q ↦ q ]

first_asked-append :
    (key : Text) (asked : List Purl) (p : Purl)
    → first_asked key (asked ++ p ∷ []) ≡ (elim (first_asked key asked) [
      | none ↦ if purl_cache_key p == key then some p else none
      | some q ↦ some q
    ])
first_asked-append key [] p = refl
first_asked-append key (q ∷ asked) p = elim (Bool-cases (purl_cache_key q == key)) [
  | inl same ↦ rw (same) refl
  | inr other ↦ rw (other) (first_asked-append key asked p)
]

module _ (mode : Mode) (sources : List CandidateSource) where
  abbrev answered : Option Purl → Option (List Candidate)
  answered none = none
  answered (some q) = some (answers mode q [] sources)

  -- The cache after the purls that were asked: each key has the answer for its first purl.
  abbrev pub IsSound : List Purl → Cache → Type 0
  IsSound asked cache = (key : Text) → lookup key cache ≡ answered (first_asked key asked)

  IsSound-hit :
      (asked : List Purl) (p q : Purl) (cache : Cache)
      → first_asked (purl_cache_key p) asked ≡ some q
      → IsSound asked cache
      → IsSound (asked ++ p ∷ []) cache
  IsSound-hit asked p q cache there sound key =
      sound key ∙ ap answered (sym (first_asked-append key asked p ∙ same))
    where
      same :
          (elim (first_asked key asked) [
            | none ↦ if purl_cache_key p == key then some p else none
            | some r ↦ some r
          ])
          ≡ first_asked key asked
      same = elim (Option-cases (first_asked key asked)) [
        | inr (r, e) ↦ rw (e) refl
        | inl missing ↦ elim (Bool-cases (purl_cache_key p == key)) [
          | inr other ↦ rw (missing, other) refl
          | inl equal ↦ absurd (
              cc (
                there,
                missing,
                ap (λ k. first_asked k asked) ((==_iff (purl_cache_key p) key).0 equal),
              ))
        ]
      ]

  written :
      (b : Bool) (o : Option Purl) (p : Purl) (old : Option (List Candidate))
      → old ≡ answered o
      → (b ≡ true → o ≡ none)
      → (if b then some (answers mode p [] sources) else old)
        ≡ answered (elim o [ none ↦ if b then some p else none | some r ↦ some r ])
  written true none p old e h = refl
  written true (some r) p old e h = absurd (cc (h refl))
  written false none p old e h = e
  written false (some r) p old e h = e

  IsSound-miss :
      (asked : List Purl) (p : Purl) (cache : Cache)
      → first_asked (purl_cache_key p) asked ≡ none
      → IsSound asked cache
      → IsSound (asked ++ p ∷ []) (insert (purl_cache_key p) (answers mode p [] sources) cache)
  IsSound-miss asked p cache missing sound key =
      lookup-insert (purl_cache_key p) key (answers mode p [] sources) cache
      ∙ written (purl_cache_key p == key) (first_asked key asked) p (lookup key cache) (sound key)
          gone
      ∙ ap answered (sym (first_asked-append key asked p))
    where
      gone : (purl_cache_key p == key) ≡ true → first_asked key asked ≡ none
      gone equal =
          sym (ap (λ k. first_asked k asked) ((==_iff (purl_cache_key p) key).0 equal)) ∙ missing

  -- From the cache after the purls that were asked, the resolver returns what the sources answer for the
  -- first purl of the same cache key, which is the purl itself where none was asked: the answers of one
  -- source after the other, without those online sources that have before them an offline source with an
  -- answer of high confidence in hybrid mode. The cache is then that after this purl, too.
  pub resolve_ctx-answers :
      (asked : List Purl) (p : Purl) (cache : Cache)
      → IsSound asked cache
      → ((resolve_ctx mode sources p cache).1 ≡ answers mode (stands_for asked p) [] sources)
        × IsSound (asked ++ p ∷ []) (resolve_ctx mode sources p cache).0
  unfolding resolve_ctx
  resolve_ctx-answers asked p cache sound =
      elim (Option-cases (first_asked (purl_cache_key p) asked)) [
        | inl missing ↦
            rw (sound (purl_cache_key p) ∙ ap answered missing, missing, stands_for)
              (
                match_sources-answers mode p [] sources,
                subst (λ all. IsSound (asked ++ p ∷ []) (insert (purl_cache_key p) all cache))
                    (sym (match_sources-answers mode p [] sources))
                    (IsSound-miss asked p cache missing sound),
              )
        | inr (q, there) ↦
            rw (sound (purl_cache_key p) ∙ ap answered there, there, stands_for)
              (refl, IsSound-hit asked p q cache there sound)
      ]

-- What is registered of the given sources.
abbrev pub IsRegistered : Mode → List CandidateSource → List CandidateSource → Type 0
IsRegistered offline given registered =
    All (λ s. s.requires_network ≡ false) registered
    × Perm registered (keep (λ s. not s.requires_network) given)
IsRegistered mode given registered = Perm registered given

keep-all : (sources : List CandidateSource) → keep (λ s. true) sources ≡ sources
keep-all [] = refl
keep-all (s ∷ sources) = ap (λ rest. s ∷ rest) (keep-all sources)

keep-offline :
    (sources : List CandidateSource)
    → All (λ s. s.requires_network ≡ false) (keep (λ s. not s.requires_network) sources)
keep-offline [] = tt
keep-offline (s ∷ sources) = elim (Bool-cases s.requires_network) [
  | inl network ↦ rw (network) (keep-offline sources)
  | inr local ↦ rw (local) (refl, keep-offline sources)
]

-- The resolver has the given sources by falling priority, all of them, but in offline mode without those
-- that need the network, of which it then has none.
pub new_multi_source-IsRegistered :
    (mode : Mode) (sources : List CandidateSource)
    → IsRegistered mode sources (new_multi_source mode sources)
      × IsAscending (λ s t. ltb t.priority s.priority) (new_multi_source mode sources)
unfolding new_multi_source
new_multi_source-IsRegistered mode sources = (
  registered mode,
  sort_stable-IsAscending (λ s t. ltb t.priority s.priority) (λ s t h. ground (arith, h))
      (λ s t u h k. ground (arith, h, k))
      (keep (λ s. not (is_offline mode && s.requires_network)) sources),
)
  where
    sorted :
        (given : List CandidateSource)
        → Perm (sort_stable (λ s t. ltb t.priority s.priority) given) given
    sorted = sort_stable-perm (λ s t. ltb t.priority s.priority)

    registered : (mode : Mode) → IsRegistered mode sources (new_multi_source mode sources)
    registered offline = (
      sort_stable-All (λ s t. ltb t.priority s.priority) (λ s. s.requires_network ≡ false) _
          (keep-offline sources),
      sorted (keep (λ s. not s.requires_network) sources),
    )
    registered online =
        subst (Perm (new_multi_source online sources)) (keep-all sources)
          (sorted (keep (λ s. true) sources))
    registered hybrid =
        subst (Perm (new_multi_source hybrid sources)) (keep-all sources)
          (sorted (keep (λ s. true) sources))
