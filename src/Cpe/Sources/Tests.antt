-- ===== src/Cpe/Sources/Tests.antt =====
-- A dictionary and a service, and the theorems at them.
use astinus.Base.{
  ◌≡◌, refl, true, false, [], ◌∷◌, Text, codes, text_eq, ◌==◌, if◌then◌else◌, ltb, ok, err, ℕ,
}
use astinus.Base.Dict.{lookup}
use astinus.Base.Sort.{IsAscending}
use astinus.Cpe.Candidates.{Candidate}
use astinus.Cpe.Purl.{Purl, resolve_heuristic}
use astinus.Cpe.Sources.{
  hybrid, online, offline, mode_of, CandidateSource, new_multi_source, purl_cache_key, Cache,
  resolve_ctx,
}
use astinus.Cpe.Sources.Laws.{
  stands_for, IsSound, answers, resolve_ctx-answers, IsRegistered, new_multi_source-IsRegistered,
}

abbrev hit : Text → ℕ → Candidate
hit cpe confidence = record {
  cpe = cpe;
  confidence = confidence;
  source = [];
  evidence = [];
  rejected_reason = [];
}

abbrev curl : Purl
curl = record {
  type = codes "generic";
  namespace = [];
  name = codes "curl";
  version = codes "8";
  qualifiers = [];
  subpath = [];
}

-- A dictionary that knows one package by its key.
abbrev dictionary : CandidateSource
dictionary = record {
  priority = 90;
  requires_network = false;
  match = λ p.
      if purl_cache_key p == codes "generic||curl|8"
      then ok (hit (codes "d") 80 ∷ [])
      else err (codes "unreadable");
}

abbrev service : CandidateSource
service = record {
  priority = 80;
  requires_network = true;
  match = λ p. ok (hit (codes "n") 60 ∷ []);
}

mode_of_examples :
    (mode_of (codes "offline") ≡ offline)
    × (mode_of (codes "online") ≡ online)
    × (mode_of [] ≡ hybrid)
unfolding mode_of
mode_of_examples = (refl, refl, refl)

-- The service goes second, and in hybrid mode it is not asked.
resolve_ctx_examples :
    ((resolve_ctx hybrid (new_multi_source hybrid (service ∷ dictionary ∷ [])) curl []).1
      ≡ (hit (codes "d") 80 ∷ []))
    × ((resolve_ctx online (new_multi_source online (service ∷ dictionary ∷ [])) curl []).1
        ≡ (hit (codes "d") 80 ∷ hit (codes "n") 60 ∷ []))
unfolding resolve_ctx new_multi_source lookup
resolve_ctx_examples = (refl, refl)

-- A cache key stands for more than one purl, and the heuristic resolver answers them differently.
abbrev barred : Text → Text → Purl
barred name version = record curl { name = name; version = version }

abbrev heuristic : CandidateSource
heuristic = record {
  priority = 50;
  requires_network = false;
  match = λ p. ok (resolve_heuristic p);
}

abbrev one_cached : Cache
one_cached = (resolve_ctx hybrid (heuristic ∷ []) (barred (codes "a|b") []) []).0

after_one : IsSound hybrid (heuristic ∷ []) (barred (codes "a|b") [] ∷ []) one_cached
unfolding lookup resolve_ctx
after_one =
    (resolve_ctx-answers hybrid (heuristic ∷ []) [] (barred (codes "a|b") []) [] λ key. refl).1

resolve_ctx-answers_example :
    ((resolve_ctx hybrid (heuristic ∷ []) (barred (codes "a") (codes "b|")) one_cached).1
      ≡ answers hybrid
          (stands_for (barred (codes "a|b") [] ∷ []) (barred (codes "a") (codes "b|")))
          []
          (heuristic ∷ []))
    × IsSound hybrid
        (heuristic ∷ [])
        (barred (codes "a|b") [] ∷ barred (codes "a") (codes "b|") ∷ [])
        (resolve_ctx hybrid (heuristic ∷ []) (barred (codes "a") (codes "b|")) one_cached).0
resolve_ctx-answers_example =
    resolve_ctx-answers hybrid (heuristic ∷ []) (barred (codes "a|b") [] ∷ [])
      (barred (codes "a") (codes "b|")) one_cached after_one

new_multi_source-IsRegistered_example :
    IsRegistered offline
      (service ∷ dictionary ∷ [])
      (new_multi_source offline (service ∷ dictionary ∷ []))
    × IsAscending
        (λ s t. ltb t.priority s.priority)
        (new_multi_source offline (service ∷ dictionary ∷ []))
new_multi_source-IsRegistered_example =
    new_multi_source-IsRegistered offline (service ∷ dictionary ∷ [])
