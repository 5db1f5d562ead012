-- ===== src/Enrich/Ordering/Tests.antt =====
-- Sorts of small pipelines, and the theorems at them.
use mathlib.Core.List.{Perm}
use astinus.Base.{
  if◌then◌else◌, ◌==◌, ℕ, ◌≡◌, ◌≢◌, refl, List, [], ◌∷◌, none, arith, Text, codes, text_eq, ok, err,
}
use astinus.Base.Dict.{lookup, insert}
use astinus.Enrich.Interface.{Enricher}
use astinus.Enrich.Ordering.Laws.{topo_sort-RunsAfter}
use astinus.Enrich.Ordering.Run.{RunsAfter}
use astinus.Enrich.Ordering.Cycles.{topo_sort-AllStuck, AllStuck, topo_sort_total}
use astinus.Enrich.Ordering.{duplicate_name, cyclic_dependency, find, topo_sort}

sorting : Unit {0}
unfolding topo_sort lookup insert find
sorting = tt

abbrev step : Text → List Text → Enricher ℕ
step name deps = record { name = name; dependencies = deps; enrich = λ n. (n, none) }

abbrev dedup : Enricher ℕ
dedup = step (codes "dedup") (codes "basediff" ∷ codes "cpe" ∷ [])

abbrev cpe : Enricher ℕ
cpe = step (codes "cpe") (codes "untracked" ∷ [])

abbrev basediff : Enricher ℕ
basediff = step (codes "basediff") (codes "attribution" ∷ [])

abbrev attribution : Enricher ℕ
attribution = step (codes "attribution") []

-- "untracked" is disabled, so the dependency on it is dropped.
abbrev enabled : List (Enricher ℕ)
enabled = dedup ∷ cpe ∷ basediff ∷ attribution ∷ []

abbrev sorted : List (Enricher ℕ)
sorted = cpe ∷ attribution ∷ basediff ∷ dedup ∷ []

sort-enabled : topo_sort enabled ≡ ok sorted
unfolding sorting
sort-enabled = refl

abbrev looped : List (Enricher ℕ)
looped = step (codes "a") (codes "b" ∷ []) ∷ attribution ∷ step (codes "b") (codes "a" ∷ []) ∷ []

sort-looped : topo_sort looped ≡ err (cyclic_dependency (codes "a" ∷ codes "b" ∷ []))
unfolding sorting
sort-looped = refl

sort_twice : topo_sort (cpe ∷ basediff ∷ cpe ∷ []) ≡ err (duplicate_name (codes "cpe"))
unfolding sorting
sort_twice = refl

topo_sort-RunsAfter_example : Perm sorted enabled × RunsAfter enabled [] sorted
topo_sort-RunsAfter_example = topo_sort-RunsAfter enabled sorted sort-enabled

topo_sort-AllStuck_example :
    ((codes "a" ∷ codes "b" ∷ []) ≢ []) × AllStuck looped (codes "a" ∷ codes "b" ∷ [])
topo_sort-AllStuck_example = topo_sort-AllStuck looped (codes "a" ∷ codes "b" ∷ []) sort-looped

abbrev depth : Text → ℕ
depth n = if n == codes "dedup" then 2 else if n == codes "basediff" then 1 else 0

topo_sort_total_example : (out : List (Enricher ℕ)) × (topo_sort enabled ≡ ok out)
topo_sort_total_example =
    topo_sort_total depth enabled (refl, (refl, (refl, (refl, tt)))) (ground arith)
