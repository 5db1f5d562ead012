-- ===== src/Dedup/Laws.antt =====
-- What `Run` promises of the components it returns.
use astinus.Base.{◌≤◌, ◌≡◌, ◌≢◌, refl, ap, List, [], map, arith, Text, text_eq, count, length}
use astinus.Model.{Component}
use astinus.Base.Dict.{lookup}
use astinus.Dedup.Key.{dedup_key}
use astinus.Dedup.Run.{members, bucketize, run}
use astinus.Dedup.Keys.{
  ArePlainAll, bucketize-AreSorted, length-bucketize, first_of_each, keys-emit_all,
  emit_all-distinct, count-first_of_each,
}

-- Where no hash algorithm holds a colon, `Run` returns the keys of its input in order, each
-- non-empty key only where it is first met, and each component without a key.
pub keys-run :
    (comps : List Component)
    → ArePlainAll comps
    → map dedup_key (run comps).0 ≡ first_of_each [] (map dedup_key comps)
unfolding run
keys-run comps p =
    keys-emit_all (bucketize [] 0 comps) [] comps p
      (bucketize-AreSorted [] 0 comps p (λ k. unfold lookup in tt))

pub run-distinct :
    (comps : List Component)
    → ((k : Text) → k ≢ [] → count k (map dedup_key comps) ≤ 1)
    → run comps ≡ (comps, 0)
unfolding run
run-distinct comps once =
    emit_all-distinct (bucketize [] 0 comps) [] comps
      (λ k filled. omega (arith, length-bucketize [] 0 comps k filled, once k filled, none_yet k))
      (λ k filled. omega (arith, once k filled))
  where
    none_yet : (k : Text) → length (members (lookup k [])) ≡ 0
    none_yet k = unfold lookup in refl

-- Where no hash algorithm holds a colon, running the stage a second time changes nothing and
-- merges nothing.
pub run_idem : (comps : List Component) → ArePlainAll comps → run (run comps).0 ≡ ((run comps).0, 0)
run_idem comps p = run-distinct (run comps).0 λ k filled.
    ground (
      arith,
      ap (count k) (keys-run comps p),
      count-first_of_each [] (map dedup_key comps) k filled,
    )
