-- ===== src/Enrich/Ordering/Retire.antt =====
-- What the loop over `dependents[head]` does to the degrees and the queue.
use mathlib.Core.List.{append_assoc, append-nil}
use mathlib.Core.Path.{ap₂, subst}
use astinus.Base.{
  ℕ, ◌+◌, ◌-◌, ◌≤◌, ◌≡◌, refl, sym, ◌∙◌, true, ◌&&◌, inl, inr, List, [], ◌∷◌, ◌++◌, Option, none,
  some, arith, Text, text_eq, nat_eq, ◌==◌, ==_iff, ltb, if◌then◌else◌, Option-cases, Bool-cases,
  contains, count, All,
}
use astinus.Enrich.Interface.{Enricher}
use astinus.Enrich.Ordering.{update, KahnState, names, find, append_found, decrement, decrement_all}

-- The names whose degree reaches zero, in order.
pub newly : (Text → ℕ) → List Text → List Text
newly degree [] = []
newly degree (m ∷ ns) =
    let rest = newly (update degree m (degree m - 1)) ns in
    if degree m - 1 == 0 then m ∷ rest else rest

abbrev pub Covers : (Text → ℕ) → List Text → Type 0
Covers degree ns = (n : Text) → count n ns ≤ degree n

Covers-update :
    (degree : Text → ℕ) (m : Text) (ns : List Text)
    → Covers degree (m ∷ ns)
    → Covers (update degree m (degree m - 1)) ns
Covers-update degree m ns h n = ground (arith, h n, ==_iff m n)

-- A name is queued once, and only by the decrement that uses up its degree.
pub count-newly :
    (degree : Text → ℕ) (ns : List Text) (n : Text)
    → Covers degree ns
    → count n (newly degree ns) ≡ (if ltb 0 (count n ns) && count n ns == degree n then 1 else 0)
unfolding newly
count-newly degree [] n h = refl
count-newly degree (m ∷ ns) n h =
    let ih = count-newly (update degree m (degree m - 1)) ns n (Covers-update degree m ns h) in
    ground (arith, ih, h n, h m, ==_iff m n)

module _ {S : Type 0} (es : List (Enricher S)) where
  pub found : List Text → List (Enricher S)
  found [] = []
  found (n ∷ ns) = append_found [] (find es n) ++ found ns

  append_found-append :
      (queue : List (Enricher S)) (o : Option (Enricher S)) (l : List (Enricher S))
      → append_found queue o ++ l ≡ queue ++ (append_found [] o ++ l)
  append_found-append queue none l = refl
  append_found-append queue (some e) l = append_assoc queue (e ∷ []) l

  queue-decrement :
      (s : KahnState S) (m : Text) (ns : List Text)
      → (decrement es s m).queue ++ found (newly (decrement es s m).in_degree ns)
        ≡ s.queue ++ found (newly s.in_degree (m ∷ ns))
  unfolding decrement newly found
  queue-decrement s m ns = elim (Bool-cases (s.in_degree m - 1 == 0)) [
    | inl zeroed ↦ rw zeroed (append_found-append s.queue (find es m) _)
    | inr positive ↦ rw positive refl
  ]

  pub queue-decrement_all :
      (s : KahnState S) (ns : List Text)
      → (decrement_all es s ns).queue ≡ s.queue ++ found (newly s.in_degree ns)
  unfolding decrement_all
  queue-decrement_all s [] = nil_case
    where
      nil_case : s.queue ≡ s.queue ++ found (newly s.in_degree [])
      nil_case = unfold newly found in sym (append-nil s.queue)
  queue-decrement_all s (m ∷ ns) =
      queue-decrement_all (decrement es s m) ns ∙ queue-decrement s m ns

  pub out-decrement_all : (s : KahnState S) (ns : List Text) → (decrement_all es s ns).out ≡ s.out
  unfolding decrement_all
  out-decrement_all s [] = refl
  out-decrement_all s (m ∷ ns) = out-decrement_all (decrement es s m) ns

  pub in_degree-decrement_all :
      (s : KahnState S) (ns : List Text)
      → Covers s.in_degree ns
      → (n : Text) → (decrement_all es s ns).in_degree n + count n ns ≡ s.in_degree n
  unfolding decrement_all
  in_degree-decrement_all s [] h n = omega arith
  in_degree-decrement_all s (m ∷ ns) h n =
      let ih = in_degree-decrement_all (decrement es s m) ns (Covers-update s.in_degree m ns h) n in
      ground (arith, ih, h n, h m, ==_iff m n)

  -- Looking a name up gives the enricher of that name.
  pub find-name :
      (l : List (Enricher S)) (n : Text) (e : Enricher S) → find l n ≡ some e → e.name ≡ n
  unfolding find
  find-name [] n e h = cc
  find-name (x ∷ l) n e h = ground (arith, find-name l n e, ==_iff x.name n)

  find-contains :
      (l : List (Enricher S)) (n : Text)
      → contains (names l) n ≡ true
      → (e : Enricher S) × (find l n ≡ some e)
  unfolding find
  find-contains [] n h = cc
  find-contains (x ∷ l) n h = elim (Bool-cases (x.name == n)) [
    | inl same ↦ (x, rw same)
    | inr other ↦ let (e, f) = find-contains l n (rw other at h) in (e, rw other f)
  ]

  abbrev pub IsListed : Enricher S → Type 0
  IsListed e = find es e.name ≡ some e

  pub names-found :
      (ns : List Text) → All (λ n. contains (names es) n ≡ true) ns → names (found ns) ≡ ns
  unfolding found
  names-found [] h = refl
  names-found (n ∷ ns) (k, h) =
      let (e, f) = find-contains es n k in rw f (ap₂ ◌∷◌ (find-name es n e f) (names-found ns h))

  pub found-IsListed : (ns : List Text) → All IsListed (found ns)
  unfolding found
  found-IsListed [] = tt
  found-IsListed (n ∷ ns) = elim (Option-cases (find es n)) [
    | inl missing ↦ rw missing (found-IsListed ns)
    | inr (e, f) ↦
        rw f (subst (λ k. find es k ≡ some e) (sym (find-name es n e f)) f, found-IsListed ns)
  ]
