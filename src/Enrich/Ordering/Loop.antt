-- ===== src/Enrich/Ordering/Loop.antt =====
-- The invariant of the queue loop of `kahn`, over any edges into listed names.
use mathlib.Core.List.{map-append, append-nil, append_assoc}
use mathlib.Core.Path.{subst}
use astinus.Base.{
  ℕ, zero, suc, ◌+◌, ◌≤◌, ◌<◌, ◌≡◌, refl, sym, ◌∙◌, ap, true, false, ◌&&◌, List, [], ◌∷◌, ◌++◌,
  arith, Text, text_eq, nat_eq, ◌==◌, ==_refl, if◌then◌else◌, length, length-append, contains,
  count, count-append, All, All-append, not-contains_of_count, All-of_count, count_of_contains,
  length-map, length-le_of_count,
}
use astinus.Enrich.Interface.{Enricher}
use astinus.Enrich.Ordering.Graph.{Edges, left, targets, left-concat}
use astinus.Enrich.Ordering.Retire.{
  newly, Covers, count-newly, found, queue-decrement_all, out-decrement_all,
  in_degree-decrement_all, IsListed, names-found, found-IsListed,
}
use astinus.Enrich.Ordering.{KahnState, names, decrement_all, kahn_loop}

-- Each name stands behind the sources of all its edges, those in `seen` or those before it.
abbrev pub Ordered : Edges → List Text → List Text → Type 0
Ordered g seen [] = Unit
Ordered g seen (n ∷ ns) = (left g seen n ≡ 0) × Ordered g (seen ++ n ∷ []) ns

pub Ordered-concat :
    (g : Edges) (seen ns : List Text) (n : Text)
    → Ordered g seen ns
    → left g (seen ++ ns) n ≡ 0
    → Ordered g seen (ns ++ n ∷ [])
Ordered-concat g seen [] n _ h = (subst (λ l. left g l n ≡ 0) (append-nil seen) h, tt)
Ordered-concat g seen (m ∷ ns) n (k, o) h = (
  k,
  Ordered-concat g (seen ++ m ∷ []) ns n o
      (subst (λ l. left g l n ≡ 0) (sym (append_assoc seen (m ∷ []) ns)) h),
)

module _ {S : Type 0} (es : List (Enricher S)) (dependents : Text → List Text) (g : Edges)
    (known : (seen : List Text) (n : Text) → 0 < left g seen n → contains (names es) n ≡ true)
    (successors : (d : Text) → dependents d ≡ targets g d) where
  -- How often a name has been queued: once, when none of its edges is open.
  abbrev pub due : List Text → Text → ℕ
  due done n = if contains (names es) n && left g done n == 0 then 1 else 0

  pub record Inv (s : KahnState S) : Type 0 where
    pub degree : (n : Text) → s.in_degree n ≡ left g (names s.out) n
    pub placed : (n : Text) → count n (names s.queue) + count n (names s.out) ≡ due (names s.out) n
    pub ordered : Ordered g [] (names s.out)
    pub queue_listed : All (IsListed es) s.queue
    pub out_listed : All (IsListed es) s.out

  module _ (head : Enricher S) (queue out : List (Enricher S)) (degree : Text → ℕ)
      (inv : Inv (record { queue = head ∷ queue; out = out; in_degree = degree })) where
    abbrev ns : List Text
    ns = dependents head.name

    abbrev popped : KahnState S
    popped = record { queue = queue; out = out ++ head ∷ []; in_degree = degree }

    names-out : names (out ++ head ∷ []) ≡ names out ++ head.name ∷ []
    names-out = map-append _ out (head ∷ [])

    fresh : contains (names out) head.name ≡ false
    fresh =
        not-contains_of_count head.name (names out)
          (ground (arith, inv.placed head.name, ==_refl head.name))

    ready : left g (names out) head.name ≡ 0
    ready = ground (arith, inv.placed head.name, ==_refl head.name)

    left-out : (n : Text) → left g (names (out ++ head ∷ [])) n + count n ns ≡ left g (names out) n
    left-out n = rw (names-out, successors head.name) (left-concat g (names out) head.name n fresh)

    -- A degree is at least the number of decrements that follow.
    degree-Covers : Covers degree ns
    degree-Covers n = omega (arith, left-out n, inv.degree n)

    names-newly : names (found es (newly degree ns)) ≡ newly degree ns
    names-newly = names-found es (newly degree ns) (
        All-of_count _ (newly degree ns) (λ n p.
          known (names out) n
            (ground (arith, count-newly degree ns n degree-Covers, left-out n, p))))

    abbrev after : KahnState S
    after = decrement_all es popped ns

    names-after : names after.out ≡ names out ++ head.name ∷ []
    names-after = ap names (out-decrement_all es popped ns) ∙ names-out

    left-after : (n : Text) → left g (names after.out) n + count n ns ≡ left g (names out) n
    left-after n = rw (out-decrement_all es popped ns) (left-out n)

    names-queue : names after.queue ≡ names queue ++ newly degree ns
    names-queue =
        ap names (queue-decrement_all es popped ns)
        ∙ map-append _ queue (found es (newly degree ns))
        ∙ ap (λ l. names queue ++ l) names-newly

    placed-after :
        (n : Text)
        → count n (names after.queue) + count n (names after.out) ≡ due (names after.out) n
    placed-after n =
        rw (names-queue, count-append n (names queue) (newly degree ns))
          (ground (
            arith,
            ap (count n) names-after,
            count-append n (names out) (head.name ∷ []),
            inv.placed n,
            inv.degree n,
            left-after n,
            count-newly degree ns n degree-Covers,
            known (names out) n,
          ))

    step-Inv : Inv after
    step-Inv = record {
      degree = λ n.
          omega (
            arith,
            in_degree-decrement_all es popped ns degree-Covers n,
            left-after n,
            inv.degree n,
          );
      placed = placed-after;
      ordered = rw names-after (Ordered-concat g [] (names out) head.name inv.ordered ready);
      queue_listed = rw (queue-decrement_all es popped ns) (
          All-append (IsListed es) queue (found es (newly degree ns)) inv.queue_listed.1
            (found-IsListed es (newly degree ns)));
      out_listed =
          rw (out-decrement_all es popped ns)
            (All-append (IsListed es) out (head ∷ []) inv.out_listed (inv.queue_listed.0, tt));
    }

  length-out-le : (s : KahnState S) → Inv s → length (names s.out) ≤ length (names es)
  length-out-le s inv =
      length-le_of_count (names s.out) (names es)
        (λ n. ground (arith, inv.placed n, count_of_contains n (names es)))

  loop-Inv_parts :
      (fuel : ℕ) (queue out : List (Enricher S)) (degree : Text → ℕ)
      → Inv (record { queue = queue; out = out; in_degree = degree })
      → length es < length out + fuel
      → let s =
          kahn_loop es dependents fuel (record { queue = queue; out = out; in_degree = degree }) in
        Inv s × (s.queue ≡ [])
  unfolding kahn_loop
  loop-Inv_parts zero queue out degree inv h = absurd (
      omega (
        arith,
        length-out-le _ inv,
        length-map out (λ (e : Enricher S). e.name),
        length-map es (λ (e : Enricher S). e.name),
      ))
  loop-Inv_parts (suc fuel) [] out degree inv h = (inv, refl)
  loop-Inv_parts (suc fuel) (head ∷ queue) out degree inv h =
      let s =
        decrement_all es (record { queue = queue; out = out ++ head ∷ []; in_degree = degree })
          (dependents head.name) in
      loop-Inv_parts fuel s.queue s.out s.in_degree (step-Inv head queue out degree inv) (
        rw (out-decrement_all es _ (dependents head.name))
          (omega (arith, length-append out (head ∷ []))))

  -- The loop keeps the invariant, and ends with an empty queue before its fuel does.
  pub loop-Inv :
      (fuel : ℕ) (s : KahnState S)
      → Inv s
      → length es < length s.out + fuel
      → Inv (kahn_loop es dependents fuel s) × ((kahn_loop es dependents fuel s).queue ≡ [])
  loop-Inv fuel s = loop-Inv_parts fuel s.queue s.out s.in_degree
