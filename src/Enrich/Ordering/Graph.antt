-- ===== src/Enrich/Ordering/Graph.antt =====
-- Dependency edges (dependency, dependent), and how many of them a set of done names leaves open.
use astinus.Base.{
  ℕ, suc, ◌+◌, ◌<◌, ◌≡◌, refl, false, not, ◌&&◌, List, [], ◌∷◌, ◌++◌, arith, Text, text_eq, ◌==◌,
  ==_iff, if◌then◌else◌, contains, contains-append, count,
}

abbrev pub Edges : Type 0
Edges = List (Text × Text)

-- The edges into `n` whose source is not in `seen`.
unfoldable pub left : Edges → List Text → Text → ℕ
left [] seen n = 0
left ((d, m) ∷ g) seen n =
    if m == n && not (contains seen d) then suc (left g seen n) else left g seen n

-- The targets of the edges out of `d`, in order.
unfoldable pub targets : Edges → Text → List Text
targets [] d = []
targets ((c, m) ∷ g) d = if c == d then m ∷ targets g d else targets g d

pub left-append :
    (g h : Edges) (seen : List Text) (n : Text)
    → left (g ++ h) seen n ≡ left g seen n + left h seen n
unfolding left
left-append [] h seen n = omega arith
left-append ((d, m) ∷ g) h seen n = ground (arith, left-append g h seen n)

pub targets-append : (g h : Edges) (d : Text) → targets (g ++ h) d ≡ targets g d ++ targets h d
unfolding targets
targets-append [] h d = refl
targets-append ((c, m) ∷ g) h d = ground (arith, targets-append g h d)

-- Marking `h` as done closes the edges from `h`.
pub left-concat :
    (g : Edges) (seen : List Text) (h n : Text)
    → contains seen h ≡ false
    → left g (seen ++ h ∷ []) n + count n (targets g h) ≡ left g seen n
unfolding left targets
left-concat [] seen h n e = omega arith
left-concat ((d, m) ∷ g) seen h n e =
    ground
      (arith, left-concat g seen h n e, contains-append d seen (h ∷ []), ==_iff d h, ==_iff h d)

pub count-targets-le :
    (g : Edges) (seen : List Text) (h n : Text)
    → contains seen h ≡ false
    → 0 < count n (targets g h)
    → 0 < left g seen n
count-targets-le g seen h n e p = omega (arith, left-concat g seen h n e)
