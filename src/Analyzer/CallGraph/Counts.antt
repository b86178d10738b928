-- ===== src/Analyzer/CallGraph/Counts.antt =====
-- The counters of calls, operations and allocations stop at the limit.
use toph.Prelude.{
  ◌+◌, ◌-◌, ◌<◌, ◌==◌, All, List, [], arith, false, if◌then◌else◌, ltb, refl, ℕ, ◌∙◌, ◌∷◌, ◌≡◌, ◌≤◌,
}
use toph.Prelude.Word
use toph.Prelude.Word.{Int64}
use toph.Analyzer.CallGraph.{CallGraph, add_to, add_caller_count}

-- The smaller of two numbers.
abbrev pub at_most : ℕ → ℕ → ℕ
at_most bound n = if ltb bound n then bound else n

-- Counts that stand for numbers, and whose sums do not overflow.
abbrev pub IsCount : ℕ → Type 0
IsCount n = n < Word.sign_bit - 500

add_to-at_most : (c n : ℕ) → c ≤ 500 → IsCount n → add_to c n ≡ at_most 500 (n + c)
add_to-at_most c n h k = ground arith

-- All counts added one after the other.
abbrev pub add_counts : ℕ → List ℕ → CallGraph → CallGraph
add_counts f [] g = g
add_counts f (n ∷ ns) g = add_counts f ns (add_caller_count f n g)

abbrev pub total : List ℕ → ℕ
total [] = 0
total (n ∷ ns) = n + total ns

-- From a counter of at most 500 on, after any counts that do not overflow, the counter of a function
-- holds the sum of them and of what it held before, or 500 where that is less. Counters of other
-- functions stay.
pub add_caller_count-total :
    (f : ℕ) (ns : List ℕ) (g : CallGraph)
    → g.is_caller_counts f ≤ 500
    → All IsCount ns
    → ((add_counts f ns g).is_caller_counts f ≡ at_most 500 (total ns + g.is_caller_counts f))
      × ((h : ℕ) → (f == h) ≡ false → (add_counts f ns g).is_caller_counts h ≡ g.is_caller_counts h)
unfolding add_caller_count
add_caller_count-total f [] g w k = (ground arith, λ h p. refl)
add_caller_count-total f (n ∷ ns) g w (k, ks) =
    let one : (add_caller_count f n g).is_caller_counts f ≡ at_most 500 (n + g.is_caller_counts f) =
      ground (arith, add_to-at_most (g.is_caller_counts f) n w k) in
    let (a, b) = add_caller_count-total f ns (add_caller_count f n g) (ground (arith, one)) ks in
    (ground (arith, a, one), λ h p. b h p ∙ ground (arith, p))
