-- ===== src/Analyzer/CallGraph/Zero.antt =====
-- zeroCalleeCounts takes a function out of the call graph as a callee.
use mathlib.Core.Logic.{◌≢◌}
use toph.Ir.Types.{Signature}
use toph.Prelude.{
  ◌&&◌, ◌==◌, List, [], ap, arith, false, find, find-put, if◌then◌else◌, is_some, mem, mem-keep,
  none, not, put, refl, some, true, ℕ, ◌∙◌, ◌∷◌, ◌≡◌,
}
use toph.Analyzer.CallGraph.{
  CallGraph, set_at, contains_edge, without, forget_callee, zero_callee_counts,
}
use toph.Analyzer.CallGraph.Dynamic.{is_known, IsSymmetric}

mem-without : (c y : ℕ) (fs : List ℕ) → mem y (without c fs) ≡ (if y == c then false else mem y fs)
mem-without c y fs = ground (arith, mem-keep (λ x. not (x == c)) y fs)

find-forget_callee :
    (c x : ℕ) (fs : List ℕ) (m : List (ℕ × List ℕ))
    → is_some (find x (forget_callee c fs m)) ≡ is_some (find x m)
unfolding forget_callee
find-forget_callee c x [] m = refl
find-forget_callee c x (f ∷ fs) m =
    elim (find f m)
        as (λ o.
          o ≡ find f m
          → is_some
              (find x (forget_callee c fs (elim o [ none ↦ m | some gs ↦ put f (without c gs) m ])))
            ≡ is_some (find x m)) [
              | none ↦ λ e. find-forget_callee c x fs m
              | some gs ↦ λ e.
                  find-forget_callee c x fs (put f (without c gs) m)
                  ∙ ground (arith, e, find-put f x (without c gs) m)
            ]
      refl

mem-forget_callee :
    (c x y : ℕ) (fs : List ℕ) (m : List (ℕ × List ℕ))
    → mem y (set_at x (forget_callee c fs m)) ≡ (mem y (set_at x m) && not (mem x fs && y == c))
unfolding forget_callee
mem-forget_callee c x y [] m = ground arith
mem-forget_callee c x y (f ∷ fs) m =
    elim (find f m)
        as (λ o.
          o ≡ find f m
          → mem y (
              set_at x
                (forget_callee c fs (elim o [ none ↦ m | some gs ↦ put f (without c gs) m ])))
            ≡ (mem y (set_at x m) && not (mem x (f ∷ fs) && y == c))) [
              | none ↦ λ e. ground (arith, e, mem-forget_callee c x y fs m)
              | some gs ↦ λ e. ground (
                arith,
                e,
                mem-forget_callee c x y fs (put f (without c gs) m),
                find-put f x (without c gs) m,
                mem-without c y gs,
              )
            ]
      refl

-- On a graph with symmetric maps, the function has no caller afterwards and its counter is 0. All
-- edges to other functions and their counters stay, every function stays known, and the maps stay
-- symmetric.
pub zero_callee_counts_lem :
    (c : ℕ) (s : Signature) (g : CallGraph)
    → IsSymmetric g
    → is_known c g ≡ true
    → IsSymmetric (zero_callee_counts c s g)
      × ((x : ℕ) → contains_edge x c (zero_callee_counts c s g) ≡ false)
      × ((x y : ℕ) → y ≢ c → contains_edge x y (zero_callee_counts c s g) ≡ contains_edge x y g)
      × ((x : ℕ) → is_known x (zero_callee_counts c s g) ≡ is_known x g)
      × ((x : ℕ)
          → (zero_callee_counts c s g).is_callee_counts x
            ≡ (if c == x then 0 else g.is_callee_counts x))
unfolding zero_callee_counts
zero_callee_counts_lem c s g w k =
    let fs = set_at c g.callee_to_callers in
    let edge : (x y : ℕ)
        → mem y (set_at x (forget_callee c fs g.caller_to_callees))
          ≡ (mem y (set_at x g.caller_to_callees) && not (y == c)) =
      λ x y. ground (
        arith,
        mem-forget_callee c x y fs g.caller_to_callees,
        w.backwards x y,
        w.backwards x c,
        ap (λ z. mem z (set_at x g.caller_to_callees)) {x = y} {y = c},
      ) in
    (
      record {
        same_funcs = λ f. ground (
          arith,
          find-forget_callee c f fs g.caller_to_callees,
          w.same_funcs f,
          w.same_funcs c,
          k,
          find-put c f [] g.callee_to_callers,
        );
        backwards =
            λ x y. ground (arith, edge x y, w.backwards x y, find-put c y [] g.callee_to_callers);
      },
      λ x. ground (arith, edge x c),
      λ x y n. ground (arith, edge x y, n),
      λ x. find-forget_callee c x fs g.caller_to_callees,
      λ x. refl,
    )
