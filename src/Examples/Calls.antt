-- ===== src/Examples/Calls.antt =====
-- Runs on a function that calls another one twice.
use toph.Prelude.{
  ok, ◌*◌, ◌==◌, ◌<◌, ◌≤◌, List, [], arith, if◌then◌else◌, mem, none, refl, some, true, ℕ, ◌∷◌, ◌≡◌,
}
use toph.Analyzer.CallGraph.{CallGraph, new_func_call_graph, add_func}
use toph.Analyzer.CallGraph.Counts.{at_most}
use toph.Analyzer.CallsInfo.{CallsInfo, init}
use toph.Analyzer.CallGraphBuilder.Propagation.{add_call_counts_to_graph}
use toph.Analyzer.CallGraphBuilder.Propagation.Components.{times, IsPlaced}
use toph.Analyzer.CallGraphBuilder.Propagation.Covered.{add_call_counts_lem}

-- The function 4 calls the function 5 twice.
abbrev infos : ℕ → CallsInfo
infos f =
    if f == 4 then record init { callee_counts = λ b. if b == 5 then some 2 else none } else init

abbrev callees : ℕ → List ℕ
callees f = if f == 4 then 5 ∷ [] else []

abbrev scc_of : ℕ → ℕ
scc_of f = if f == 4 then 2 else if f == 5 then 1 else 0

abbrev funcs_in : ℕ → List ℕ
funcs_in i = if i == 1 then 5 ∷ [] else if i == 2 then 4 ∷ [] else []

unfoldable two_funcs : CallGraph
unfolding new_func_call_graph add_func
two_funcs = add_func 5 (new_func_call_graph (some 4))

placed : IsPlaced infos callees (λ _. []) (λ _. []) (λ _. 0) scc_of funcs_in
placed = record {
  placed = λ i f m. ground (arith, m);
  listed = λ f i e. ground (arith, e);
  distinct = λ i. ground arith;
  downwards = λ f b m. ground (arith, m);
  limited = λ f b. ground arith;
}

add_call_counts_lem_example :
    (h : CallGraph) × (add_call_counts_to_graph infos callees
        (λ _. [])
        (λ _. [])
        (λ _. 0)
        scc_of
        funcs_in
        2
        4
        two_funcs
      ≡ ok h)
    × ((f b : ℕ)
        → 0 < scc_of f
        → scc_of f ≤ 2
        → 0 < scc_of b
        → mem b (callees f) ≡ true
        → at_most 500 (
            times infos callees (λ _. []) (λ _. []) (λ _. 0) scc_of funcs_in f b
            * h.is_callee_counts f)
          ≤ h.is_callee_counts b)
unfolding two_funcs new_func_call_graph add_func
add_call_counts_lem_example =
    add_call_counts_lem infos callees (λ _. []) (λ _. []) (λ _. 0) scc_of funcs_in 2 4 two_funcs
      placed (λ i l. ground (arith, l)) (λ i f l m. ground (arith, l, m)) (λ f. refl)
