-- ===== src/Examples/Graphs.antt =====
-- Runs on a graph of the basic types and a structure type, and on a graph of one function.
use toph.Analyzer.TypeGraph.Correct.{topological_order_lem}
use toph.Analyzer.TypeGraph.Edges.{add_dependency-IsSymmetric}
use toph.Analyzer.CallGraph.Calls.{add_dynamic_caller-IsValid}
use toph.Analyzer.CallGraph.Callees.{add_dynamic_callee-IsValid}
use toph.Prelude.{
  ok, panic, type_cycle, nil_map, ◌&&◌, ◌==◌, List, [], arith, false, find, is_some, mem, none,
  refl, some, true, ◌||◌, ℕ, ◌∷◌, ◌≡◌, ◌⊎◌,
}
use toph.Analyzer.TypeGraph.{
  TypeGraph, new_type_graph, add_dependency, topological_order, contains_edge,
}
use toph.Analyzer.TypeGraph.Order.{IsRange}
use toph.Analyzer.TypeGraph.Correct.{IsValid, IsTopological, IsRank}
use toph.Analyzer.TypeGraph.Edges.{IsSymmetric}
use toph.Analyzer.CallGraph
use toph.Analyzer.CallGraph.{
  CallGraph, new_func_call_graph, add_func, add_dynamic_caller, add_dynamic_callee, dynamic_callers,
  dynamic_callees, zero_callee_counts,
}
use toph.Analyzer.CallGraph.Dynamic
use toph.Ir.Types.{Signature}
use toph.Analyzer.CallGraph.Dynamic.{is_known}

abbrev six_types : TypeGraph
six_types = record {
  dependees = (0, []) ∷ (1, []) ∷ (2, []) ∷ (3, []) ∷ (4, []) ∷ (5, []) ∷ (6, 0 ∷ 3 ∷ []) ∷ [];
  dependants = (0, 6 ∷ []) ∷ (1, []) ∷ (2, []) ∷ (3, 6 ∷ []) ∷ (4, []) ∷ (5, []) ∷ (6, []) ∷ [];
  topological_order_ok = false;
  topological_order = [];
}

six_types-IsValid : IsValid six_types
six_types-IsValid = record {
  closed = record {
    distinct = refl;
    known = λ t u h. ground (arith, h);
    basic_known = λ t h. ground (arith, h);
    basic_empty = λ t h. ground (arith, h);
  };
  kept = λ h. cc;
}

six_types-IsRange : IsRange six_types.dependees six_types.dependees
six_types-IsRange = record {
  sound = (refl, (refl, (refl, (refl, (refl, (refl, (refl, tt)))))));
  complete = λ t h. h;
}

abbrev no_params : Signature
no_params = record { recv = none; shape = 0 }

unfoldable one_func : CallGraph
unfolding new_func_call_graph
one_func = new_func_call_graph (some 4)

one_func-IsValid : CallGraph.Dynamic.IsValid one_func
unfolding one_func add_func new_func_call_graph
one_func-IsValid = record {
  symmetric = record { same_funcs = λ f. refl; backwards = λ a b. ground arith };
  linked = tt;
}

topological_order_lem_example :
    ((ts : List ℕ) × (h : TypeGraph) × (topological_order (λ _. six_types.dependees) six_types
        ≡ ok (ts, h))
      × IsTopological six_types.dependees ts
      × IsValid h
      × (h.dependees ≡ six_types.dependees))
    ⊎ ((topological_order (λ _. six_types.dependees) six_types ≡ panic type_cycle)
        × ((rank : ℕ → ℕ) → ¬ (IsRank six_types.dependees rank)))
topological_order_lem_example =
    topological_order_lem (λ _. six_types.dependees) six_types six_types-IsValid
      (λ n. six_types-IsRange)

add_dependency-IsSymmetric_example :
    ((is_some (find 6 new_type_graph.dependees) && is_some (find 0 new_type_graph.dependees))
        ≡ false
      → add_dependency 6 0 new_type_graph ≡ panic nil_map)
    × ((is_some (find 6 new_type_graph.dependees) && is_some (find 0 new_type_graph.dependees))
          ≡ true
        → (h : TypeGraph) × (add_dependency 6 0 new_type_graph ≡ ok h)
          × IsSymmetric h
          × ((a b : ℕ)
              → contains_edge a b h ≡ (6 == a && 0 == b || contains_edge a b new_type_graph))
          × (h.topological_order_ok ≡ false))
add_dependency-IsSymmetric_example =
    add_dependency-IsSymmetric 6 0 new_type_graph
      (record { same_types = λ a. refl; backwards = λ a b. refl })

add_dynamic_caller-IsValid_example :
    (h : CallGraph) × (add_dynamic_caller 4 no_params one_func ≡ ok h)
    × CallGraph.Dynamic.IsValid h
    × (mem 4 (dynamic_callers no_params h) ≡ true)
    × (dynamic_callees no_params h ≡ dynamic_callees no_params one_func)
    × ((x y : ℕ)
        → CallGraph.contains_edge x y h ≡ (
            CallGraph.contains_edge x y one_func
            || 4 == x && mem y (dynamic_callees no_params one_func)))
unfolding one_func add_func new_func_call_graph
add_dynamic_caller-IsValid_example =
    add_dynamic_caller-IsValid 4 no_params one_func one_func-IsValid refl

add_dynamic_callee-IsValid_example :
    (h : CallGraph) × (add_dynamic_callee 4 no_params one_func ≡ ok h)
    × CallGraph.Dynamic.IsValid h
    × (mem 4 (dynamic_callees no_params h) ≡ true)
    × (dynamic_callers no_params h ≡ dynamic_callers no_params one_func)
    × ((x y : ℕ)
        → CallGraph.contains_edge x y h ≡ (
            CallGraph.contains_edge x y one_func
            || mem x (dynamic_callers no_params one_func) && 4 == y))
unfolding one_func add_func new_func_call_graph
add_dynamic_callee-IsValid_example =
    add_dynamic_callee-IsValid 4 no_params one_func one_func-IsValid refl
