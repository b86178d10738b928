-- ===== src/Analyzer/TypeGraph.antt =====
-- ir/analyzer/type_graph.go and type_graph_builder.go: which types hold which others by value, and
-- an order in which a type stands behind all types that it holds. A type is the number that the
-- program gives it: the basic types are 0 to 5.
pub mod Edges
pub mod Order
pub mod Correct
use toph.Prelude.{
  Result, ok, ◌&&◌, ◌++◌, ◌==◌, ◌>>=◌, Bool, List, [], false, find, if◌then◌else◌, is_some, length,
  ltb, mem, none, put, some, suc, true, zero, ℕ, ◌∷◌, panic, out_of_fuel, nil_map, type_cycle,
}

pub record TypeGraph : Type 0 where
  pub dependees : List (ℕ × List ℕ)
  pub dependants : List (ℕ × List ℕ)
  pub topological_order_ok : Bool
  pub topological_order : List ℕ

abbrev pub new_type_graph : TypeGraph
new_type_graph = record {
  dependees = [];
  dependants = [];
  topological_order_ok = false;
  topological_order = [];
}

-- The inner map of a type, which is empty for a missing one.
abbrev pub at : ℕ → List (ℕ × List ℕ) → List ℕ
at t m = elim (find t m) [ none ↦ [] | some us ↦ us ]

abbrev pub contains_edge : ℕ → ℕ → TypeGraph → Bool
contains_edge dependant dependee g = mem dependee (at dependant g.dependees)

unfoldable pub add_type : ℕ → TypeGraph → TypeGraph
add_type t g = if is_some (find t g.dependees) then g else record g {
  dependees = put t [] g.dependees;
  dependants = put t [] g.dependants;
  topological_order_ok = false;
}

-- A write to an inner set.
abbrev pub include : ℕ → List ℕ → List ℕ
include t ts = if mem t ts then ts else ts ++ t ∷ []

abbrev pub write_dependency : ℕ → ℕ → List ℕ → List ℕ → TypeGraph → TypeGraph
write_dependency dependant dependee us ts g = record g {
  dependees = put dependant (include dependee us) g.dependees;
  dependants = put dependee (include dependant ts) g.dependants;
  topological_order_ok = false;
}

-- A write to the map of a type that was not added panics.
unfoldable pub add_dependency : ℕ → ℕ → TypeGraph → Result TypeGraph
add_dependency dependant dependee g = elim (find dependant g.dependees) [
  | none ↦ panic nil_map
  | some us ↦ elim (find dependee g.dependants) [
    | none ↦ panic nil_map
    | some ts ↦ ok (write_dependency dependant dependee us ts g)
  ]
]

abbrev pub basic_types : List ℕ
basic_types = 0 ∷ 1 ∷ 2 ∷ 3 ∷ 4 ∷ 5 ∷ []

-- Whether a list holds all elements of another.
abbrev pub all_in : List ℕ → List ℕ → Bool
all_in ts [] = true
all_in ts (u ∷ us) = mem u ts && all_in ts us

-- The loop over the candidates. The set `added` holds what the order holds, and is tested by it.
unfoldable pub add_candidates : List (ℕ × List ℕ) → List ℕ → List ℕ
add_candidates [] order = order
add_candidates ((t, us) ∷ m) order =
    if mem t order
    then add_candidates m order
    else (if all_in order us then add_candidates m (order ++ t ∷ []) else add_candidates m order)

-- The outer loop on fuel. In round `n` the map yields its entries in the order `range n`.
unfoldable pub order_rounds : (ℕ → List (ℕ × List ℕ)) → ℕ → ℕ → ℕ → List ℕ → Result (List ℕ)
unfolding add_candidates
order_rounds range count zero n order = panic out_of_fuel
order_rounds range count (suc fuel) n order =
    let next = add_candidates (range n) order in
    let rest = order_rounds range count fuel (suc n) next in
    if ltb (length order) count
    then (if length next == length order then panic type_cycle else rest)
    else ok order

unfoldable pub update_topological_order : (ℕ → List (ℕ × List ℕ)) → TypeGraph → Result TypeGraph
unfolding order_rounds
update_topological_order range g =
    if g.topological_order_ok
    then ok g
    else order_rounds range (length g.dependees) (suc (length g.dependees)) 0 basic_types
      >>= λ order. ok (record g { topological_order_ok = true; topological_order = order })

pub topological_order : (ℕ → List (ℕ × List ℕ)) → TypeGraph → Result (List ℕ × TypeGraph)
unfolding update_topological_order
topological_order range g = update_topological_order range g >>= λ h. ok (h.topological_order, h)
