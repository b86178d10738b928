-- ===== src/Analyzer/TypeGraph/Edges.antt =====
-- The two maps of a type graph hold the same edges: addType and addDependency.
use toph.Prelude.{
  ok, ◌&&◌, ◌==◌, List, [], arith, false, find, find-put, is_some, mem, mem-append, refl, true,
  ◌||◌, ℕ, ◌∷◌, ◌≡◌,
}
use toph.Analyzer.TypeGraph.{
  TypeGraph, at, contains_edge, include, add_type, add_dependency, write_dependency, panic, nil_map,
}

-- Each map is the other one read backwards, and both know the same types.
pub record IsSymmetric (g : TypeGraph) : Type 0 where
  pub same_types : (t : ℕ) → is_some (find t g.dependees) ≡ is_some (find t g.dependants)
  pub backwards : (t u : ℕ) → mem u (at t g.dependees) ≡ mem t (at u g.dependants)

mem-include : (t u : ℕ) (ts : List ℕ) → mem u (include t ts) ≡ (t == u || mem u ts)
mem-include t u ts = ground (arith, mem-append u ts (t ∷ []))

-- On a graph with symmetric maps, adding a type keeps the maps symmetric and all edges, and makes the type known.
pub add_type-IsSymmetric :
    (t : ℕ) (g : TypeGraph)
    → IsSymmetric g
    → IsSymmetric (add_type t g)
      × (is_some (find t (add_type t g).dependees) ≡ true)
      × ((a b : ℕ) → contains_edge a b (add_type t g) ≡ contains_edge a b g)
unfolding add_type
add_type-IsSymmetric t g w = (
  record {
    same_types = λ a.
        ground (arith, w.same_types a, find-put t a [] g.dependees, find-put t a [] g.dependants);
    backwards = λ a b. ground (
      arith,
      w.backwards a b,
      w.same_types t,
      find-put t a [] g.dependees,
      find-put t b [] g.dependants,
    );
  },
  ground (arith, find-put t t [] g.dependees),
  λ a b. ground (arith, find-put t a [] g.dependees),
)

-- On a graph with symmetric maps, adding a dependency between two types panics where either is unknown. Otherwise it adds that one
-- edge, keeps all others, keeps the maps symmetric, and the order found before is not used again.
pub add_dependency-IsSymmetric :
    (t u : ℕ) (g : TypeGraph)
    → IsSymmetric g
    → ((is_some (find t g.dependees) && is_some (find u g.dependees)) ≡ false
        → add_dependency t u g ≡ panic nil_map)
      × ((is_some (find t g.dependees) && is_some (find u g.dependees)) ≡ true
          → (h : TypeGraph) × (add_dependency t u g ≡ ok h)
            × IsSymmetric h
            × ((a b : ℕ) → contains_edge a b h ≡ (t == a && u == b || contains_edge a b g))
            × (h.topological_order_ok ≡ false))
unfolding add_dependency
add_dependency-IsSymmetric t u g w = (
  λ p. ground (arith, p, w.same_types u),
  λ p.
      let us = at t g.dependees in
      let ts = at u g.dependants in
      (
        write_dependency t u us ts g,
        ground (arith, p, w.same_types u),
        record {
          same_types = λ a. ground (
            arith,
            p,
            w.same_types a,
            w.same_types u,
            w.same_types t,
            find-put t a (include u us) g.dependees,
            find-put u a (include t ts) g.dependants,
          );
          backwards = λ a b. ground (
            arith,
            w.backwards a b,
            mem-include u b us,
            mem-include t a ts,
            find-put t a (include u us) g.dependees,
            find-put u b (include t ts) g.dependants,
          );
        },
        λ a b. ground (arith, mem-include u b us, find-put t a (include u us) g.dependees),
        refl,
      ),
)
