-- ===== src/Analyzer/CallGraphBuilder/Funcs.antt =====
-- The functions of a program enter its call graph before their calls.
use toph.Prelude.{
  Bool, List, [], ◌∷◌, ◌∙◌, ◌≡◌, ◌||◌, ◌==◌, ℕ, mem, true, refl, All, All-map, ==_iff, Bool-cases,
  subst, sym, ap, inl, inr, false, some_of, ◌&&◌, arith, find-put,
}
use toph.Ir.Stmts.{CallKind}
use toph.Ir.Program.{Program}
use toph.Ir.Walk.{walk_stmts}
use toph.Analyzer.CallGraph.{CallGraph, add_func, insert_func, contains_edge}
use toph.Analyzer.CallGraph.Dynamic.{IsValid, IsLinked, is_known}
use toph.Analyzer.CallGraphBuilder.{add_funcs_to_graph, add_calls_to_graph, ok}
use toph.Analyzer.CallGraphBuilder.Callees.{has_callee, calls}
use toph.Analyzer.CallGraphBuilder.Calls.{graph-Grown}

-- A valid graph with further functions.
record Entered (fs : List ℕ) (g h : CallGraph) : Type 0 where
  valid : IsValid h
  knows : (f : ℕ) → is_known f h ≡ (mem f fs || is_known f g)
  edges : (a b : ℕ) → contains_edge a b h ≡ contains_edge a b g

insert_func-Entered :
    (f : ℕ) (g : CallGraph)
    → IsValid g
    → is_known f g ≡ false
    → Entered (f ∷ []) g (insert_func f g)
insert_func-Entered f g w n = record {
  valid = record {
    symmetric = record {
      same_funcs = λ a. ground (
        arith,
        w.symmetric.same_funcs a,
        find-put f a [] g.caller_to_callees,
        find-put f a [] g.callee_to_callers,
      );
      backwards = λ a b. ground (
        arith,
        n,
        w.symmetric.same_funcs f,
        w.symmetric.backwards a b,
        find-put f a [] g.caller_to_callees,
        find-put f b [] g.callee_to_callers,
      );
    };
    linked =
        All-map (IsLinked g) (IsLinked (insert_func f g)) g.dynamic_call_infos
          (λ d (p, q, r). (
            λ a m. ground (arith, p a m, find-put f a [] g.caller_to_callees),
            λ b m. ground (arith, q b m, find-put f b [] g.caller_to_callees),
            λ a b m k. ground (arith, r a b m k, n, find-put f a [] g.caller_to_callees),
          ))
          w.linked;
  };
  knows = λ a. ground (arith, find-put f a [] g.caller_to_callees);
  edges = λ a b. ground (arith, n, find-put f a [] g.caller_to_callees);
}

add_func-Entered : (f : ℕ) (g : CallGraph) → IsValid g → Entered (f ∷ []) g (add_func f g)
unfolding add_func
add_func-Entered f g w = elim (Bool-cases (is_known f g)) [
  | inl e ↦
      let r : add_func f g ≡ g = rw (e, add_func) refl in
      subst (Entered (f ∷ []) g) (sym r) (record {
        valid = w;
        knows = λ a. elim (Bool-cases (f == a)) [
          | inl c ↦
              let (i, _) = ==_iff f a in
              let k = ap (λ x. is_known x g) (i c) in ground (arith, k, e, c)
          | inr c ↦ ground (arith, c)
        ];
        edges = λ a b. refl;
      })
  | inr e ↦
      let r : add_func f g ≡ insert_func f g = rw (e, add_func) refl in
      subst (Entered (f ∷ []) g) (sym r) (insert_func-Entered f g w e)
]

add_funcs-Entered :
    (fs : List ℕ) (g : CallGraph) → IsValid g → Entered fs g (add_funcs_to_graph fs g)
unfolding add_funcs_to_graph
add_funcs-Entered [] g w = record { valid = w; knows = λ f. refl; edges = λ a b. refl }
add_funcs-Entered (f ∷ fs) g w =
    let x = add_func-Entered f g w in
    let y = add_funcs-Entered fs (add_func f g) x.valid in
    record {
      valid = y.valid;
      knows = λ a. ground (arith, y.knows a, x.knows a);
      edges = λ a b. y.edges a b ∙ x.edges a b;
    }

known_members :
    (known : ℕ → Bool) (fs : List ℕ)
    → ((f : ℕ) → mem f fs ≡ true → known f ≡ true)
    → All (λ f. known f ≡ true) fs
known_members known [] h = tt
known_members known (f ∷ fs) h =
    (h f (ground arith), known_members known fs (λ a m. h a (ground (arith, m))))

-- Where each counted call in some functions goes to one of them, to a function that the graph knows
-- or to a variable, entering the functions into a valid graph and then their calls does not panic.
-- The graph stays valid, knows no function besides the ones entered and those of before, keeps its
-- edges, and has an edge for each counted call of a function by its name, and for each function that
-- a once runs.
pub add_calls_to_graph_lem :
    (p : Program) (kinds : CallKind → Bool) (func_signature : ℕ) (fs : List ℕ) (g : CallGraph)
    → IsValid g
    → All
        (λ f.
          All
            (λ s. has_callee p kinds func_signature (λ b. mem b fs || is_known b g) s.0 ≡ true)
            (walk_stmts (p.func_at f).body_of))
        fs
    → (h : CallGraph) × (add_calls_to_graph p kinds func_signature fs (add_funcs_to_graph fs g)
        ≡ ok h)
      × IsValid h
      × ((f : ℕ) → is_known f h ≡ (mem f fs || is_known f g))
      × ((a b : ℕ) → contains_edge a b g ≡ true → contains_edge a b h ≡ true)
      × ((a b : ℕ)
          → (mem a fs
              && some_of
                  (λ s. calls p kinds func_signature (λ x. mem x fs || is_known x g) b s.0)
                  (walk_stmts (p.func_at a).body_of))
            ≡ true
          → contains_edge a b h ≡ true)
add_calls_to_graph_lem p kinds func_signature fs g w q =
    let x = add_funcs-Entered fs g w in
    let (h, e, y, calls_in) =
      graph-Grown p kinds func_signature (λ b. mem b fs || is_known b g) fs
        (add_funcs_to_graph fs g) x.valid x.knows
        (known_members (λ b. mem b fs || is_known b g) fs (λ f m. ground (arith, m))) q in
    (h, e, y.valid, λ f. y.knows f ∙ x.knows f, λ a b m. y.edges a b (x.edges a b ∙ m), calls_in)
