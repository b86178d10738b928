-- ===== src/Analyzer/CallGraphBuilder/Calls.antt =====
-- The calls of a program are edges of its call graph.
use toph.Prelude.{
  Bool, Bool-cases, List, [], inl, inr, mem, some_of, true, ℕ, ◌∙◌, ◌∷◌, ◌≡◌, ◌==◌, arith, All,
  ◌&&◌, ==_iff, ap, refl,
}
use toph.Ir.Stmts.{Stmt, CallKind}
use toph.Ir.Program.{Program}
use toph.Analyzer.CallGraph.{CallGraph}
use toph.Analyzer.CallGraph.Dynamic.{IsValid}
use toph.Analyzer.CallGraphBuilder.{add_call, add_calls, add_calls_to_graph, walk_stmts}
use toph.Analyzer.CallGraphBuilder.Callees.{has_callee, calls, Agrees, skip-Grown, add_call-Grown}
use toph.Analyzer.CallGraphBuilder.Edges.{Grown, >>=-Grown, refl-Grown}
use toph.Ir.Walk.{walk_stmts}

module _ (p : Program) (kinds : CallKind → Bool) (func_signature : ℕ) (known : ℕ → Bool) where
  add_calls-Grown :
      (a : ℕ) (ss : List (Stmt × ℕ)) (g : CallGraph)
      → IsValid g
      → Agrees p kinds func_signature known g
      → known a ≡ true
      → All (λ s. has_callee p kinds func_signature known s.0 ≡ true) ss
      → Grown
          (λ x y. x == a && some_of (λ s. calls p kinds func_signature known y s.0) ss)
          g
          (add_calls p kinds func_signature a ss g)
  unfolding add_calls
  add_calls-Grown a [] g w m k q = skip-Grown p kinds func_signature known a g w
  add_calls-Grown a ((s, i) ∷ ss) g w m k (q, qs) =
      >>=-Grown (λ x y. x == a && calls p kinds func_signature known y s)
        (λ x y. x == a && some_of (λ s. calls p kinds func_signature known y s.0) ss)
        (λ x y. x == a && some_of (λ s. calls p kinds func_signature known y s.0) ((s, i) ∷ ss)) g
        (add_call p kinds func_signature a s g) (add_calls p kinds func_signature a ss)
        (λ x y n. ground (arith, n)) (add_call-Grown p kinds func_signature known a s g w m k q)
        (λ h x. add_calls-Grown a ss h x.valid (λ f. x.knows f ∙ m f) k qs)

  -- The statements of a function.
  abbrev pub stmts : ℕ → List (Stmt × ℕ)
  stmts f = walk_stmts (p.func_at f).body_of

  abbrev pub calls_from : List ℕ → ℕ → ℕ → Bool
  calls_from fs x y = mem x fs && some_of (λ s. calls p kinds func_signature known y s.0) (stmts x)

  pub graph-Grown :
      (fs : List ℕ) (g : CallGraph)
      → IsValid g
      → Agrees p kinds func_signature known g
      → All (λ f. known f ≡ true) fs
      → All (λ f. All (λ s. has_callee p kinds func_signature known s.0 ≡ true) (stmts f)) fs
      → Grown (calls_from fs) g (add_calls_to_graph p kinds func_signature fs g)
  unfolding add_calls_to_graph
  graph-Grown [] g w m k q = refl-Grown (calls_from []) g w (λ x y. refl)
  graph-Grown (f ∷ fs) g w m (k, ks) (q, qs) =
      >>=-Grown (λ x y. x == f && some_of (λ s. calls p kinds func_signature known y s.0) (stmts f))
        (calls_from fs) (calls_from (f ∷ fs)) g (add_calls p kinds func_signature f (stmts f) g)
        (add_calls_to_graph p kinds func_signature fs)
        (λ x y n. elim (Bool-cases (x == f)) [
          | inl c ↦
              let (i, _) = ==_iff x f in
              let r =
                ap (λ z. some_of (λ s. calls p kinds func_signature known y s.0) (stmts z)) (i c) in
              ground (arith, n, c, r)
          | inr c ↦ ground (arith, n, c)
        ])
        (add_calls-Grown f (stmts f) g w m k q)
        (λ h x. graph-Grown fs h x.valid (λ z. x.knows z ∙ m z) ks qs)
