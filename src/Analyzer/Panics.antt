-- ===== src/Analyzer/Panics.antt =====
-- ir/analyzer/call_graph_builder.go: which functions can panic, by themselves or through what they
-- call, and which recover.
pub mod Scan
pub mod Closed
use toph.Ir.Stmts.{Stmt, return_stmt, recover}
use toph.Ir.Walk.{walk_stmts}
use toph.Ir.Program.{Program}
use toph.Analyzer.CallGraph.{CallGraph, set_at}
use toph.Prelude.{
  ◌&&◌, ◌==◌, Bool, List, [], false, if◌then◌else◌, ltb, mem, some_of, true, ◌||◌, ℕ, ◌∷◌, length,
}

abbrev is_panic_return : Stmt → Bool
is_panic_return (return_stmt _ is_panic) = is_panic
is_panic_return _ = false

abbrev is_recover : Stmt → Bool
is_recover recover = true
is_recover _ = false

unfoldable pub can_panic_internally : Program → ℕ → Bool
unfolding walk_stmts
can_panic_internally p f = some_of (λ s. is_panic_return s.0) (walk_stmts (p.func_at f).body_of)

unfoldable pub can_recover : Program → ℕ → Bool
unfolding walk_stmts
can_recover p f = some_of (λ s. is_recover s.0) (walk_stmts (p.func_at f).body_of)

abbrev pub set_flag : ℕ → Bool → (ℕ → Bool) → ℕ → Bool
set_flag f b flags h = if f == h then b else flags h

-- The callees of a function, and which functions can panic by themselves.
module _ (callees : ℕ → List ℕ) (internally : ℕ → Bool) where
  -- The loop over callees, which ends at the first one that can panic.
  unfoldable pub some_can_panic : (ℕ → Bool) → List ℕ → Bool
  some_can_panic externally [] = false
  some_can_panic externally (b ∷ bs) =
      if internally b || externally b then true else some_can_panic externally bs

  -- The first loop over the functions of a component, with the flag for the component.
  unfoldable pub scan_callers : List ℕ → (ℕ → Bool) → Bool → (ℕ → Bool) × Bool
  unfolding some_can_panic
  scan_callers [] externally in_scc = (externally, in_scc)
  scan_callers (f ∷ fs) externally in_scc =
      let e = some_can_panic externally (callees f) in
      scan_callers fs (set_flag f e externally) (if internally f || e then true else in_scc)

  -- The second loop.
  unfoldable pub mark_all : List ℕ → (ℕ → Bool) → ℕ → Bool
  mark_all [] externally = externally
  mark_all (f ∷ fs) externally = mark_all fs (set_flag f true externally)

  abbrev pub finish_scc : List ℕ → (ℕ → Bool) × Bool → ℕ → Bool
  finish_scc fs (externally, in_scc) =
      if ltb 1 (length fs) && in_scc then mark_all fs externally else externally

  unfoldable pub analyze_scc : List ℕ → (ℕ → Bool) → ℕ → Bool
  unfolding scan_callers mark_all
  analyze_scc fs externally = finish_scc fs (scan_callers fs externally false)

  unfoldable pub analyze_sccs : List (List ℕ) → (ℕ → Bool) → ℕ → Bool
  unfolding analyze_scc
  analyze_sccs [] externally = externally
  analyze_sccs (fs ∷ sccs) externally = analyze_sccs sccs (analyze_scc fs externally)

-- The flags of the functions of the program are written, then those of the components in the order of
-- their numbers, from 1 on.
unfoldable pub analyze_panics : Program → List (List ℕ) → CallGraph → CallGraph
unfolding can_panic_internally can_recover analyze_sccs
analyze_panics p sccs g =
    let internally : ℕ → Bool =
      λ f. if mem f p.funcs then can_panic_internally p f else g.can_panic_internally f in
    record g {
      can_panic_internally = internally;
      recovers = λ f. if mem f p.funcs then can_recover p f else g.recovers f;
      can_panic_externally =
          analyze_sccs (λ f. set_at f g.caller_to_callees) internally sccs g.can_panic_externally;
    }
