-- ===== src/Ir/DeadCode/Funcs.antt =====
-- Dead code elimination keeps the runs of a function.
use toph.Ir.Stmts.{
  Stmt, assign, branch, call, make_chan, chan_comm_op, close_chan, dead_end, copy_slice,
  delete_map_entry, mutex_op, wait_group_op, once_do, make_struct, make_container, return_stmt,
  recover, select, if_stmt, switch, for_stmt, chan_range, container_range, Body, body, Stmts, end,
  next, CallStmt,
}
use toph.Analyzer.CallGraph.{CallGraph}
use toph.Ir.DeadCode.{
  is_end, add_kept, without_dead_code, eliminate_dead_code_in_body, eliminate_dead_code_in_stmts,
  can_eliminate, is_eliminated, eliminate_func_calls, eliminate_func_calls_in_body, RValue,
}
use toph.Ir.DeadCode.Runs.{
  done, returned, Meaning, Silent, Sequence, Same, refl-Same, trans-Same, Finished, Finished-Same,
  Sequence-Finished, Sequence-Same, Sequence-Silent, RunsStmt, RunsBody, RunsStmts, finish,
  RunsFunc,
}
use toph.Ir.DeadCode.Bodies.{RunsKept, add_kept-Same, kept_stmt}
use toph.Prelude.{
  ◌&&◌, Bool, List, false, if◌then◌else◌, inl, inr, is_empty, not, refl, true, ◌≡◌, [], arith, ◌∷◌,
  sym, ap, ℕ, ◌∙◌, ◌≢◌,
}
use toph.Ir.Values.{RValue}

-- The statement that the elimination takes out of the body of a function.
abbrev pub is_bare_return : Stmt → Bool
is_bare_return (return_stmt results is_panic) = not is_panic && is_empty results
is_bare_return _ = false

-- No statement follows a bare return.
unfoldable pub is_return_last : Stmts → Bool
is_return_last end = true
is_return_last (next s ss) = (if is_bare_return s then is_end ss else true) && is_return_last ss

unfoldable pub is_body_return_last : Body → Bool
unfolding is_return_last
is_body_return_last (body _ ss) = is_return_last ss

not_bare_lem :
    (s : Stmt) → is_bare_return s ≡ false → without_dead_code true s ≡ without_dead_code false s
unfolding without_dead_code
not_bare_lem (if_stmt a b) h = refl
not_bare_lem (for_stmt p c b) h = refl
not_bare_lem (return_stmt x y) h = rw h refl
not_bare_lem (assign x y z) h = refl
not_bare_lem (branch x y) h = refl
not_bare_lem (call x) h = refl
not_bare_lem (make_chan x y) h = refl
not_bare_lem (chan_comm_op x y) h = refl
not_bare_lem (close_chan x) h = refl
not_bare_lem dead_end h = refl
not_bare_lem (copy_slice x y) h = refl
not_bare_lem (delete_map_entry x) h = refl
not_bare_lem (mutex_op x y) h = refl
not_bare_lem (wait_group_op x y z) h = refl
not_bare_lem (once_do x y) h = refl
not_bare_lem (make_struct x y) h = refl
not_bare_lem (make_container x y z) h = refl
not_bare_lem recover h = refl
not_bare_lem (select x y z w) h = refl
not_bare_lem (switch x y) h = refl
not_bare_lem (chan_range x y z) h = refl
not_bare_lem (container_range x y z w v) h = refl

true≢false : true ≢ false
true≢false h = cc

-- A bare return has no results and is no panic.
is_bare_return_lem : (s : Stmt) → is_bare_return s ≡ true → s ≡ return_stmt [] false
is_bare_return_lem (return_stmt [] false) h = refl
is_bare_return_lem (return_stmt [] true) h = absurd (true≢false (sym h))
is_bare_return_lem (return_stmt (r ∷ rs) p) h = ground (arith, h)
is_bare_return_lem _ h = absurd (true≢false (sym h))

is_end_lem : (ss : Stmts) → is_end ss ≡ true → ss ≡ end
is_end_lem end h = refl
is_end_lem (next s ss) h = cc

eliminated_lem :
    (callees : ℕ → Bool) (g : CallGraph) (s : Stmt)
    → is_eliminated callees g s ≡ true
    → (c : CallStmt) × (s ≡ call c) × (can_eliminate callees g c ≡ true)
eliminated_lem callees g (call c) h = (c, refl, h)
eliminated_lem callees g _ h = absurd (true≢false (sym h))

module _ {E : Type 0} (Leaf : Stmt → Meaning E) where
  returned≢done : {rs : List (ℕ × RValue)} {p : Bool} → returned rs p ≢ done
  returned≢done h = cc

  bare-Same :
      Same (Finished (RunsStmts Leaf (next (return_stmt [] false) end))) (Finished (Silent {E = E}))
  unfolding RunsStmt
  bare-Same t o = (
    λ (q, r, h). elim r [
      | inl (t₁, t₂, e, (x, y), z) ↦ absurd (returned≢done (sym y))
      | inr ((x, y), n) ↦ (done, (x, refl), ap finish (sym y) ∙ h)
    ],
    λ (q, (x, y), h). (returned [] false, inr ((x, refl), returned≢done), ap finish (sym y) ∙ h),
  )

  kept_next :
      (s : Stmt) (ss ss' : Stmts) (bare : Bool)
      → is_bare_return s ≡ bare
      → ((if bare then is_end ss else true) && is_return_last ss) ≡ true
      → (is_end ss ≡ true → is_end ss' ≡ true)
      → (is_return_last ss ≡ true
          → Same (Finished (RunsStmts Leaf ss)) (Finished (RunsStmts Leaf ss')))
      → Same
          (Finished (RunsStmts Leaf (next s ss)))
          (Finished (RunsStmts Leaf (add_kept (without_dead_code true s) ss')))
  unfolding RunsStmt without_dead_code
  kept_next s ss ss' true b h e f =
      let u : is_end ss ≡ true = ground (arith, h) in
      rw (is_bare_return_lem s b, is_end_lem ss u, is_end_lem ss' (e u)) bare-Same
  kept_next s ss ss' false b h e f =
      let kept = without_dead_code false s in
      rw (not_bare_lem s b) (
        trans-Same (Finished (RunsStmts Leaf (next s ss)))
          (Finished (Sequence (RunsStmt Leaf s) (RunsStmts Leaf ss')))
          (Finished (RunsStmts Leaf (add_kept kept ss')))
          (Sequence-Finished (RunsStmt Leaf s) (RunsStmts Leaf ss) (RunsStmts Leaf ss')
            (f (ground (arith, h))))
          (Finished-Same (Sequence (RunsStmt Leaf s) (RunsStmts Leaf ss'))
            (RunsStmts Leaf (add_kept kept ss'))
            (trans-Same (Sequence (RunsStmt Leaf s) (RunsStmts Leaf ss'))
              (Sequence (RunsKept Leaf kept) (RunsStmts Leaf ss'))
              (RunsStmts Leaf (add_kept kept ss'))
              (Sequence-Same (RunsStmt Leaf s) (RunsStmts Leaf ss') (RunsKept Leaf kept)
                (RunsStmts Leaf ss') (kept_stmt Leaf s) (refl-Same (RunsStmts Leaf ss')))
              (add_kept-Same Leaf kept ss'))))

  kept_finished :
      (ss : Stmts)
      → is_return_last ss ≡ true
      → Same
          (Finished (RunsStmts Leaf ss))
          (Finished (RunsStmts Leaf (eliminate_dead_code_in_stmts ss true)))
  unfolding RunsStmt without_dead_code is_return_last
  kept_finished end h = refl-Same (Finished (Silent {E = E}))
  kept_finished (next s ss) h =
      kept_next s ss (eliminate_dead_code_in_stmts ss true) (is_bare_return s) refl h
        (λ u. rw (is_end_lem ss u) refl) (kept_finished ss)

  -- A function whose bare returns are all last has the same runs when its dead code is gone.
  kept_func :
      (b : Body)
      → is_body_return_last b ≡ true
      → Same (RunsFunc Leaf b) (RunsFunc Leaf (eliminate_dead_code_in_body b true))
  unfolding RunsStmt without_dead_code is_body_return_last
  kept_func (body p ss) h = kept_finished ss h

  -- What is left of the list `next s ss`, when the rest of it has become `rest`.
  kept_call :
      (callees : ℕ → Bool) (g : CallGraph)
      → ((c : CallStmt) → can_eliminate callees g c ≡ true → Same (Leaf (call c)) Silent)
      → (s : Stmt) (rest : Stmts) (b : Bool) → is_eliminated callees g s ≡ b
      → Same
          (Sequence (RunsStmt Leaf s) (RunsStmts Leaf rest))
          (RunsStmts Leaf (if b then rest else next s rest))
  unfolding RunsStmt
  kept_call callees g silent s rest false h = refl-Same (RunsStmts Leaf (next s rest))
  kept_call callees g silent s rest true h =
      let (c, e, k) = eliminated_lem callees g s h in
      let P = RunsStmt Leaf s in
      let R = RunsStmts Leaf rest in
      let quiet : Same P Silent = rw e (silent c k) in
      trans-Same (Sequence P R) (Sequence Silent R) R
        (Sequence-Same P R Silent R quiet (refl-Same R)) (Sequence-Silent R)

  kept_calls :
      (callees : ℕ → Bool) (g : CallGraph)
      → ((c : CallStmt) → can_eliminate callees g c ≡ true → Same (Leaf (call c)) Silent)
      → (ss : Stmts) → Same (RunsStmts Leaf ss) (RunsStmts Leaf (eliminate_func_calls callees g ss))
  unfolding RunsStmt eliminate_func_calls
  kept_calls callees g silent end = refl-Same (Silent {E = E})
  kept_calls callees g silent (next s ss) =
      let rest = eliminate_func_calls callees g ss in
      trans-Same (RunsStmts Leaf (next s ss)) (Sequence (RunsStmt Leaf s) (RunsStmts Leaf rest))
        (RunsStmts Leaf (eliminate_func_calls callees g (next s ss)))
        (Sequence-Same (RunsStmt Leaf s) (RunsStmts Leaf ss) (RunsStmt Leaf s) (RunsStmts Leaf rest)
          (refl-Same (RunsStmt Leaf s)) (kept_calls callees g silent ss))
        (kept_call callees g silent s rest (is_eliminated callees g s) refl)

  kept_calls_in_body :
      (callees : ℕ → Bool) (g : CallGraph)
      → ((c : CallStmt) → can_eliminate callees g c ≡ true → Same (Leaf (call c)) Silent)
      → (b : Body)
      → Same (RunsBody Leaf b) (RunsBody Leaf (eliminate_func_calls_in_body b callees g))
  unfolding RunsStmt eliminate_func_calls_in_body
  kept_calls_in_body callees g silent (body p ss) = kept_calls callees g silent ss

  -- The runs of a function whose bare returns are last in its body stay the same when its dead code
  -- and its calls of functions are eliminated that may be eliminated, where such calls do nothing.
  pub eliminate_in_func-Same :
      (callees : ℕ → Bool) (g : CallGraph) (b : Body)
      → is_body_return_last b ≡ true
      → ((c : CallStmt) → can_eliminate callees g c ≡ true → Same (Leaf (call c)) Silent)
      → Same (RunsFunc Leaf b) (
          RunsFunc Leaf
            (eliminate_func_calls_in_body (eliminate_dead_code_in_body b true) callees g))
  eliminate_in_func-Same callees g b last silent =
      let b' = eliminate_dead_code_in_body b true in
      let b'' = eliminate_func_calls_in_body b' callees g in
      trans-Same (RunsFunc Leaf b) (RunsFunc Leaf b') (RunsFunc Leaf b'') (kept_func b last) (
        Finished-Same (RunsBody Leaf b') (RunsBody Leaf b'')
          (kept_calls_in_body callees g silent b'))
