-- ===== src/Ir/DeadCode.antt =====
-- ir/optimizer/dead_code_eliminator.go: statements without an effect are removed from bodies, and
-- calls of functions whose bodies are empty.
pub mod Runs
pub mod Bodies
pub mod Funcs
pub mod Program
use toph.Ir.Values.{RValue}
use toph.Ir.Stmts.{
  Stmt, if_stmt, for_stmt, return_stmt, call, Body, body, Stmts, end, next, CallStmt, Callable,
  static, dynamic,
}
use toph.Analyzer.CallGraph.{CallGraph, dynamic_callees}
use toph.Prelude.{
  ◌&&◌, ◌==◌, Bool, List, Option, [], false, if◌then◌else◌, is_empty, none, not, some, true, ℕ, ◌∷◌,
}

abbrev pub is_end : Stmts → Bool
is_end end = true
is_end (next _ _) = false

abbrev pub is_body_empty : Body → Bool
is_body_empty (body _ ss) = is_end ss

-- The statement is kept, possibly changed, or the loop goes on without it.
abbrev pub add_kept : Option Stmt → Stmts → Stmts
add_kept none rest = rest
add_kept (some s) rest = next s rest

unfoldable mutual
  pub without_dead_code : Bool → Stmt → Option Stmt
  without_dead_code is_func_body (if_stmt a b) =
      let a' = eliminate_dead_code_in_body a false in
      let b' = eliminate_dead_code_in_body b false in
      if is_body_empty a' && is_body_empty b' then none else some (if_stmt a' b')
  without_dead_code is_func_body (for_stmt p c b) =
      let c' = eliminate_dead_code_in_body c false in
      let b' = eliminate_dead_code_in_body b false in
      if not p.is_infinite && (is_body_empty c' && is_body_empty b')
      then none
      else some (for_stmt p c' b')
  without_dead_code is_func_body (return_stmt results is_panic) =
      if is_func_body && (not is_panic && is_empty results)
      then none
      else some (return_stmt results is_panic)
  without_dead_code is_func_body s = some s

  pub eliminate_dead_code_in_body : Body → Bool → Body
  eliminate_dead_code_in_body (body scope ss) is_func_body =
      body scope (eliminate_dead_code_in_stmts ss is_func_body)

  pub eliminate_dead_code_in_stmts : Stmts → Bool → Stmts
  eliminate_dead_code_in_stmts end is_func_body = end
  eliminate_dead_code_in_stmts (next s ss) is_func_body =
      add_kept (without_dead_code is_func_body s) (eliminate_dead_code_in_stmts ss is_func_body)

abbrev pub all_of_them : (ℕ → Bool) → List ℕ → Bool
all_of_them p [] = true
all_of_them p (f ∷ fs) = p f && all_of_them p fs

abbrev pub can_eliminate : (ℕ → Bool) → CallGraph → CallStmt → Bool
can_eliminate callees g c = elim c.callee [
  | static f ↦ callees f
  | dynamic _ ↦ all_of_them callees (dynamic_callees c.callee_signature g)
]

abbrev pub is_eliminated : (ℕ → Bool) → CallGraph → Stmt → Bool
is_eliminated callees g (call c) = can_eliminate callees g c
is_eliminated callees g _ = false

unfoldable pub eliminate_func_calls : (ℕ → Bool) → CallGraph → Stmts → Stmts
eliminate_func_calls callees g end = end
eliminate_func_calls callees g (next s ss) =
    let rest = eliminate_func_calls callees g ss in
    if is_eliminated callees g s then rest else next s rest

unfoldable pub eliminate_func_calls_in_body : Body → (ℕ → Bool) → CallGraph → Body
unfolding eliminate_func_calls
eliminate_func_calls_in_body (body scope ss) callees g =
    body scope (eliminate_func_calls callees g ss)

-- The bodies of the functions, and the functions found to be empty.
pub record Progress : Type 0 where
  pub bodies : ℕ → Body
  pub empty_funcs : ℕ → Bool

-- The first loop over the functions of a component.
unfoldable pub eliminate_in_funcs : CallGraph → List ℕ → Progress → Progress
unfolding without_dead_code eliminate_func_calls_in_body
eliminate_in_funcs g [] p = p
eliminate_in_funcs g (f ∷ fs) p = eliminate_in_funcs g fs (record p {
  bodies = λ h.
      if f == h
      then eliminate_func_calls_in_body (eliminate_dead_code_in_body (p.bodies f) true)
          p.empty_funcs g
      else p.bodies h;
})

-- The second loop.
unfoldable pub note_empty_funcs : List ℕ → Progress → Progress
note_empty_funcs [] p = p
note_empty_funcs (f ∷ fs) p = note_empty_funcs fs (record p {
  empty_funcs = λ h. if f == h && is_body_empty (p.bodies f) then true else p.empty_funcs h;
})

-- The components are those with numbers from 1 on, in order.
unfoldable pub eliminate_in_components : CallGraph → List (List ℕ) → Progress → Progress
unfolding eliminate_in_funcs note_empty_funcs
eliminate_in_components g [] p = p
eliminate_in_components g (fs ∷ components) p =
    eliminate_in_components g components (note_empty_funcs fs (eliminate_in_funcs g fs p))

unfoldable pub eliminate_dead_code : CallGraph → List (List ℕ) → (ℕ → Body) → ℕ → Body
unfolding eliminate_in_components
eliminate_dead_code g components bodies =
    let start : Progress = record { bodies = bodies; empty_funcs = λ _. false } in
    (eliminate_in_components g components start).bodies
