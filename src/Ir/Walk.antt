-- ===== src/Ir/Walk.antt =====
-- WalkStmts of ir/body.go: the statements that a body holds at any depth, in the order in which the
-- visitor gets them, each with the scope that it stands in. The operations of the cases of a select
-- statement are not visited.
use toph.Ir.Stmts.{
  Stmt, if_stmt, for_stmt, select, switch, chan_range, container_range, Body, body, Stmts, end,
  next, Conds, no_conds, cond, SwitchCases, no_cases, switch_case, SelectCases, no_select_cases,
  select_case,
}
use toph.Prelude.{◌++◌, List, [], ℕ, ◌∷◌}

unfoldable mutual
  pub walk_inner : Stmt → List (Stmt × ℕ)
  walk_inner (select _ cases _ default) = walk_select_cases cases ++ walk_stmts default
  walk_inner (if_stmt a b) = walk_stmts a ++ walk_stmts b
  walk_inner (switch _ cases) = walk_switch_cases cases
  walk_inner (for_stmt _ c b) = walk_stmts c ++ walk_stmts b
  walk_inner (chan_range _ _ b) = walk_stmts b
  walk_inner (container_range _ _ _ _ b) = walk_stmts b
  walk_inner _ = []

  pub walk_stmts : Body → List (Stmt × ℕ)
  walk_stmts (body scope ss) = walk_all scope ss

  pub walk_all : ℕ → Stmts → List (Stmt × ℕ)
  walk_all scope end = []
  walk_all scope (next s ss) = (s, scope) ∷ (walk_inner s ++ walk_all scope ss)

  pub walk_conds : Conds → List (Stmt × ℕ)
  walk_conds no_conds = []
  walk_conds (cond b cs) = walk_stmts b ++ walk_conds cs

  pub walk_switch_cases : SwitchCases → List (Stmt × ℕ)
  walk_switch_cases no_cases = []
  walk_switch_cases (switch_case _ cs b rest) =
      walk_conds cs ++ (walk_stmts b ++ walk_switch_cases rest)

  pub walk_select_cases : SelectCases → List (Stmt × ℕ)
  walk_select_cases no_select_cases = []
  walk_select_cases (select_case _ b rest) = walk_stmts b ++ walk_select_cases rest
