-- ===== src/Analyzer/CallGraphBuilder.antt =====
-- ir/analyzer/call_graph_builder.go: the functions and calls of a program enter its call graph.
pub mod Edges
pub mod Callees
pub mod Calls
pub mod Funcs
pub mod Propagation
use toph.Prelude.Word
use toph.Prelude.{
  Result, ok, panic, nil_map, nil_dereference, unknown_kind, out_of_fuel, ◌&&◌, ◌++◌, ◌>>=◌, Bool,
  List, Option, [], false, if◌then◌else◌, none, not, some, suc, zero, ℕ, ◌∷◌,
}
use toph.Ir.Types.{IrType, basic, func_type, Value, Signature, type_eq}
use toph.Ir.Values.{RValue, value, held, container_length, variable_type}
use toph.Ir.Stmts.{
  Stmt, assign, call, once_do, return_stmt, CallKind, call_kind, CallStmt, Callable, static,
  dynamic,
}
use toph.Ir.Walk.{walk_stmts}
use toph.Ir.Program.{Program, func}
use toph.Analyzer.CallGraph.{
  CallGraph, add_func, add_static_call, add_dynamic_caller, add_dynamic_callee, zero_callee_counts,
}

unfoldable pub add_funcs_to_graph : List ℕ → CallGraph → CallGraph
unfolding add_func
add_funcs_to_graph [] g = g
add_funcs_to_graph (f ∷ fs) g = add_funcs_to_graph fs (add_func f g)

-- The program, the call kinds that count, and the class of `func()`.
module _ (p : Program) (kinds : CallKind → Bool) (func_signature : ℕ) where
  abbrev pub no_params : Signature
  no_params = record { recv = none; shape = func_signature }

  abbrev pub add_callee : ℕ → CallStmt → Callable → CallGraph → Result CallGraph
  add_callee caller c (static b) g = add_static_call caller b g
  add_callee caller c (dynamic _) g = add_dynamic_caller caller c.callee_signature g

  -- A call of the nil function panics.
  abbrev pub add_index_call : ℕ → Option ℕ → CallGraph → Result CallGraph
  add_index_call caller none g = panic nil_map
  add_index_call caller (some b) g = add_static_call caller b g

  abbrev pub add_once_call : ℕ → RValue → CallGraph → Result CallGraph
  add_once_call caller (value v) g = add_index_call caller (func v.v p) g
  add_once_call caller (held _) g = add_dynamic_caller caller no_params g
  add_once_call caller (container_length _) g = panic unknown_kind

  unfoldable pub add_call : ℕ → Stmt → CallGraph → Result CallGraph
  unfolding add_static_call add_dynamic_caller
  add_call caller (call c) g = if kinds c.call_kind then add_callee caller c c.callee g else ok g
  add_call caller (once_do _ f) g = if kinds call_kind then add_once_call caller f g else ok g
  add_call caller _ g = ok g

  unfoldable pub add_calls : ℕ → List (Stmt × ℕ) → CallGraph → Result CallGraph
  unfolding add_call
  add_calls caller [] g = ok g
  add_calls caller ((s, _) ∷ ss) g = add_call caller s g >>= add_calls caller ss

  unfoldable pub add_calls_to_graph : List ℕ → CallGraph → Result CallGraph
  unfolding add_calls walk_stmts
  add_calls_to_graph [] g = ok g
  add_calls_to_graph (f ∷ fs) g =
      add_calls f (walk_stmts (p.func_at f).body_of) g >>= add_calls_to_graph fs

  -- The nil function has no signature to read. A nil signature panics when it is read next, and here at
  -- once.
  abbrev pub callee_of : Option ℕ → CallGraph → Result CallGraph
  callee_of none g = panic nil_dereference
  callee_of (some f) g = elim (p.func_at f).signature [
    | none ↦ panic nil_dereference
    | some s ↦ add_dynamic_callee f s g
  ]

  abbrev pub is_func_value : Value → Bool
  is_func_value v = elim v.t [ none ↦ false | some t ↦ type_eq t (basic func_type) ]

  unfoldable pub add_dynamic_value : RValue → CallGraph → Result CallGraph
  unfolding add_dynamic_callee
  add_dynamic_value (value v) g =
      if is_func_value v && not (Word.is_negative v.v) then callee_of (func v.v p) g else ok g
  add_dynamic_value _ g = ok g

  unfoldable pub add_dynamic_values : List (ℕ × RValue) → CallGraph → Result CallGraph
  unfolding add_dynamic_value
  add_dynamic_values [] g = ok g
  add_dynamic_values ((_, r) ∷ rs) g = add_dynamic_value r g >>= add_dynamic_values rs

  unfoldable pub add_callees_of_stmts : List (Stmt × ℕ) → CallGraph → Result CallGraph
  unfolding add_dynamic_values
  add_callees_of_stmts [] g = ok g
  add_callees_of_stmts ((assign src _ _, _) ∷ ss) g =
      add_dynamic_value src g >>= add_callees_of_stmts ss
  add_callees_of_stmts ((call c, _) ∷ ss) g =
      add_dynamic_values c.args g >>= add_callees_of_stmts ss
  add_callees_of_stmts ((return_stmt results _, _) ∷ ss) g =
      add_dynamic_values results g >>= add_callees_of_stmts ss
  add_callees_of_stmts (_ ∷ ss) g = add_callees_of_stmts ss g

  unfoldable pub add_callees_of_funcs : List ℕ → CallGraph → Result CallGraph
  unfolding add_callees_of_stmts walk_stmts
  add_callees_of_funcs [] g = ok g
  add_callees_of_funcs (f ∷ fs) g =
      add_callees_of_stmts (walk_stmts (p.func_at f).body_of) g >>= add_callees_of_funcs fs

  abbrev is_func_variable : ℕ → Bool
  is_func_variable v = elim (variable_type (p.variable_at v)) [
    | none ↦ false
    | some t ↦ type_eq t (basic func_type)
  ]

  unfoldable pub add_callees_of_variables : List ℕ → CallGraph → Result CallGraph
  unfolding add_dynamic_value
  add_callees_of_variables [] g = ok g
  add_callees_of_variables (v ∷ vs) g =
      (if is_func_variable v
        then add_dynamic_value (value (p.variable_at v).initial_value) g
        else ok g)
      >>= add_callees_of_variables vs

  -- The loop over the queue of scopes, on fuel.
  unfoldable pub add_callees_of_scopes : ℕ → List ℕ → CallGraph → Result CallGraph
  unfolding add_callees_of_variables
  add_callees_of_scopes zero queue g = panic out_of_fuel
  add_callees_of_scopes (suc fuel) [] g = ok g
  add_callees_of_scopes (suc fuel) (s ∷ queue) g =
      add_callees_of_variables (p.scopes.variables s) g
      >>= add_callees_of_scopes fuel (queue ++ p.scopes.children s)

  unfoldable pub add_dynamic_callees_to_graph : ℕ → CallGraph → Result CallGraph
  unfolding add_callees_of_scopes add_callees_of_funcs
  add_dynamic_callees_to_graph fuel g =
      add_callees_of_scopes fuel (p.global_scope ∷ []) g >>= add_callees_of_funcs p.funcs
