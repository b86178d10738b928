-- ===== src/Analyzer/VarInfo.antt =====
-- ir/analyzer/var_info.go: where variables and types are used.
pub mod Sums
pub mod Totals
pub mod Scopes
use toph.Prelude.Word
use toph.Prelude.{
  Result, ok, panic, nil_map, out_of_fuel, ◌++◌, ◌==◌, ◌>>=◌, Bool, List, Option, [], false,
  if◌then◌else◌, none, some, some_of, suc, true, zero, ℕ, ◌∷◌,
}
use toph.Ir.Types.{IrType, basic, int_type, type_eq}
use toph.Ir.Values.{
  LValue, variable, field_selection, container_access, RValue, value, held, container_length,
  variable_type, lvalue_type,
}
use toph.Ir.Stmts.{
  Stmt, assign, call, make_chan, chan_comm_op, close_chan, mutex_op, wait_group_op, once_do,
  make_struct, make_container, return_stmt, select, chan_range, container_range, SelectCases,
  no_select_cases, select_case, Callable, static, dynamic,
}
use toph.Ir.Walk.{walk_stmts}
use toph.Ir.Scope.{Store}
use toph.Ir.Program.{Func, Program}
use toph.Analyzer.CallsInfo.{Counters, read_count}
use toph.Prelude.Word.{Int64}

-- A missing map of the outer maps is nil.
pub record VarInfo : Type 0 where
  pub type_uses_in_vars : IrType → Option (ℕ → Bool)
  pub type_uses_in_funcs : IrType → Option (Counters ℕ)
  pub total_type_uses : Counters IrType
  pub var_uses : ℕ → Option (Counters ℕ)
  pub total_var_uses : Counters ℕ

-- `m[k]++`
abbrev pub increment : {K : Type 0} → (K → K → Bool) → K → Counters K → Counters K
increment same k m j = if same k j then some (Word.add (read_count k m) 1) else m j

abbrev pub same_pointer : ℕ → ℕ → Bool
same_pointer a b = a == b

abbrev pub write_map : {K V : Type 0} → (K → K → Bool) → K → V → (K → Option V) → K → Option V
write_map same k v m j = if same k j then some v else m j

abbrev pub write_variable_use : ℕ → ℕ → Counters ℕ → VarInfo → VarInfo
write_variable_use v f uses i = record i {
  var_uses = write_map same_pointer v (increment same_pointer f uses) i.var_uses;
  total_var_uses = increment same_pointer v i.total_var_uses;
}

-- A write to the map of a variable that stands in no scope panics.
abbrev pub known_variable_use : ℕ → ℕ → Option (Counters ℕ) → VarInfo → Result VarInfo
known_variable_use v f none i = panic nil_map
known_variable_use v f (some uses) i = ok (write_variable_use v f uses i)

abbrev pub add_variable_use : Option ℕ → ℕ → VarInfo → Result VarInfo
add_variable_use none f i = ok i
add_variable_use (some v) f i = known_variable_use v f (i.var_uses v) i

abbrev pub known_type_use : IrType → ℕ → Option (Counters ℕ) → VarInfo → Result VarInfo
known_type_use t f none i = panic nil_map
known_type_use t f (some uses) i = ok (record i {
  type_uses_in_funcs = write_map type_eq t (increment same_pointer f uses) i.type_uses_in_funcs;
  total_type_uses = increment type_eq t i.total_type_uses;
})

abbrev pub add_type_use : Option IrType → ℕ → VarInfo → Result VarInfo
add_type_use none f i = panic nil_map
add_type_use (some t) f i = known_type_use t f (i.type_uses_in_funcs t) i

module _ (p : Program) where
  unfoldable pub add_lvalue_use : LValue → ℕ → VarInfo → Result VarInfo
  unfolding lvalue_type
  add_lvalue_use (variable v) f i = add_variable_use (some v) f i
  add_lvalue_use (field_selection s field) f i =
      add_type_use (some field.t) f i >>= add_lvalue_use s f
  add_lvalue_use (container_access c index kind) f i =
      lvalue_type p.types p.variable_at (container_access c index kind) >>= λ t.
      add_type_use t f i >>= add_lvalue_use c f

  unfoldable pub add_rvalue_use : RValue → ℕ → VarInfo → Result VarInfo
  unfolding add_lvalue_use
  add_rvalue_use (value _) f i = ok i
  add_rvalue_use (held l) f i = add_lvalue_use l f i
  add_rvalue_use (container_length c) f i =
      add_type_use (some (basic int_type)) f i >>= add_lvalue_use c f

  unfoldable pub add_callable_use : Callable → ℕ → VarInfo → Result VarInfo
  unfolding add_lvalue_use
  add_callable_use (static _) f i = ok i
  add_callable_use (dynamic l) f i = add_lvalue_use l f i

  -- The loops over the values of a map.
  unfoldable pub add_variables_use : List (ℕ × ℕ) → ℕ → VarInfo → Result VarInfo
  add_variables_use [] f i = ok i
  add_variables_use ((_, v) ∷ vs) f i = add_variable_use (some v) f i >>= add_variables_use vs f

  unfoldable pub add_rvalues_use : List (ℕ × RValue) → ℕ → VarInfo → Result VarInfo
  unfolding add_rvalue_use
  add_rvalues_use [] f i = ok i
  add_rvalues_use ((_, r) ∷ rs) f i = add_rvalue_use r f i >>= add_rvalues_use rs f

  unfoldable pub add_cases_use : SelectCases → ℕ → VarInfo → Result VarInfo
  unfolding add_lvalue_use
  add_cases_use no_select_cases f i = ok i
  add_cases_use (select_case op _ rest) f i = add_lvalue_use op.channel f i >>= add_cases_use rest f

  abbrev pub add_optional_use : Option LValue → ℕ → VarInfo → Result VarInfo
  add_optional_use none f i = ok i
  add_optional_use (some l) f i = add_lvalue_use l f i

  -- The function of `sync.Once.Do` is used where it is read from a storage location.
  abbrev pub add_once_use : RValue → ℕ → VarInfo → Result VarInfo
  add_once_use (held l) f i = add_lvalue_use l f i
  add_once_use _ f i = ok i

  unfoldable pub add_stmt_use : Stmt → ℕ → VarInfo → Result VarInfo
  unfolding add_lvalue_use add_rvalue_use add_callable_use add_variables_use add_rvalues_use
  add_stmt_use (assign src dst _) f i = add_rvalue_use src f i >>= add_lvalue_use dst f
  add_stmt_use (make_chan v _) f i = add_variable_use (some v) f i
  add_stmt_use (chan_comm_op c _) f i = add_lvalue_use c f i
  add_stmt_use (close_chan c) f i = add_lvalue_use c f i
  add_stmt_use (mutex_op m _) f i = add_lvalue_use m f i
  add_stmt_use (wait_group_op w _ delta) f i = add_lvalue_use w f i >>= add_rvalue_use delta f
  add_stmt_use (once_do o called) f i = add_lvalue_use o f i >>= add_once_use called f
  add_stmt_use (make_struct v _) f i = add_variable_use (some v) f i
  add_stmt_use (make_container v _ _) f i = add_variable_use (some v) f i
  add_stmt_use (call c) f i =
      add_callable_use c.callee f i >>= add_rvalues_use c.args f >>= add_variables_use c.results f
  add_stmt_use (return_stmt results _) f i = add_rvalues_use results f i
  add_stmt_use (select _ cases _ _) f i = add_cases_use cases f i
  add_stmt_use (chan_range _ c _) f i = add_lvalue_use c f i
  add_stmt_use (container_range _ c counter value_val _) f i =
      add_lvalue_use c f i >>= add_variable_use counter f >>= add_optional_use value_val f
  add_stmt_use _ f i = ok i

  unfoldable pub add_stmts_use : List (Stmt × ℕ) → ℕ → VarInfo → Result VarInfo
  unfolding add_stmt_use
  add_stmts_use [] f i = ok i
  add_stmts_use ((s, _) ∷ ss) f i = add_stmt_use s f i >>= add_stmts_use ss f

  unfoldable pub add_func_use : ℕ → VarInfo → Result VarInfo
  unfolding add_stmts_use walk_stmts
  add_func_use f i =
      let x = p.func_at f in
      add_variables_use x.args f i
      >>= add_variables_use x.results f
      >>= add_stmts_use (walk_stmts x.body_of) f

  unfoldable pub add_funcs_use : List ℕ → VarInfo → Result VarInfo
  unfolding add_func_use
  add_funcs_use [] i = ok i
  add_funcs_use (f ∷ fs) i = add_func_use f i >>= add_funcs_use fs

  abbrev pub known_variable : ℕ → IrType → Option (ℕ → Bool) → VarInfo → Result VarInfo
  known_variable v t none i = panic nil_map
  known_variable v t (some vs) i = ok (record i {
    type_uses_in_vars =
        write_map type_eq t (λ w. if v == w then true else vs w) i.type_uses_in_vars;
    total_type_uses = increment type_eq t i.total_type_uses;
    var_uses = write_map same_pointer v (λ _. none) i.var_uses;
  })

  abbrev pub note_typed : ℕ → Option IrType → VarInfo → Result VarInfo
  note_typed v none i = panic nil_map
  note_typed v (some t) i = known_variable v t (i.type_uses_in_vars t) i

  -- The loop over the variables of a scope.
  unfoldable pub note_variables : List ℕ → VarInfo → Result VarInfo
  note_variables [] i = ok i
  note_variables (v ∷ vs) i = note_typed v (variable_type (p.variable_at v)) i >>= note_variables vs

  -- The loop over the queue of scopes, on fuel.
  unfoldable pub note_scopes : ℕ → List ℕ → VarInfo → Result VarInfo
  unfolding note_variables
  note_scopes zero queue i = panic out_of_fuel
  note_scopes (suc fuel) [] i = ok i
  note_scopes (suc fuel) (s ∷ queue) i =
      note_variables (p.scopes.variables s) i >>= note_scopes fuel (queue ++ p.scopes.children s)

  abbrev is_known : IrType → Bool
  is_known t = some_of (type_eq t) p.type_list

  abbrev pub new_var_info : VarInfo
  new_var_info = record {
    type_uses_in_vars = λ t. if is_known t then some (λ _. false) else none;
    type_uses_in_funcs = λ t. if is_known t then some (λ _. none) else none;
    total_type_uses = λ _. none;
    var_uses = λ _. none;
    total_var_uses = λ _. none;
  }

  unfoldable pub find_var_info : ℕ → Result VarInfo
  unfolding note_scopes add_funcs_use
  find_var_info fuel = note_scopes fuel (p.global_scope ∷ []) new_var_info >>= add_funcs_use p.funcs

abbrev pub var_uses_in_func : ℕ → ℕ → VarInfo → Int64
var_uses_in_func v f i = elim (i.var_uses v) [ none ↦ 0 | some uses ↦ read_count f uses ]

abbrev pub total_uses : ℕ → VarInfo → Int64
total_uses v i = read_count v i.total_var_uses
