-- ===== src/Analyzer/CallCounts/Simple.antt =====
-- ir/analyzer/call_graph_builder.go: the counts of the calls, special operations and allocations in
-- the statements without inner statements, and in the variables of a scope.

use toph.Prelude.Word.{Int64}
use toph.Prelude.{
  Result, ok, panic, wrong_type, unknown_kind, nil_dereference, ◌&&◌, ◌==◌, ◌>>=◌, Bool, List,
  Option, [], false, if◌then◌else◌, none, some, true, ℕ, ◌∷◌,
}
use toph.Ir.Types.{
  mutex_type, wait_group_type, IrType, basic, struct, container, Types, array, ContainerType,
  initialized_value, initialized_mutex, initialized_wait_group, initialized_struct,
  initialized_array, random_index, requires_deep_copies, Value,
}
use toph.Ir.Values.{
  LValue, container_access, RValue, value, held, container_length, Variable, variable_type,
  container_type, lvalue_type, is_value, is_map_read,
}
use toph.Ir.Stmts.{CallKind, call_kind, CallStmt, static, dynamic, flag_at, do_op}
use toph.Analyzer.CallGraph.{CallGraph, dynamic_callees}
use toph.Analyzer.CallsInfo.{
  CallsInfo, init, add_call_count, add_callee_count, add_special_op_count, add_type_allocations,
  multiply, add_info,
}
use toph.Analyzer.CallCounts.{find_callees_for_initialized_type, find_callees_for_type_copy, Value}

-- What the builder reads: the types, variables and scopes of the program, the functions behind their
-- indices, the graph with its dynamic callees, the call kinds, and the capacity from the
-- configuration. Field `func_signature` is the class of `func()`.
pub record Builder : Type 0 where
  pub types : Types
  pub vars : ℕ → Variable
  pub variables : ℕ → List ℕ
  pub func : Int64 → ℕ
  pub fcg : CallGraph
  pub call_kinds : CallKind → Bool
  pub container_capacity : Int64
  pub func_signature : ℕ

abbrev is_random : RValue → Bool
is_random index = is_value random_index index

-- The source of an assignment, if it is a read of a random entry of a map.
abbrev random_map_read : Types → (ℕ → Variable) → RValue → Result (Option ContainerType)
random_map_read g vars (held (container_access c index kind)) = container_type g vars c >>= λ k.
    ok (if is_map_read k kind && is_random index then some k else none)
random_map_read g vars _ = ok none

module _ (b : Builder) (fuel : ℕ) where
  abbrev pub initialized_type : IrType → Result CallsInfo
  initialized_type = find_callees_for_initialized_type b.types fuel

  abbrev pub type_copy : IrType → Result CallsInfo
  type_copy = find_callees_for_type_copy b.types b.container_capacity fuel

  -- The copy of a value of a type, which may be nil.
  unfoldable pub any_type_copy : Option IrType → Result CallsInfo
  any_type_copy none = ok init
  any_type_copy (some t) = type_copy t

  abbrev pub add_variable : Option IrType → Value → CallsInfo → Result CallsInfo
  add_variable none initial_value res = panic nil_dereference
  add_variable (some t) initial_value res =
      if is_value (initialized_value b.types t) (value initial_value)
      then (initialized_type t >>= λ r. ok (add_info r res))
      else ok res

  unfoldable pub add_variables : List ℕ → CallsInfo → Result CallsInfo
  add_variables [] res = ok res
  add_variables (v ∷ vs) res =
      add_variable (variable_type (b.vars v)) (b.vars v).initial_value res >>= add_variables vs

  -- What the value of a source allocates.
  unfoldable pub source_info : RValue → Result CallsInfo
  source_info (value v) =
      if v.v == initialized_struct
      then elim v.t [
        | some (struct s) ↦ initialized_type (struct s) >>= λ r. ok (add_info r init)
        | _ ↦ panic wrong_type
      ]
      else if v.v == initialized_array
      then elim v.t [
        | some (container c) ↦ initialized_type (container c) >>= λ r. ok (add_info r init)
        | _ ↦ panic wrong_type
      ]
      else if is_value initialized_mutex (value v)
      then ok (add_type_allocations (basic mutex_type) 1 init)
      else if is_value initialized_wait_group (value v)
      then ok (add_type_allocations (basic wait_group_type) 1 init)
      else ok init
  source_info _ = ok init

  unfoldable pub find_callees_info_for_assign_stmt : RValue → LValue → Bool → Result CallsInfo
  unfolding source_info any_type_copy lvalue_type
  find_callees_info_for_assign_stmt source destination requires_copy =
      random_map_read b.types b.vars source >>= λ read. elim read [
        | some k ↦ initialized_type k.element_type >>= λ r. ok (add_info r init)
        | none ↦ source_info source >>= λ res. elim requires_copy [
          | true ↦ lvalue_type b.types b.vars destination >>= λ t.
              any_type_copy t >>= λ r. ok (add_info r res)
          | false ↦ ok res
        ]
      ]

  unfoldable pub add_callees : List ℕ → CallsInfo → CallsInfo
  unfolding add_callee_count
  add_callees [] res = res
  add_callees (f ∷ fs) res = add_callees fs (add_callee_count f 1 res)

  unfoldable pub add_args : List (ℕ × Bool) → List (ℕ × RValue) → CallsInfo → Result CallsInfo
  unfolding any_type_copy lvalue_type
  add_args flags [] res = ok res
  add_args flags ((i, held l) ∷ args) res = elim (flag_at i flags) [
    | false ↦ add_args flags args res
    | true ↦ lvalue_type b.types b.vars l >>= λ t.
        any_type_copy t >>= λ r. add_args flags args (add_info r res)
  ]
  add_args flags ((i, _) ∷ args) res = add_args flags args res

  unfoldable pub add_results : List (ℕ × Bool) → List (ℕ × ℕ) → CallsInfo → Result CallsInfo
  unfolding any_type_copy
  add_results flags [] res = ok res
  add_results flags ((i, v) ∷ results) res = elim (flag_at i flags) [
    | false ↦ add_results flags results res
    | true ↦
        any_type_copy (variable_type (b.vars v)) >>= λ r. add_results flags results (add_info r res)
  ]

  abbrev pub callees_of : CallStmt → List ℕ
  callees_of c = elim c.callee [
    | static f ↦ f ∷ []
    | dynamic _ ↦ dynamic_callees c.callee_signature b.fcg
  ]

  unfoldable pub find_callees_info_for_call_stmt : CallStmt → Result CallsInfo
  unfolding add_callees add_args add_results add_call_count
  find_callees_info_for_call_stmt c =
      if b.call_kinds c.call_kind
      then add_args c.arg_requires_copy c.args (add_callees (callees_of c) (add_call_count 1 init))
        >>= add_results c.result_requires_copy c.results
      else ok init

  abbrev pub once_callees : RValue → CallsInfo → Result CallsInfo
  once_callees (value v) res = ok (add_callee_count (b.func v.v) 1 res)
  once_callees (held _) res =
      ok
        (add_callees (dynamic_callees (record { recv = none; shape = b.func_signature }) b.fcg) res)
  once_callees (container_length _) res = panic unknown_kind

  -- `sync.Once.Do` also counts as a call of its function.
  unfoldable pub add_once_do : RValue → CallsInfo → Result CallsInfo
  unfolding add_callees add_call_count add_special_op_count
  add_once_do f res =
      let res' = add_special_op_count do_op 1 res in
      if b.call_kinds call_kind then once_callees f (add_call_count 1 res') else ok res'

  -- A new structure, whose fields are initialized or not.
  abbrev pub struct_info : Option IrType → Bool → CallsInfo → Result CallsInfo
  struct_info (some (struct s)) true res = initialized_type (struct s) >>= λ r. ok (add_info r res)
  struct_info (some (struct s)) false res = ok (add_type_allocations (struct s) 1 res)
  struct_info _ _ res = panic wrong_type

  abbrev pub add_make_struct : ℕ → Bool → CallsInfo → Result CallsInfo
  add_make_struct v initialize res = struct_info (variable_type (b.vars v)) initialize res

  abbrev pub allocate_unless_array : ℕ → CallsInfo → CallsInfo
  allocate_unless_array c res = elim (b.types.containers c).kind [
    | array ↦ res
    | _ ↦ add_type_allocations (container c) 1 res
  ]

  abbrev pub container_info : Option IrType → Bool → CallsInfo → Result CallsInfo
  container_info (some (container c)) true res =
      initialized_type (container c) >>= λ r. ok (add_info r (allocate_unless_array c res))
  container_info (some (container c)) false res = ok (add_type_allocations (container c) 1 res)
  container_info _ _ res = panic wrong_type

  abbrev pub add_make_container : ℕ → Bool → CallsInfo → Result CallsInfo
  add_make_container v initialize res = container_info (variable_type (b.vars v)) initialize res

  abbrev pub copied_elements : ContainerType → CallsInfo → Result CallsInfo
  copied_elements k res =
      if requires_deep_copies k
      then (type_copy k.element_type >>= λ r. ok (add_info (multiply b.container_capacity r) res))
      else ok res

  unfoldable pub add_copy_slice : LValue → CallsInfo → Result CallsInfo
  add_copy_slice dst res = container_type b.types b.vars dst >>= λ k. copied_elements k res
