-- ===== src/Analyzer/CallCounts.antt =====
-- ir/analyzer/call_graph_builder.go: the counts of the calls, special operations and allocations in
-- the values of a type, of their initialization and their copies.
pub mod Bounds
pub mod ByType
pub mod Copies
pub mod Simple
pub mod Bodies
use toph.Prelude.Word
use toph.Prelude.Word.{Int64}
use toph.Prelude.{
  Result, ok, panic, wrong_type, unknown_kind, nil_dereference, index_out_of_range, out_of_fuel,
  ◌>>=◌, Bool, List, [], false, find, if◌then◌else◌, suc, true, zero, ℕ, ◌∷◌, not,
}
use toph.Ir.Types.{
  BasicType, mutex_type, wait_group_type, IrType, basic, struct, container, Field, Types, Value,
  Signature, ContainerKind, array, slice, map_kind, ContainerType, initialized_value,
  initialized_mutex, initialized_wait_group, initialized_struct, initialized_array, random_index,
  requires_deep_copy, requires_deep_copies,
}
use toph.Ir.Values.{
  LValue, container_access, RValue, value, held, container_length, Variable, variable_type,
  container_of, container_type, lvalue_type, is_value, is_map_read,
}
use toph.Ir.Stmts.{
  Stmt, assign, branch, call, make_chan, chan_comm_op, close_chan, dead_end, copy_slice,
  delete_map_entry, mutex_op, wait_group_op, once_do, make_struct, make_container, return_stmt,
  recover, select, if_stmt, switch, for_stmt, chan_range, container_range, Body, body, Stmts, end,
  next, Conds, no_conds, cond, SwitchCases, no_cases, switch_case, SelectCases, no_select_cases,
  select_case, CallKind, call_kind, CallStmt, Callable, static, dynamic, ForProps,
  has_max_iterations, flag_at, SpecialOp, do_op, special_op,
}
use toph.Analyzer.CallGraph.{CallGraph, dynamic_callees, max_call_counts}
use toph.Analyzer.CallsInfo.{
  CallsInfo, init, add_call_count, add_callee_count, add_special_op_count, add_type_allocations,
  multiply, add_info, merge_from,
}

abbrev pub is_counted : BasicType → Bool
is_counted mutex_type = true
is_counted wait_group_type = true
is_counted _ = false

-- `res.add` of a recursive call, under a condition.
abbrev pub add_if : Bool → Result CallsInfo → CallsInfo → Result CallsInfo
add_if b m res = if b then (m >>= λ r. ok (add_info r res)) else ok res

-- The loops over the fields of a structure, which skip some of them.
abbrev pub add_fields :
    (Field → Bool) → (IrType → Result CallsInfo) → List Field → CallsInfo → Result CallsInfo
add_fields wanted find [] res = ok res
add_fields wanted find (f ∷ fs) res = add_if (wanted f) (find f.t) res >>= add_fields wanted find fs

abbrev pub is_held : Field → Bool
is_held f = not f.is_pointer

-- The recursion goes on without an end for a type that holds itself by value.
unfoldable pub find_callees_for_initialized_type : Types → ℕ → IrType → Result CallsInfo
find_callees_for_initialized_type g zero t = panic out_of_fuel
find_callees_for_initialized_type g (suc fuel) (basic b) =
    ok (if is_counted b then add_type_allocations (basic b) 1 init else init)
find_callees_for_initialized_type g (suc fuel) (struct s) =
    add_fields is_held (find_callees_for_initialized_type g fuel) (g.structs s).fields
      (add_type_allocations (struct s) 1 init)
find_callees_for_initialized_type g (suc fuel) (container c) =
    let x = g.containers c in
    elim x.kind [
      | array ↦
          add_if (not x.holds_pointers)
            (find_callees_for_initialized_type g fuel x.element_type >>= λ r.
              ok (multiply x.length r))
            (add_type_allocations (container c) 1 init)
      | slice ↦ ok init
      | map_kind ↦ ok init
    ]

abbrev pub copy_factor : Int64 → ContainerType → Int64
copy_factor capacity c = elim c.kind [ array ↦ c.length | slice ↦ capacity | map_kind ↦ capacity ]

unfoldable pub find_callees_for_type_copy : Types → Int64 → ℕ → IrType → Result CallsInfo
find_callees_for_type_copy g capacity zero t = panic out_of_fuel
find_callees_for_type_copy g capacity (suc fuel) (basic b) = ok init
find_callees_for_type_copy g capacity (suc fuel) (struct s) =
    add_fields requires_deep_copy (find_callees_for_type_copy g capacity fuel) (g.structs s).fields
      (add_type_allocations (struct s) 1 init)
find_callees_for_type_copy g capacity (suc fuel) (container c) =
    let x = g.containers c in
    add_if (requires_deep_copies x)
      (find_callees_for_type_copy g capacity fuel x.element_type >>= λ r.
        ok (multiply (copy_factor capacity x) r))
      (add_type_allocations (container c) 1 init)
