-- ===== src/Analyzer/CallCounts/Bounds.antt =====
-- The limit of the counts of a body.
use toph.Analyzer.CallGraph.{max_call_counts}
use toph.Prelude.{
  Result, ok, panic, ◌>>=◌, Bool, Bool-cases, List, [], inl, inr, ℕ, ◌∷◌, Option, false, none, some,
  true, if◌then◌else◌, subst, ◌≡◌,
}
use toph.Ir.Stmts.{
  Stmt, assign, branch, call, make_chan, chan_comm_op, close_chan, dead_end, copy_slice,
  delete_map_entry, mutex_op, wait_group_op, once_do, make_struct, make_container, return_stmt,
  recover, select, if_stmt, switch, for_stmt, chan_range, container_range, Body, body, Stmts, end,
  next, SwitchCases, no_cases, switch_case, call_kind, do_op, special_op, make_chan_op, close_op,
  dead_end_op, mutex_special, wait_group_special,
}
use toph.Ir.Types.{
  IrType, struct, container, requires_deep_copies, initialized_value, Value, ContainerType,
}
use toph.Ir.Values.{RValue, value, held, container_length, container_type, is_value, variable_type}
use toph.Analyzer.CallsInfo.{
  CallsInfo, init, add_info, multiply, merge_from, add_callee_count, add_call_count,
  add_special_op_count,
}
use toph.Analyzer.CallsInfo.Bounds.{
  IsBounded, init-IsBounded, add_info-IsBounded, add_call_count-IsBounded,
  add_callee_count-IsBounded, add_special_op_count-IsBounded, add_type_allocations-IsBounded,
}
use toph.Analyzer.CallCounts.{basic, Value, ContainerType, dynamic_callees, special_op}
use toph.Analyzer.CallCounts.Simple.{
  Builder, add_variables, add_callees, add_once_do, add_copy_slice, initialized_type, struct_info,
  type_copy, container_info, allocate_unless_array, add_variable, once_callees, copied_elements,
  find_callees_info_for_assign_stmt, find_callees_info_for_call_stmt,
}
use toph.Analyzer.CallCounts.Bodies.{
  add_from, find_callees_info_for_body, add_stmts_info, add_stmt_info, bodies_info, switch_info,
  select_info,
}
use toph.Analyzer.CallGraph.{dynamic_callees}

-- No panic, or a result within the limit.
abbrev Within : Result CallsInfo → Type 0
Within (panic _) = Unit
Within (ok i) = IsBounded i

bind-Within :
    {A : Type 0} (m : Result A) (f : A → Result CallsInfo)
    → ((x : A) → Within (f x))
    → Within (m >>= f)
bind-Within (panic e) f h = record {}
bind-Within (ok x) f h = h x

chain-Within :
    (m : Result CallsInfo) (f : CallsInfo → Result CallsInfo)
    → Within m
    → ((x : CallsInfo) → IsBounded x → Within (f x))
    → Within (m >>= f)
chain-Within (panic e) f h k = record {}
chain-Within (ok x) f h k = k x h

-- A result that is added is within the limit, whatever it was.
added-Within : (m : Result CallsInfo) (res : CallsInfo) → Within (m >>= λ r. ok (add_info r res))
added-Within m res = bind-Within m (λ r. ok (add_info r res)) (λ r. add_info-IsBounded res r)

if-Within : (c : Bool) (m n : Result CallsInfo) → Within m → Within n → Within (if c then m else n)
if-Within true m n h k = h
if-Within false m n h k = k

add_from-Within :
    (cases : SwitchCases) (xs : List CallsInfo) (res : CallsInfo) → Within (add_from cases xs res)
add_from-Within no_cases xs res = record {}
add_from-Within (switch_case p c b rest) [] res = record {}
add_from-Within (switch_case p c b rest) (x ∷ xs) res = elim (Bool-cases p.has_fallthrough) [
  | inl e ↦ rw e (add_from-Within rest xs (add_info x res))
  | inr e ↦ rw e (add_info-IsBounded res x)
]

module _ (b : Builder) (fuel : ℕ) where
  add_variable-Within :
      (t : Option IrType) (x : Value) (res : CallsInfo)
      → IsBounded res
      → Within (add_variable b fuel t x res)
  add_variable-Within none x res h = record {}
  add_variable-Within (some t) x res h =
      if-Within (is_value (initialized_value b.types t) (value x))
        (initialized_type b fuel t >>= λ r. ok (add_info r res)) (ok res)
        (added-Within (initialized_type b fuel t) res) h

  add_variables-Within :
      (vs : List ℕ) (res : CallsInfo) → IsBounded res → Within (add_variables b fuel vs res)
  unfolding add_variables
  add_variables-Within [] res h = h
  add_variables-Within (v ∷ vs) res h =
      chain-Within (add_variable b fuel (variable_type (b.vars v)) (b.vars v).initial_value res)
        (add_variables b fuel vs)
        (add_variable-Within (variable_type (b.vars v)) (b.vars v).initial_value res h)
        (add_variables-Within vs)

  add_callees-IsBounded :
      (fs : List ℕ) (res : CallsInfo) → IsBounded res → IsBounded (add_callees b fuel fs res)
  unfolding add_callees
  add_callees-IsBounded [] res h = h
  add_callees-IsBounded (f ∷ fs) res h =
      add_callees-IsBounded fs (add_callee_count f 1 res) (add_callee_count-IsBounded f 1 res h)

  once_callees-Within :
      (f : RValue) (res : CallsInfo) → IsBounded res → Within (once_callees b fuel f res)
  once_callees-Within (value v) res h = add_callee_count-IsBounded (b.func v.v) 1 res h
  once_callees-Within (held _) res h =
      add_callees-IsBounded
        (dynamic_callees (record { recv = none; shape = b.func_signature }) b.fcg) res h
  once_callees-Within (container_length _) res h = record {}

  add_once_do-Within :
      (f : RValue) (res : CallsInfo) → IsBounded res → Within (add_once_do b fuel f res)
  unfolding add_once_do
  add_once_do-Within f res h =
      let res' = add_special_op_count do_op 1 res in
      let h' = add_special_op_count-IsBounded do_op 1 res h in
      if-Within (b.call_kinds call_kind) (once_callees b fuel f (add_call_count 1 res')) (ok res')
        (once_callees-Within f (add_call_count 1 res') (add_call_count-IsBounded 1 res' h')) h'

  struct_info-Within :
      (t : Option IrType) (i : Bool) (res : CallsInfo)
      → IsBounded res
      → Within (struct_info b fuel t i res)
  struct_info-Within none i res h = record {}
  struct_info-Within (some (basic _)) i res h = record {}
  struct_info-Within (some (container _)) i res h = record {}
  struct_info-Within (some (struct s)) true res h =
      added-Within (initialized_type b fuel (struct s)) res
  struct_info-Within (some (struct s)) false res h =
      add_type_allocations-IsBounded (struct s) 1 res h

  container_info-Within :
      (t : Option IrType) (i : Bool) (res : CallsInfo)
      → IsBounded res
      → Within (container_info b fuel t i res)
  container_info-Within none i res h = record {}
  container_info-Within (some (basic _)) i res h = record {}
  container_info-Within (some (struct _)) i res h = record {}
  container_info-Within (some (container c)) true res h =
      added-Within (initialized_type b fuel (container c)) (allocate_unless_array b fuel c res)
  container_info-Within (some (container c)) false res h =
      add_type_allocations-IsBounded (container c) 1 res h

  copied_elements-Within :
      (k : ContainerType) (res : CallsInfo) → IsBounded res → Within (copied_elements b fuel k res)
  copied_elements-Within k res h =
      let copies : CallsInfo → Result CallsInfo =
        λ r. ok (add_info (multiply b.container_capacity r) res) in
      if-Within (requires_deep_copies k) (type_copy b fuel k.element_type >>= copies) (ok res)
        (bind-Within (type_copy b fuel k.element_type) copies
          (λ r. add_info-IsBounded res (multiply b.container_capacity r)))
        h

  add_stmt_info-Within :
      (s : Stmt) (res : CallsInfo) → IsBounded res → Within (add_stmt_info b fuel s res)
  unfolding find_callees_info_for_body add_copy_slice special_op
  add_stmt_info-Within (assign src dst copy) res h =
      added-Within (find_callees_info_for_assign_stmt b fuel src dst copy) res
  add_stmt_info-Within (call c) res h = added-Within (find_callees_info_for_call_stmt b fuel c) res
  add_stmt_info-Within (once_do _ f) res h = add_once_do-Within f res h
  add_stmt_info-Within (make_struct v i) res h =
      struct_info-Within (variable_type (b.vars v)) i res h
  add_stmt_info-Within (make_container v _ i) res h =
      container_info-Within (variable_type (b.vars v)) i res h
  add_stmt_info-Within (copy_slice dst _) res h =
      bind-Within (container_type b.types b.vars dst) (λ k. copied_elements b fuel k res)
        (λ k. copied_elements-Within k res h)
  add_stmt_info-Within (if_stmt x y) res h =
      bind-Within (find_callees_info_for_body b fuel x) _ (λ i.
        bind-Within (find_callees_info_for_body b fuel y) _
          (λ j. add_info-IsBounded res (merge_from j (merge_from i init))))
  add_stmt_info-Within (switch _ cases) res h =
      bind-Within (bodies_info b fuel cases) _
        (λ xs. added-Within (switch_info b fuel cases xs init init none) res)
  add_stmt_info-Within (select _ cases true default) res h =
      bind-Within (select_info b fuel cases init) _ (λ r.
        bind-Within (find_callees_info_for_body b fuel default) _
          (λ x. add_info-IsBounded res (merge_from x r)))
  add_stmt_info-Within (select _ cases false default) res h =
      bind-Within (select_info b fuel cases init) _ (λ r. add_info-IsBounded res r)
  add_stmt_info-Within (for_stmt p c inner) res h =
      bind-Within (find_callees_info_for_body b fuel c) _ (λ x.
        bind-Within (find_callees_info_for_body b fuel inner) _ (λ y. add_info-IsBounded res _))
  add_stmt_info-Within (chan_range _ _ inner) res h =
      bind-Within (find_callees_info_for_body b fuel inner) _
        (λ x. add_info-IsBounded res (multiply max_call_counts x))
  add_stmt_info-Within (container_range _ c _ _ inner) res h =
      bind-Within (find_callees_info_for_body b fuel inner) _
        (λ x. bind-Within (container_type b.types b.vars c) _ (λ k. add_info-IsBounded res _))
  add_stmt_info-Within (make_chan _ _) res h = add_special_op_count-IsBounded make_chan_op 1 res h
  add_stmt_info-Within (close_chan _) res h = add_special_op_count-IsBounded close_op 1 res h
  add_stmt_info-Within dead_end res h = add_special_op_count-IsBounded dead_end_op 1 res h
  add_stmt_info-Within (mutex_op _ op) res h =
      add_special_op_count-IsBounded (mutex_special op) 1 res h
  add_stmt_info-Within (wait_group_op _ op _) res h =
      add_special_op_count-IsBounded (wait_group_special op) 1 res h
  add_stmt_info-Within (branch _ _) res h = h
  add_stmt_info-Within (chan_comm_op _ _) res h = h
  add_stmt_info-Within (delete_map_entry _) res h = h
  add_stmt_info-Within (return_stmt _ _) res h = h
  add_stmt_info-Within recover res h = h

  add_stmts_info-Within :
      (ss : Stmts) (res : CallsInfo) → IsBounded res → Within (add_stmts_info b fuel ss res)
  unfolding find_callees_info_for_body
  add_stmts_info-Within end res h = h
  add_stmts_info-Within (next s ss) res h =
      chain-Within (add_stmt_info b fuel s res) (add_stmts_info b fuel ss)
        (add_stmt_info-Within s res h) (add_stmts_info-Within ss)

  body-Within : (x : Body) → Within (find_callees_info_for_body b fuel x)
  unfolding find_callees_info_for_body
  body-Within (body scope ss) =
      chain-Within (add_variables b fuel (b.variables scope) init) (add_stmts_info b fuel ss)
        (add_variables-Within (b.variables scope) init init-IsBounded) (add_stmts_info-Within ss)

-- If the counts of a body are found, then none of them is above the limit, whatever the bounds of its
-- loops and the lengths of its arrays are.
pub find_callees_info_for_body-IsBounded :
    (b : Builder) (fuel : ℕ) (x : Body) (i : CallsInfo)
    → find_callees_info_for_body b fuel x ≡ ok i
    → IsBounded i
find_callees_info_for_body-IsBounded b fuel x i h = subst Within h (body-Within b fuel x)
