-- ===== src/Analyzer/CallCounts/Bodies.antt =====
-- ir/analyzer/call_graph_builder.go: the counts of the calls, special operations and allocations in
-- a body, from those in its statements.
use toph.Prelude.Word
use toph.Prelude.Word.{Int64}
use toph.Prelude.{
  Result, ok, panic, index_out_of_range, ◌>>=◌, List, Option, [], false, if◌then◌else◌, none, some,
  true, ℕ, ◌∷◌,
}
use toph.Ir.Types.{array, ContainerType}
use toph.Ir.Values.{container_type}
use toph.Ir.Stmts.{
  Stmt, assign, call, copy_slice, once_do, make_struct, make_container, select, if_stmt, switch,
  for_stmt, chan_range, container_range, Body, body, Stmts, end, next, Conds, no_conds, cond,
  SwitchCases, no_cases, switch_case, SelectCases, no_select_cases, select_case, ForProps,
  has_max_iterations, special_op,
}
use toph.Analyzer.CallGraph.{max_call_counts}
use toph.Analyzer.CallsInfo.{CallsInfo, init, add_special_op_count, multiply, add_info, merge_from}
use toph.Analyzer.CallCounts.Simple.{
  Builder, add_variables, find_callees_info_for_assign_stmt, find_callees_info_for_call_stmt,
  add_once_do, add_make_struct, add_make_container, add_copy_slice,
}

abbrev behind_first : List CallsInfo → List CallsInfo
behind_first [] = []
behind_first (_ ∷ xs) = xs

-- The bodies that a case falls through to, after its own.
abbrev pub add_from : SwitchCases → List CallsInfo → CallsInfo → Result CallsInfo
add_from (switch_case p _ _ rest) (x ∷ xs) res = elim p.has_fallthrough [
  | true ↦ add_from rest xs (add_info x res)
  | false ↦ ok (add_info x res)
]
add_from _ _ res = panic index_out_of_range

module _ (b : Builder) (fuel : ℕ) where
  abbrev iterations : ForProps → Int64
  iterations p = if has_max_iterations p then p.max_iterations else max_call_counts

  abbrev range_factor : ContainerType → Int64
  range_factor k = elim k.kind [ array ↦ k.length | _ ↦ max_call_counts ]

  unfoldable mutual
    pub find_callees_info_for_body : Body → Result CallsInfo
    find_callees_info_for_body (body scope ss) =
        add_variables b fuel (b.variables scope) init >>= add_stmts_info ss

    -- The loop over the statements, which adds to the result.
    pub add_stmts_info : Stmts → CallsInfo → Result CallsInfo
    add_stmts_info end res = ok res
    add_stmts_info (next s ss) res = add_stmt_info s res >>= add_stmts_info ss

    pub add_stmt_info : Stmt → CallsInfo → Result CallsInfo
    add_stmt_info (assign src dst copy) res =
        find_callees_info_for_assign_stmt b fuel src dst copy >>= λ r. ok (add_info r res)
    add_stmt_info (call c) res =
        find_callees_info_for_call_stmt b fuel c >>= λ r. ok (add_info r res)
    add_stmt_info (once_do _ f) res = add_once_do b fuel f res
    add_stmt_info (make_struct v i) res = add_make_struct b fuel v i res
    add_stmt_info (make_container v _ i) res = add_make_container b fuel v i res
    add_stmt_info (copy_slice dst _) res = add_copy_slice b fuel dst res
    add_stmt_info (if_stmt a c) res = find_callees_info_for_body a >>= λ x.
        find_callees_info_for_body c >>= λ y. ok (add_info (merge_from y (merge_from x init)) res)
    add_stmt_info (switch _ cases) res =
        bodies_info cases >>= λ xs. switch_info cases xs init init none >>= λ r. ok (add_info r res)
    add_stmt_info (select _ cases has_default default) res = select_info cases init >>= λ r.
        elim has_default [
          | true ↦ find_callees_info_for_body default >>= λ x. ok (add_info (merge_from x r) res)
          | false ↦ ok (add_info r res)
        ]
    add_stmt_info (for_stmt p c inner) res = find_callees_info_for_body c >>= λ x.
        find_callees_info_for_body inner >>= λ y. ok (
          add_info
            (add_info (multiply (iterations p) y)
              (add_info (multiply (Word.add (iterations p) 1) x) init))
            res)
    add_stmt_info (chan_range _ _ inner) res =
        find_callees_info_for_body inner >>= λ x. ok (add_info (multiply max_call_counts x) res)
    add_stmt_info (container_range _ c _ _ inner) res = find_callees_info_for_body inner >>= λ x.
        container_type b.types b.vars c >>= λ k. ok (add_info (multiply (range_factor k) x) res)
    add_stmt_info s res = elim (special_op s) [
      | some op ↦ ok (add_special_op_count op 1 res)
      | none ↦ ok res
    ]

    pub bodies_info : SwitchCases → Result (List CallsInfo)
    bodies_info no_cases = ok []
    bodies_info (switch_case _ _ inner rest) =
        find_callees_info_for_body inner >>= λ x. bodies_info rest >>= λ xs. ok (x ∷ xs)

    -- The loop over the cases, with the information on the conditions so far, the result, and the
    -- default case with what stands behind it.
    pub switch_info :
        SwitchCases
        → List CallsInfo
        → CallsInfo
        → CallsInfo
        → Option (SwitchCases × List CallsInfo)
        → Result CallsInfo
    switch_info no_cases _ cond_info res none = ok res
    switch_info no_cases _ cond_info res (some (cases, xs)) =
        add_from cases xs (add_info cond_info init) >>= λ r. ok (merge_from r res)
    switch_info (switch_case p conds inner rest) xs cond_info res default = elim p.is_default [
      | true ↦
          switch_info rest (behind_first xs) cond_info res
            (some (switch_case p conds inner rest, xs))
      | false ↦ conds_info conds cond_info >>= λ info.
          add_from (switch_case p conds inner rest) xs (add_info info init) >>= λ r.
          switch_info rest (behind_first xs) info (merge_from r res) default
    ]

    pub conds_info : Conds → CallsInfo → Result CallsInfo
    conds_info no_conds res = ok res
    conds_info (cond c cs) res =
        find_callees_info_for_body c >>= λ x. conds_info cs (add_info x res)

    pub select_info : SelectCases → CallsInfo → Result CallsInfo
    select_info no_select_cases res = ok res
    select_info (select_case _ inner rest) res =
        find_callees_info_for_body inner >>= λ x. select_info rest (merge_from x res)
