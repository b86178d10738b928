-- ===== src/Analyzer/VarInfo/Totals.antt =====
-- The total of the uses of a variable is the sum of its uses in the functions.
use toph.Prelude.Word
use toph.Prelude.{
  Result, ok, ◌==◌, Always, IsNodup, List, Option, [], arith, mem, none, refl, some, true, ℕ, ◌∷◌,
  ◌≡◌, ==_iff, Bool-cases, ap, inl, inr, ◌∙◌, ◌>>=◌, >>=-Always, Always-Anything, Anything, sym,
  subst,
}
use toph.Ir.Types.{IrType, basic, int_type}
use toph.Ir.Values.{
  LValue, variable, field_selection, container_access, RValue, value, held, container_length,
  lvalue_type,
}
use toph.Ir.Stmts.{
  Stmt, assign, branch, call, make_chan, chan_comm_op, close_chan, dead_end, copy_slice,
  delete_map_entry, mutex_op, wait_group_op, once_do, make_struct, make_container, return_stmt,
  recover, select, if_stmt, switch, for_stmt, chan_range, container_range, SelectCases,
  no_select_cases, select_case, Callable, static, dynamic,
}
use toph.Ir.Walk.{walk_stmts}
use toph.Ir.Program.{Program}
use toph.Analyzer.CallsInfo.{Counters, read_count}
use toph.Analyzer.VarInfo.{
  VarInfo, write_variable_use, add_variable_use, known_type_use, add_type_use, add_lvalue_use,
  add_rvalue_use, add_callable_use, add_variables_use, add_rvalues_use, add_cases_use,
  add_optional_use, add_once_use, add_stmt_use, add_stmts_use, add_func_use, add_funcs_use,
  find_var_info, new_var_info, note_scopes, total_uses, known_variable_use,
}
use toph.Prelude.Word.{Int64}
use toph.Analyzer.VarInfo.Scopes.{IsUnused, new-IsUnused, note_scopes-IsUnused}
use toph.Analyzer.VarInfo.Sums.{sum_uses, sum_of, read_increment, one_more}

-- The total of each variable is the sum of its uses in the functions.
abbrev pub IsTotalled : List ℕ → VarInfo → Type 0
IsTotalled fs i = (v : ℕ) → total_uses v i ≡ sum_of fs (i.var_uses v)

module _ (fs : List ℕ) (distinct : IsNodup fs) (f : ℕ) (known : mem f fs ≡ true) (p : Program) where
  abbrev Totalled : Result VarInfo → Type 0
  Totalled = Always (IsTotalled fs)

  write-IsTotalled :
      (v : ℕ) (uses : Counters ℕ) (i : VarInfo)
      → i.var_uses v ≡ some uses
      → IsTotalled fs i
      → IsTotalled fs (write_variable_use v f uses i)
  write-IsTotalled v uses i e h w =
      read_increment v w i.total_var_uses ∙ elim (Bool-cases (v == w)) [
        | inl k ↦
            let q : read_count w i.total_var_uses ≡ sum_uses fs uses =
              ap (λ x. read_count x i.total_var_uses) (sym ((==_iff v w).0 k))
              ∙ h v
              ∙ ap (sum_of fs) e in
            rw k (ap (λ x. Word.add x 1) q ∙ sym (one_more f fs uses distinct known))
        | inr k ↦ rw k (h w)
      ]

  variable-Totalled :
      (v : Option ℕ) (i : VarInfo) → IsTotalled fs i → Totalled (add_variable_use v f i)
  variable-Totalled none i h = h
  variable-Totalled (some v) i h = known_variable-Totalled (i.var_uses v) refl
    where
      known_variable-Totalled :
          (uses : Option (Counters ℕ))
          → i.var_uses v ≡ uses
          → Totalled (known_variable_use v f uses i)
      known_variable-Totalled none e = record {}
      known_variable-Totalled (some uses) e = write-IsTotalled v uses i e h

  type-Totalled :
      (t : Option IrType) (i : VarInfo) → IsTotalled fs i → Totalled (add_type_use t f i)
  type-Totalled none i h = record {}
  type-Totalled (some t) i h = known_type-Totalled (i.type_uses_in_funcs t)
    where
      known_type-Totalled : (uses : Option (Counters ℕ)) → Totalled (known_type_use t f uses i)
      known_type-Totalled none = record {}
      known_type-Totalled (some uses) = h

  chain :
      (m : Result VarInfo) (g : VarInfo → Result VarInfo)
      → Totalled m
      → ((i : VarInfo) → IsTotalled fs i → Totalled (g i))
      → Totalled (m >>= g)
  chain = >>=-Always (IsTotalled fs) (IsTotalled fs)

  lvalue-Totalled : (l : LValue) (i : VarInfo) → IsTotalled fs i → Totalled (add_lvalue_use p l f i)
  unfolding add_lvalue_use
  lvalue-Totalled (variable v) i h = variable-Totalled (some v) i h
  lvalue-Totalled (field_selection s field) i h =
      chain (add_type_use (some field.t) f i) (add_lvalue_use p s f)
        (type-Totalled (some field.t) i h) (lvalue-Totalled s)
  lvalue-Totalled (container_access c index kind) i h =
      >>=-Always Anything (IsTotalled fs)
        (lvalue_type p.types p.variable_at (container_access c index kind))
        (λ t. add_type_use t f i >>= add_lvalue_use p c f)
        (Always-Anything (lvalue_type p.types p.variable_at (container_access c index kind)))
        (λ t _.
          chain (add_type_use t f i) (add_lvalue_use p c f) (type-Totalled t i h)
            (lvalue-Totalled c))

  rvalue-Totalled : (r : RValue) (i : VarInfo) → IsTotalled fs i → Totalled (add_rvalue_use p r f i)
  unfolding add_rvalue_use
  rvalue-Totalled (value _) i h = h
  rvalue-Totalled (held l) i h = lvalue-Totalled l i h
  rvalue-Totalled (container_length c) i h =
      chain (add_type_use (some (basic int_type)) f i) (add_lvalue_use p c f)
        (type-Totalled (some (basic int_type)) i h) (lvalue-Totalled c)

  callable-Totalled :
      (c : Callable) (i : VarInfo) → IsTotalled fs i → Totalled (add_callable_use p c f i)
  unfolding add_callable_use
  callable-Totalled (static _) i h = h
  callable-Totalled (dynamic l) i h = lvalue-Totalled l i h

  variables-Totalled :
      (vs : List (ℕ × ℕ)) (i : VarInfo) → IsTotalled fs i → Totalled (add_variables_use p vs f i)
  unfolding add_variables_use
  variables-Totalled [] i h = h
  variables-Totalled ((_, v) ∷ vs) i h =
      chain (add_variable_use (some v) f i) (add_variables_use p vs f)
        (variable-Totalled (some v) i h) (variables-Totalled vs)

  rvalues-Totalled :
      (rs : List (ℕ × RValue)) (i : VarInfo) → IsTotalled fs i → Totalled (add_rvalues_use p rs f i)
  unfolding add_rvalues_use
  rvalues-Totalled [] i h = h
  rvalues-Totalled ((_, r) ∷ rs) i h =
      chain (add_rvalue_use p r f i) (add_rvalues_use p rs f) (rvalue-Totalled r i h)
        (rvalues-Totalled rs)

  cases-Totalled :
      (cs : SelectCases) (i : VarInfo) → IsTotalled fs i → Totalled (add_cases_use p cs f i)
  unfolding add_cases_use
  cases-Totalled no_select_cases i h = h
  cases-Totalled (select_case op _ rest) i h =
      chain (add_lvalue_use p op.channel f i) (add_cases_use p rest f)
        (lvalue-Totalled op.channel i h) (cases-Totalled rest)

  optional-Totalled :
      (l : Option LValue) (i : VarInfo) → IsTotalled fs i → Totalled (add_optional_use p l f i)
  optional-Totalled none i h = h
  optional-Totalled (some l) i h = lvalue-Totalled l i h

  once-Totalled : (r : RValue) (i : VarInfo) → IsTotalled fs i → Totalled (add_once_use p r f i)
  once-Totalled (value _) i h = h
  once-Totalled (held l) i h = lvalue-Totalled l i h
  once-Totalled (container_length _) i h = h

  pub stmt-Totalled : (s : Stmt) (i : VarInfo) → IsTotalled fs i → Totalled (add_stmt_use p s f i)
  unfolding add_stmt_use
  stmt-Totalled (assign src dst _) i h =
      chain (add_rvalue_use p src f i) (add_lvalue_use p dst f) (rvalue-Totalled src i h)
        (lvalue-Totalled dst)
  stmt-Totalled (make_chan v _) i h = variable-Totalled (some v) i h
  stmt-Totalled (chan_comm_op c _) i h = lvalue-Totalled c i h
  stmt-Totalled (close_chan c) i h = lvalue-Totalled c i h
  stmt-Totalled (mutex_op m _) i h = lvalue-Totalled m i h
  stmt-Totalled (wait_group_op w _ delta) i h =
      chain (add_lvalue_use p w f i) (add_rvalue_use p delta f) (lvalue-Totalled w i h)
        (rvalue-Totalled delta)
  stmt-Totalled (once_do o called) i h =
      chain (add_lvalue_use p o f i) (add_once_use p called f) (lvalue-Totalled o i h)
        (once-Totalled called)
  stmt-Totalled (make_struct v _) i h = variable-Totalled (some v) i h
  stmt-Totalled (make_container v _ _) i h = variable-Totalled (some v) i h
  stmt-Totalled (call c) i h =
      chain (add_callable_use p c.callee f i >>= add_rvalues_use p c.args f)
        (add_variables_use p c.results f)
        (chain (add_callable_use p c.callee f i) (add_rvalues_use p c.args f)
          (callable-Totalled c.callee i h) (rvalues-Totalled c.args))
        (variables-Totalled c.results)
  stmt-Totalled (return_stmt results _) i h = rvalues-Totalled results i h
  stmt-Totalled (select _ cases _ _) i h = cases-Totalled cases i h
  stmt-Totalled (chan_range _ c _) i h = lvalue-Totalled c i h
  stmt-Totalled (container_range _ c counter value_val _) i h =
      chain (add_lvalue_use p c f i >>= add_variable_use counter f) (add_optional_use p value_val f)
        (chain (add_lvalue_use p c f i) (add_variable_use counter f) (lvalue-Totalled c i h)
          (variable-Totalled counter))
        (optional-Totalled value_val)
  stmt-Totalled (branch _ _) i h = h
  stmt-Totalled dead_end i h = h
  stmt-Totalled (copy_slice _ _) i h = h
  stmt-Totalled (delete_map_entry _) i h = h
  stmt-Totalled (if_stmt _ _) i h = h
  stmt-Totalled (switch _ _) i h = h
  stmt-Totalled (for_stmt _ _ _) i h = h
  stmt-Totalled recover i h = h

  stmts-Totalled :
      (ss : List (Stmt × ℕ)) (i : VarInfo) → IsTotalled fs i → Totalled (add_stmts_use p ss f i)
  unfolding add_stmts_use
  stmts-Totalled [] i h = h
  stmts-Totalled ((s, _) ∷ ss) i h =
      chain (add_stmt_use p s f i) (add_stmts_use p ss f) (stmt-Totalled s i h) (stmts-Totalled ss)

  func-Totalled : (i : VarInfo) → IsTotalled fs i → Totalled (add_func_use p f i)
  unfolding add_func_use
  func-Totalled i h =
      let x = p.func_at f in
      chain (add_variables_use p x.args f i >>= add_variables_use p x.results f)
        (add_stmts_use p (walk_stmts x.body_of) f)
        (chain (add_variables_use p x.args f i) (add_variables_use p x.results f)
          (variables-Totalled x.args i h) (variables-Totalled x.results))
        (stmts-Totalled (walk_stmts x.body_of))

sum_uses_zero : (fs : List ℕ) (m : Counters ℕ) → ((f : ℕ) → read_count f m ≡ 0) → sum_uses fs m ≡ 0
sum_uses_zero [] m h = refl
sum_uses_zero (f ∷ fs) m h = rw (h f, sum_uses_zero fs m h) refl

unused-IsTotalled : (fs : List ℕ) (i : VarInfo) → IsUnused i → IsTotalled fs i
unused-IsTotalled fs i h v = (h v).0 ∙ zero_sum (i.var_uses v) (h v).1
  where
    zero_sum :
        (o : Option (Counters ℕ))
        → ((m : Counters ℕ) → o ≡ some m → (f : ℕ) → read_count f m ≡ 0)
        → 0 ≡ sum_of fs o
    zero_sum none k = refl
    zero_sum (some m) k = sym (sum_uses_zero fs m (k m refl))

pub funcs-Totalled :
    (fs : List ℕ)
    → IsNodup fs
    → (p : Program) (gs : List ℕ) → ((f : ℕ) → mem f gs ≡ true → mem f fs ≡ true)
    → (i : VarInfo) → IsTotalled fs i
    → Always (IsTotalled fs) (add_funcs_use p gs i)
unfolding add_funcs_use
funcs-Totalled fs distinct p [] known i h = h
funcs-Totalled fs distinct p (f ∷ gs) known i h =
    chain fs distinct f (known f (ground arith)) p (add_func_use p f i) (add_funcs_use p gs)
      (func-Totalled fs distinct f (known f (ground arith)) p i h)
      (funcs-Totalled fs distinct p gs (λ g m. known g (ground (arith, m))))

-- If the information on a program is found, whose functions are distinct, then the total of each
-- variable is the sum of its uses in the functions.
pub find_var_info-IsTotalled :
    (fuel : ℕ) (p : Program) (i : VarInfo)
    → IsNodup p.funcs
    → find_var_info p fuel ≡ ok i
    → IsTotalled p.funcs i
unfolding find_var_info
find_var_info-IsTotalled fuel p i distinct h = subst (Always (IsTotalled p.funcs)) h (
    >>=-Always IsUnused (IsTotalled p.funcs)
      (note_scopes p fuel (p.global_scope ∷ []) (new_var_info p)) (add_funcs_use p p.funcs)
      (note_scopes-IsUnused p fuel (p.global_scope ∷ []) (new_var_info p) (new-IsUnused p))
      (λ j u.
        funcs-Totalled p.funcs distinct p p.funcs (λ f m. m) j (unused-IsTotalled p.funcs j u)))
