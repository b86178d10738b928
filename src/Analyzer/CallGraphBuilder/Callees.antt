-- ===== src/Analyzer/CallGraphBuilder/Callees.antt =====
-- What a statement calls, and the edge that it adds.
use toph.Prelude.{
  Result, ok, ◌||◌, Bool, Option, false, none, not, some, true, ℕ, ◌∙◌, ◌≡◌, ◌==◌, arith,
  if◌then◌else◌, ◌&&◌, ==_iff,
}
use toph.Ir.Values.{RValue, value, held, container_length}
use toph.Ir.Stmts.{
  Stmt, CallKind, call_kind, CallStmt, Callable, static, dynamic, call, once_do, assign, branch,
  make_chan, chan_comm_op, close_chan, dead_end, delete_map_entry, mutex_op, wait_group_op,
  make_struct, make_container, return_stmt, recover, select, if_stmt, switch, for_stmt, chan_range,
  container_range, copy_slice,
}
use toph.Ir.Program.{Program, func}
use toph.Analyzer.CallGraph.{CallGraph, add_static_call, add_dynamic_caller}
use toph.Analyzer.CallGraph.Dynamic.{IsValid, is_known}
use toph.Analyzer.CallGraphBuilder.{
  no_params, add_callee, add_once_call, add_index_call, add_call, Signature,
}
use toph.Analyzer.CallGraphBuilder.Edges.{Grown, static-Extends, dynamic-Extends, refl-Grown}
use toph.Ir.Types.{Signature}

module _ (p : Program) (kinds : CallKind → Bool) (func_signature : ℕ) (known : ℕ → Bool) where
  -- The callee is a variable or a known function.
  abbrev has_callable : Callable → Bool
  has_callable (static b) = known b
  has_callable (dynamic _) = true

  abbrev has_index : Option ℕ → Bool
  has_index none = false
  has_index (some b) = known b

  abbrev has_value : RValue → Bool
  has_value (value v) = has_index (func v.v p)
  has_value (held _) = true
  has_value (container_length _) = false

  -- A statement that is not a call of the kinds that count, or has a callee.
  abbrev pub has_callee : Stmt → Bool
  has_callee (call c) = not (kinds c.call_kind) || has_callable c.callee
  has_callee (once_do _ f) = not (kinds call_kind) || has_value f
  has_callee _ = true

  abbrev pub Agrees : CallGraph → Type 0
  Agrees g = (f : ℕ) → is_known f g ≡ known f

  -- Whether a statement is a counted call of that function, by its name or its number.
  abbrev is_callable : ℕ → Callable → Bool
  is_callable b (static f) = b == f
  is_callable b (dynamic _) = false

  abbrev is_index : ℕ → Option ℕ → Bool
  is_index b none = false
  is_index b (some f) = b == f

  abbrev is_value : ℕ → RValue → Bool
  is_value b (value v) = is_index b (func v.v p)
  is_value b _ = false

  abbrev pub calls : ℕ → Stmt → Bool
  calls b (call c) = kinds c.call_kind && is_callable b c.callee
  calls b (once_do _ f) = kinds call_kind && is_value b f
  calls b _ = false

  static-Grown :
      (a b : ℕ) (g : CallGraph)
      → IsValid g
      → Agrees g
      → known a ≡ true
      → known b ≡ true
      → Grown (λ x y. x == a && y == b) g (add_static_call a b g)
  static-Grown a b g w m p q =
      let (h, e, x, k) = static-Extends a b g w (m a ∙ p) (m b ∙ q) in
      (
        h,
        e,
        x,
        λ c d n.
            let (i, _) = ==_iff c a in
            let (j, _) = ==_iff d b in rw (i (ground (arith, n)), j (ground (arith, n))) k,
      )

  dynamic-Grown :
      (a : ℕ) (s : Signature) (g : CallGraph)
      → IsValid g
      → Agrees g
      → known a ≡ true
      → Grown (λ x y. x == a && false) g (add_dynamic_caller a s g)
  dynamic-Grown a s g w m p =
      let (h, e, x) = dynamic-Extends a s g w (m a ∙ p) in (h, e, x, λ c d n. ground (arith, n))

  callee-Grown :
      (a : ℕ) (c : CallStmt) (callee : Callable) (g : CallGraph)
      → IsValid g
      → Agrees g
      → known a ≡ true
      → has_callable callee ≡ true
      → Grown
          (λ x y. x == a && is_callable y callee)
          g
          (add_callee p kinds func_signature a c callee g)
  callee-Grown a c (static b) g w m k q = static-Grown a b g w m k q
  callee-Grown a c (dynamic _) g w m k q = dynamic-Grown a c.callee_signature g w m k

  index-Grown :
      (a : ℕ) (i : Option ℕ) (g : CallGraph)
      → IsValid g
      → Agrees g
      → known a ≡ true
      → has_index i ≡ true
      → Grown (λ x y. x == a && is_index y i) g (add_index_call p kinds func_signature a i g)
  index-Grown a none g w m k q = cc
  index-Grown a (some b) g w m k q = static-Grown a b g w m k q

  once-Grown :
      (a : ℕ) (f : RValue) (g : CallGraph)
      → IsValid g
      → Agrees g
      → known a ≡ true
      → has_value f ≡ true
      → Grown (λ x y. x == a && is_value y f) g (add_once_call p kinds func_signature a f g)
  once-Grown a (value v) g w m k q = index-Grown a (func v.v p) g w m k q
  once-Grown a (held _) g w m k q = dynamic-Grown a (no_params p kinds func_signature) g w m k
  once-Grown a (container_length _) g w m k q = cc

  pub skip-Grown : (a : ℕ) (g : CallGraph) → IsValid g → Grown (λ x y. x == a && false) g (ok g)
  skip-Grown a g w = refl-Grown (λ x y. x == a && false) g w (λ x y. ground arith)

  -- A test in front of a step.
  when-Grown :
      (b : Bool) (a : ℕ) (e : ℕ → Bool) (has : Bool) (g : CallGraph) (r : Result CallGraph)
      → IsValid g
      → (not b || has) ≡ true
      → (has ≡ true → Grown (λ x y. x == a && e y) g r)
      → Grown (λ x y. x == a && (b && e y)) g (if b then r else ok g)
  when-Grown true a e has g r w q step = step q
  when-Grown false a e has g r w q step = skip-Grown a g w

  pub add_call-Grown :
      (a : ℕ) (s : Stmt) (g : CallGraph)
      → IsValid g
      → Agrees g
      → known a ≡ true
      → has_callee s ≡ true
      → Grown (λ x y. x == a && calls y s) g (add_call p kinds func_signature a s g)
  unfolding add_call
  add_call-Grown a (call c) g w m k q =
      when-Grown (kinds c.call_kind) a (λ y. is_callable y c.callee) (has_callable c.callee) g
        (add_callee p kinds func_signature a c c.callee g) w q
        (λ h. callee-Grown a c c.callee g w m k h)
  add_call-Grown a (once_do o f) g w m k q =
      when-Grown (kinds call_kind) a (λ y. is_value y f) (has_value f) g
        (add_once_call p kinds func_signature a f g) w q (λ h. once-Grown a f g w m k h)
  add_call-Grown a (assign _ _ _) g w m k q = skip-Grown a g w
  add_call-Grown a (branch _ _) g w m k q = skip-Grown a g w
  add_call-Grown a (make_chan _ _) g w m k q = skip-Grown a g w
  add_call-Grown a (chan_comm_op _ _) g w m k q = skip-Grown a g w
  add_call-Grown a (close_chan _) g w m k q = skip-Grown a g w
  add_call-Grown a dead_end g w m k q = skip-Grown a g w
  add_call-Grown a (copy_slice _ _) g w m k q = skip-Grown a g w
  add_call-Grown a (delete_map_entry _) g w m k q = skip-Grown a g w
  add_call-Grown a (mutex_op _ _) g w m k q = skip-Grown a g w
  add_call-Grown a (wait_group_op _ _ _) g w m k q = skip-Grown a g w
  add_call-Grown a (make_struct _ _) g w m k q = skip-Grown a g w
  add_call-Grown a (make_container _ _ _) g w m k q = skip-Grown a g w
  add_call-Grown a (return_stmt _ _) g w m k q = skip-Grown a g w
  add_call-Grown a recover g w m k q = skip-Grown a g w
  add_call-Grown a (select _ _ _ _) g w m k q = skip-Grown a g w
  add_call-Grown a (if_stmt _ _) g w m k q = skip-Grown a g w
  add_call-Grown a (switch _ _) g w m k q = skip-Grown a g w
  add_call-Grown a (for_stmt _ _ _) g w m k q = skip-Grown a g w
  add_call-Grown a (chan_range _ _ _) g w m k q = skip-Grown a g w
  add_call-Grown a (container_range _ _ _ _ _) g w m k q = skip-Grown a g w
