-- ===== src/Ir/DeadCode/Bodies.antt =====
-- Dead code elimination keeps the runs of a body.
use toph.Prelude.{
  inl, inr, ◌&&◌, Bool, Option, arith, false, if◌then◌else◌, none, some, true, ◌≡◌, not, refl,
}
use toph.Ir.Stmts.{
  Stmt, assign, branch, call, make_chan, chan_comm_op, close_chan, dead_end, copy_slice,
  delete_map_entry, mutex_op, wait_group_op, once_do, make_struct, make_container, return_stmt,
  recover, select, if_stmt, switch, for_stmt, chan_range, container_range, Body, body, Stmts, end,
  next, ForProps,
}
use toph.Ir.DeadCode.{
  is_body_empty, add_kept, without_dead_code, eliminate_dead_code_in_body,
  eliminate_dead_code_in_stmts,
}
use toph.Ir.DeadCode.Runs.{
  Meaning, Silent, Sequence, Loop, Same, Loop-Same, Loop-Silent, Sequence-Same, Sequence-Silent,
  RunsStmt, RunsBody, RunsStmts, trans-Same, refl-Same,
}

module _ {E : Type 0} (Leaf : Stmt → Meaning E) where
  -- The runs of what is left of a statement.
  abbrev pub RunsKept : Option Stmt → Meaning E
  RunsKept none t o = Silent t o
  RunsKept (some s) t o = RunsStmt Leaf s t o

  pub add_kept-Same :
      (r : Option Stmt) (ss : Stmts)
      → Same (Sequence (RunsKept r) (RunsStmts Leaf ss)) (RunsStmts Leaf (add_kept r ss))
  unfolding RunsStmt
  add_kept-Same none ss = Sequence-Silent (RunsStmts Leaf ss)
  add_kept-Same (some s) ss = refl-Same (RunsStmts Leaf (next s ss))

  empty-Silent : (b : Body) → is_body_empty b ≡ true → Same (RunsBody Leaf b) Silent
  unfolding RunsStmt
  empty-Silent (body p end) h = refl-Same Silent
  empty-Silent (body p (next s ss)) h = cc

  -- What is left of an if statement, whose branches have become `a` and `b`.
  if-Same :
      (a b : Body) (drop : Bool)
      → (is_body_empty a && is_body_empty b) ≡ drop
      → Same (RunsStmt Leaf (if_stmt a b)) (RunsKept (if drop then none else some (if_stmt a b)))
  unfolding RunsStmt
  if-Same a b false h t o = refl-Same (RunsStmt Leaf (if_stmt a b)) t o
  if-Same a b true h t o =
      let p : is_body_empty a ≡ true = ground (arith, h) in
      let q : is_body_empty b ≡ true = ground (arith, h) in
      (
        λ r. elim r [ inl x ↦ (empty-Silent a p t o).0 x | inr y ↦ (empty-Silent b q t o).0 y ],
        λ r. inl ((empty-Silent a p t o).1 r),
      )

  -- What is left of a loop, whose condition and body have become `c` and `b`.
  for-Same :
      (p : ForProps) (c b : Body) (drop : Bool)
      → (not p.is_infinite && (is_body_empty c && is_body_empty b)) ≡ drop
      → Same
          (RunsStmt Leaf (for_stmt p c b))
          (RunsKept (if drop then none else some (for_stmt p c b)))
  unfolding RunsStmt
  for-Same p c b false h = refl-Same (RunsStmt Leaf (for_stmt p c b))
  for-Same p c b true h =
      let i : p.is_infinite ≡ false = ground (arith, h) in
      let u : is_body_empty c ≡ true = ground (arith, h) in
      let v : is_body_empty b ≡ true = ground (arith, h) in
      trans-Same (RunsStmt Leaf (for_stmt p c b)) (Loop p Silent Silent) Silent
        (Loop-Same p (RunsBody Leaf c) (RunsBody Leaf b) Silent Silent (empty-Silent c u)
          (empty-Silent b v))
        (Loop-Silent p i)

  branches-Same :
      (a b a' b' : Body)
      → Same (RunsBody Leaf a) (RunsBody Leaf a')
      → Same (RunsBody Leaf b) (RunsBody Leaf b')
      → Same (RunsStmt Leaf (if_stmt a b)) (RunsStmt Leaf (if_stmt a' b'))
  unfolding RunsStmt
  branches-Same a b a' b' f g t o = (
    λ r. elim r [ inl x ↦ inl ((f t o).0 x) | inr y ↦ inr ((g t o).0 y) ],
    λ r. elim r [ inl x ↦ inl ((f t o).1 x) | inr y ↦ inr ((g t o).1 y) ],
  )

  mutual
    unfolding RunsStmt without_dead_code

    pub kept_stmt : (s : Stmt) → Same (RunsStmt Leaf s) (RunsKept (without_dead_code false s))
    kept_stmt (if_stmt a b) =
        let a' = eliminate_dead_code_in_body a false in
        let b' = eliminate_dead_code_in_body b false in
        let drop = is_body_empty a' && is_body_empty b' in
        trans-Same (RunsStmt Leaf (if_stmt a b)) (RunsStmt Leaf (if_stmt a' b'))
          (RunsKept (if drop then none else some (if_stmt a' b')))
          (branches-Same a b a' b' (kept_body a) (kept_body b)) (if-Same a' b' drop refl)
    kept_stmt (for_stmt p c b) =
        let c' = eliminate_dead_code_in_body c false in
        let b' = eliminate_dead_code_in_body b false in
        let drop = not p.is_infinite && (is_body_empty c' && is_body_empty b') in
        trans-Same (RunsStmt Leaf (for_stmt p c b)) (RunsStmt Leaf (for_stmt p c' b'))
          (RunsKept (if drop then none else some (for_stmt p c' b')))
          (Loop-Same p (RunsBody Leaf c) (RunsBody Leaf b) (RunsBody Leaf c') (RunsBody Leaf b')
            (kept_body c) (kept_body b))
          (for-Same p c' b' drop refl)
    kept_stmt (assign x y z) = refl-Same (Leaf (assign x y z))
    kept_stmt (branch x y) = refl-Same (Leaf (branch x y))
    kept_stmt (call x) = refl-Same (Leaf (call x))
    kept_stmt (make_chan x y) = refl-Same (Leaf (make_chan x y))
    kept_stmt (chan_comm_op x y) = refl-Same (Leaf (chan_comm_op x y))
    kept_stmt (close_chan x) = refl-Same (Leaf (close_chan x))
    kept_stmt dead_end = refl-Same (Leaf dead_end)
    kept_stmt (copy_slice x y) = refl-Same (Leaf (copy_slice x y))
    kept_stmt (delete_map_entry x) = refl-Same (Leaf (delete_map_entry x))
    kept_stmt (mutex_op x y) = refl-Same (Leaf (mutex_op x y))
    kept_stmt (wait_group_op x y z) = refl-Same (Leaf (wait_group_op x y z))
    kept_stmt (once_do x y) = refl-Same (Leaf (once_do x y))
    kept_stmt (make_struct x y) = refl-Same (Leaf (make_struct x y))
    kept_stmt (make_container x y z) = refl-Same (Leaf (make_container x y z))
    kept_stmt (return_stmt x y) = refl-Same (RunsStmt Leaf (return_stmt x y))
    kept_stmt recover = refl-Same (Leaf recover)
    kept_stmt (select x y z w) = refl-Same (Leaf (select x y z w))
    kept_stmt (switch x y) = refl-Same (Leaf (switch x y))
    kept_stmt (chan_range x y z) = refl-Same (Leaf (chan_range x y z))
    kept_stmt (container_range x y z w v) = refl-Same (Leaf (container_range x y z w v))

    pub kept_body :
        (b : Body) → Same (RunsBody Leaf b) (RunsBody Leaf (eliminate_dead_code_in_body b false))
    kept_body (body p ss) t o = kept_stmts ss t o

    kept_stmts :
        (ss : Stmts)
        → Same (RunsStmts Leaf ss) (RunsStmts Leaf (eliminate_dead_code_in_stmts ss false))
    kept_stmts end = refl-Same Silent
    kept_stmts (next s ss) =
        let rest = eliminate_dead_code_in_stmts ss false in
        let kept = without_dead_code false s in
        trans-Same (RunsStmts Leaf (next s ss)) (Sequence (RunsKept kept) (RunsStmts Leaf rest))
          (RunsStmts Leaf (add_kept kept rest))
          (Sequence-Same (RunsStmt Leaf s) (RunsStmts Leaf ss) (RunsKept kept) (RunsStmts Leaf rest)
            (kept_stmt s) (kept_stmts ss))
          (add_kept-Same kept rest)
