-- ===== src/Ir/Stmts.antt =====
-- The statements of ir/: assign_stmt.go, branch_stmts.go, channel_stmts.go, dead_end_stmt.go,
-- func_stmts.go, sync_stmts.go, type_stmts.go, stmt.go and the bodies of body.go. A statement that
-- others branch to has a label, its pointer. Positions in the Go source are left out.
use toph.Prelude.{find, put, Bool, List, Option, [], false, none, not, some, ℕ}
use toph.Prelude.Word
use toph.Prelude.Word.{Int64}
use toph.Ir.Types.{Signature}
use toph.Ir.Values.{LValue, RValue}

pub data BranchKind : Type 0 where
  continue break : BranchKind

pub data ChanCommOp : Type 0 where
  send receive : ChanCommOp

pub data MutexOp : Type 0 where
  lock unlock rlock runlock : MutexOp

pub data WaitGroupOp : Type 0 where
  add wait : WaitGroupOp

pub data CallKind : Type 0 where
  call_kind defer_kind go_kind : CallKind

pub data ReachabilityRequirement : Type 0 where
  no_requirement reachable unreachable : ReachabilityRequirement

-- The interface `Callable`, with the pointer of a function.
pub data Callable : Type 0 where
  static : ℕ → Callable
  dynamic : LValue → Callable

pub record CallStmt : Type 0 where
  pub callee : Callable
  pub callee_signature : Signature
  pub call_kind : CallKind
  pub args : List (ℕ × RValue)
  pub arg_requires_copy : List (ℕ × Bool)
  pub results : List (ℕ × ℕ)
  pub result_requires_copy : List (ℕ × Bool)

-- A negative bound on the iterations is no bound.
pub record ForProps : Type 0 where
  pub label : ℕ
  pub is_infinite : Bool
  pub min_iterations : Int64
  pub max_iterations : Int64

pub record CaseProps : Type 0 where
  pub is_default : Bool
  pub has_fallthrough : Bool

-- The operation of a case of a select statement.
pub record SelectOp : Type 0 where
  pub channel : LValue
  pub op : ChanCommOp
  pub reach_req : ReachabilityRequirement

-- A body has the pointer of its scope. The lists of statements, conditions and cases are types of the
-- block.
mutual
  pub data Stmt : Type 0 where
    assign : RValue → LValue → Bool → Stmt
    branch : ℕ → BranchKind → Stmt
    call : CallStmt → Stmt
    make_chan : ℕ → RValue → Stmt
    chan_comm_op : LValue → ChanCommOp → Stmt
    close_chan : LValue → Stmt
    dead_end : Stmt
    copy_slice : LValue → LValue → Stmt
    delete_map_entry : LValue → Stmt
    mutex_op : LValue → MutexOp → Stmt
    wait_group_op : LValue → WaitGroupOp → RValue → Stmt
    once_do : LValue → RValue → Stmt
    make_struct : ℕ → Bool → Stmt
    make_container : ℕ → RValue → Bool → Stmt
    return_stmt : List (ℕ × RValue) → Bool → Stmt
    recover : Stmt
    select : ℕ → SelectCases → Bool → Body → Stmt
    if_stmt : Body → Body → Stmt
    switch : ℕ → SwitchCases → Stmt
    for_stmt : ForProps → Body → Body → Stmt
    chan_range : ℕ → LValue → Body → Stmt
    container_range : ℕ → LValue → Option ℕ → Option LValue → Body → Stmt

  pub data Body : Type 0 where
    body : ℕ → Stmts → Body

  pub data Stmts : Type 0 where
    end : Stmts
    next : Stmt → Stmts → Stmts

  pub data Conds : Type 0 where
    no_conds : Conds
    cond : Body → Conds → Conds

  pub data SwitchCases : Type 0 where
    no_cases : SwitchCases
    switch_case : CaseProps → Conds → Body → SwitchCases → SwitchCases

  pub data SelectCases : Type 0 where
    no_select_cases : SelectCases
    select_case : SelectOp → Body → SelectCases → SelectCases

abbrev pub scope : Body → ℕ
scope (body s _) = s

abbrev pub stmts : Body → Stmts
stmts (body _ ss) = ss

abbrev pub append_stmts : Stmts → Stmts → Stmts
append_stmts end rest = rest
append_stmts (next s ss) rest = next s (append_stmts ss rest)

abbrev pub add_stmt : Stmt → Body → Body
add_stmt s (body p ss) = body p (append_stmts ss (next s end))

abbrev pub add_stmts : Stmts → Body → Body
add_stmts new (body p ss) = body p (append_stmts ss new)

abbrev pub set_stmts : Stmts → Body → Body
set_stmts new (body p _) = body p new

abbrev pub new_if_stmt : ℕ → ℕ → Stmt
new_if_stmt if_scope else_scope = if_stmt (body if_scope end) (body else_scope end)

-- `NewForStmt`, whose bounds are -1.
abbrev pub new_for_stmt : ℕ → ℕ → ℕ → Stmt
new_for_stmt label cond_scope body_scope =
    for_stmt
      (record {
        label = label;
        is_infinite = false;
        min_iterations = 18446744073709551615;
        max_iterations = 18446744073709551615;
      })
      (body cond_scope end) (body body_scope end)

abbrev pub has_max_iterations : ForProps → Bool
has_max_iterations p = not (Word.is_negative p.max_iterations)

abbrev pub new_call_stmt : Callable → Signature → CallKind → CallStmt
new_call_stmt callee callee_signature kind = record {
  callee = callee;
  callee_signature = callee_signature;
  call_kind = kind;
  args = [];
  arg_requires_copy = [];
  results = [];
  result_requires_copy = [];
}

abbrev pub add_arg : ℕ → RValue → Bool → CallStmt → CallStmt
add_arg index arg requires_copy c = record c {
  args = put index arg c.args;
  arg_requires_copy = put index requires_copy c.arg_requires_copy;
}

abbrev pub add_result : ℕ → ℕ → Bool → CallStmt → CallStmt
add_result index result requires_copy c = record c {
  results = put index result c.results;
  result_requires_copy = put index requires_copy c.result_requires_copy;
}

-- A missing key of a map of flags reads as false.
abbrev pub flag_at : ℕ → List (ℕ × Bool) → Bool
flag_at k m = elim (find k m) [ none ↦ false | some b ↦ b ]

pub data SpecialOp : Type 0 where
  make_chan_op close_op dead_end_op do_op : SpecialOp
  mutex_special : MutexOp → SpecialOp
  wait_group_special : WaitGroupOp → SpecialOp

-- The operation of a statement that has the interface `SpecialOpStmt`.
unfoldable pub special_op : Stmt → Option SpecialOp
special_op (make_chan _ _) = some make_chan_op
special_op (close_chan _) = some close_op
special_op dead_end = some dead_end_op
special_op (mutex_op _ op) = some (mutex_special op)
special_op (wait_group_op _ op _) = some (wait_group_special op)
special_op (once_do _ _) = some do_op
special_op _ = none
