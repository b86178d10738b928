-- ===== src/Analyzer/CallsInfo/Bounds.antt =====
-- The limit of the counters of `callsInfo`.
use toph.Prelude.Word
use toph.Ir.Types.{IrType}
use toph.Ir.Stmts.{SpecialOp}
use toph.Analyzer.CallGraph.{max_call_counts}
use toph.Analyzer.CallsInfo.{
  CallsInfo, init, limited, add_call_count, add_callee_count, add_special_op_count,
  add_type_allocations, multiply, add_info, merge_from, Key, key_calls, key_callee, key_op,
  key_type, count_of, Int64,
}
use toph.Prelude.{arith, false, refl, ℕ, ◌≡◌}
use toph.Prelude.Word.{Int64}

-- No counter is above the limit.
abbrev pub IsBounded : CallsInfo → Type 0
IsBounded i = (k : Key) → Word.lt max_call_counts (count_of k i) ≡ false

limited-IsSmall : (n : Int64) → Word.lt max_call_counts (limited n) ≡ false
limited-IsSmall n = ground arith

pub init-IsBounded : IsBounded init
init-IsBounded key_calls = refl
init-IsBounded (key_callee f) = refl
init-IsBounded (key_op o) = refl
init-IsBounded (key_type t) = refl

pub add_info-IsBounded : (i j : CallsInfo) → IsBounded (add_info j i)
unfolding add_info
add_info-IsBounded i j key_calls = ground arith
add_info-IsBounded i j (key_callee f) = ground arith
add_info-IsBounded i j (key_op o) = ground arith
add_info-IsBounded i j (key_type t) = ground arith

pub multiply-IsBounded : (n : Int64) (i : CallsInfo) → IsBounded (multiply n i)
unfolding multiply
multiply-IsBounded n i key_calls = ground arith
multiply-IsBounded n i (key_callee f) = ground arith
multiply-IsBounded n i (key_op o) = ground arith
multiply-IsBounded n i (key_type t) = ground arith

pub merge_from-IsBounded :
    (i j : CallsInfo) → IsBounded i → IsBounded j → IsBounded (merge_from j i)
unfolding merge_from
merge_from-IsBounded i j h k key_calls = ground (arith, h key_calls, k key_calls)
merge_from-IsBounded i j h k (key_callee f) = ground (arith, h (key_callee f), k (key_callee f))
merge_from-IsBounded i j h k (key_op o) = ground (arith, h (key_op o), k (key_op o))
merge_from-IsBounded i j h k (key_type t) = ground (arith, h (key_type t), k (key_type t))

pub add_call_count-IsBounded :
    (n : Int64) (i : CallsInfo) → IsBounded i → IsBounded (add_call_count n i)
unfolding add_call_count
add_call_count-IsBounded n i h key_calls = ground arith
add_call_count-IsBounded n i h (key_callee f) = h (key_callee f)
add_call_count-IsBounded n i h (key_op o) = h (key_op o)
add_call_count-IsBounded n i h (key_type t) = h (key_type t)

pub add_callee_count-IsBounded :
    (f : ℕ) (n : Int64) (i : CallsInfo) → IsBounded i → IsBounded (add_callee_count f n i)
unfolding add_callee_count
add_callee_count-IsBounded e n i h key_calls = h key_calls
add_callee_count-IsBounded e n i h (key_callee f) = ground (arith, h (key_callee f))
add_callee_count-IsBounded e n i h (key_op o) = h (key_op o)
add_callee_count-IsBounded e n i h (key_type t) = h (key_type t)

pub add_special_op_count-IsBounded :
    (o : SpecialOp) (n : Int64) (i : CallsInfo)
    → IsBounded i
    → IsBounded (add_special_op_count o n i)
unfolding add_special_op_count
add_special_op_count-IsBounded e n i h key_calls = h key_calls
add_special_op_count-IsBounded e n i h (key_callee f) = h (key_callee f)
add_special_op_count-IsBounded e n i h (key_op o) = ground (arith, h (key_op o))
add_special_op_count-IsBounded e n i h (key_type t) = h (key_type t)

pub add_type_allocations-IsBounded :
    (t : IrType) (n : Int64) (i : CallsInfo) → IsBounded i → IsBounded (add_type_allocations t n i)
unfolding add_type_allocations
add_type_allocations-IsBounded e n i h key_calls = h key_calls
add_type_allocations-IsBounded e n i h (key_callee f) = h (key_callee f)
add_type_allocations-IsBounded e n i h (key_op o) = h (key_op o)
add_type_allocations-IsBounded e n i h (key_type t) = ground (arith, h (key_type t))
