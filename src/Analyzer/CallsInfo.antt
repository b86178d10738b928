-- ===== src/Analyzer/CallsInfo.antt =====
-- ir/analyzer/call_graph_builder.go: `callsInfo`, the counts of the calls, special operations and
-- allocations in a part of a program, each up to a limit.
pub mod Bounds
pub mod Saturation
use toph.Prelude.Word
use toph.Ir.Types.{IrType, type_eq}
use toph.Ir.Stmts.{
  SpecialOp, make_chan_op, close_op, dead_end_op, do_op, mutex_special, wait_group_special, MutexOp,
  lock, unlock, rlock, runlock, WaitGroupOp, add, wait,
}
use toph.Analyzer.CallGraph.{max_call_counts}
use toph.Prelude.{◌==◌, Bool, Option, if◌then◌else◌, none, some, ℕ}
use toph.Prelude.Word.{Int64}

-- A map of counters, where the order of its keys does not matter.
abbrev pub Counters : Type 0 → Type 0
Counters K = K → Option Int64

-- A missing key reads as 0.
abbrev pub read_count : {K : Type 0} → K → Counters K → Int64
read_count k m = elim (m k) [ none ↦ 0 | some n ↦ n ]

pub record CallsInfo : Type 0 where
  pub call_count : Int64
  pub callee_counts : Counters ℕ
  pub special_op_counts : Counters SpecialOp
  pub type_allocations : Counters IrType

-- The number of a special operation.
abbrev pub op_number : SpecialOp → ℕ
op_number make_chan_op = 0
op_number close_op = 1
op_number dead_end_op = 2
op_number do_op = 3
op_number (mutex_special lock) = 4
op_number (mutex_special unlock) = 5
op_number (mutex_special rlock) = 6
op_number (mutex_special runlock) = 7
op_number (wait_group_special add) = 8
op_number (wait_group_special wait) = 9

abbrev pub op_eq : SpecialOp → SpecialOp → Bool
op_eq a b = op_number a == op_number b

-- The empty maps, and the nil maps of the zero value, which are only read.
abbrev pub init : CallsInfo
init = record {
  call_count = 0;
  callee_counts = λ _. none;
  special_op_counts = λ _. none;
  type_allocations = λ _. none;
}

abbrev pub limited : Int64 → Int64
limited n = if Word.lt max_call_counts n then max_call_counts else n

abbrev limit_counters : {K : Type 0} → Counters K → Counters K
limit_counters m k = elim (m k) [ none ↦ none | some n ↦ some (limited n) ]

abbrev pub enforce_max_call_counts : CallsInfo → CallsInfo
enforce_max_call_counts i = record {
  call_count = limited i.call_count;
  callee_counts = limit_counters i.callee_counts;
  special_op_counts = limit_counters i.special_op_counts;
  type_allocations = limit_counters i.type_allocations;
}

-- `m[k] += n`, with the limit.
abbrev bump : {K : Type 0} → (K → K → Bool) → K → Int64 → Counters K → Counters K
bump same k n m j = if same k j then some (limited (Word.add (read_count k m) n)) else m j

unfoldable pub add_call_count : Int64 → CallsInfo → CallsInfo
add_call_count n i = record i { call_count = limited (Word.add i.call_count n) }

unfoldable pub add_callee_count : ℕ → Int64 → CallsInfo → CallsInfo
add_callee_count f n i = record i { callee_counts = bump (λ a b. a == b) f n i.callee_counts }

unfoldable pub add_special_op_count : SpecialOp → Int64 → CallsInfo → CallsInfo
add_special_op_count op n i = record i { special_op_counts = bump op_eq op n i.special_op_counts }

unfoldable pub add_type_allocations : IrType → Int64 → CallsInfo → CallsInfo
add_type_allocations t n i = record i { type_allocations = bump type_eq t n i.type_allocations }

abbrev multiply_counters : {K : Type 0} → Int64 → Counters K → Counters K
multiply_counters factor m k = elim (m k) [ none ↦ none | some n ↦ some (Word.mul n factor) ]

unfoldable pub multiply : Int64 → CallsInfo → CallsInfo
multiply factor i = enforce_max_call_counts (record {
  call_count = Word.mul i.call_count factor;
  callee_counts = multiply_counters factor i.callee_counts;
  special_op_counts = multiply_counters factor i.special_op_counts;
  type_allocations = multiply_counters factor i.type_allocations;
})

abbrev add_counters : {K : Type 0} → Counters K → Counters K → Counters K
add_counters other m k = elim (other k) [ none ↦ m k | some n ↦ some (Word.add (read_count k m) n) ]

-- `i.add(other)`
unfoldable pub add_info : CallsInfo → CallsInfo → CallsInfo
add_info other i = enforce_max_call_counts (record {
  call_count = Word.add i.call_count other.call_count;
  callee_counts = add_counters other.callee_counts i.callee_counts;
  special_op_counts = add_counters other.special_op_counts i.special_op_counts;
  type_allocations = add_counters other.type_allocations i.type_allocations;
})

abbrev merge_counters : {K : Type 0} → Counters K → Counters K → Counters K
merge_counters other m k = elim (other k) [
  | none ↦ m k
  | some n ↦ if Word.lt (read_count k m) n then some n else m k
]

-- `i.mergeFrom(other)`
unfoldable pub merge_from : CallsInfo → CallsInfo → CallsInfo
merge_from other i = record {
  call_count = if Word.lt i.call_count other.call_count then other.call_count else i.call_count;
  callee_counts = merge_counters other.callee_counts i.callee_counts;
  special_op_counts = merge_counters other.special_op_counts i.special_op_counts;
  type_allocations = merge_counters other.type_allocations i.type_allocations;
}

-- The counters, by what they count.
pub data Key : Type 0 where
  key_calls : Key
  key_callee : ℕ → Key
  key_op : SpecialOp → Key
  key_type : IrType → Key

abbrev pub count_of : Key → CallsInfo → Int64
count_of key_calls i = i.call_count
count_of (key_callee f) i = read_count f i.callee_counts
count_of (key_op op) i = read_count op i.special_op_counts
count_of (key_type t) i = read_count t i.type_allocations
