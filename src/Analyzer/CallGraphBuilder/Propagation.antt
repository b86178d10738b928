-- ===== src/Analyzer/CallGraphBuilder/Propagation.antt =====
-- ir/analyzer/call_graph_builder.go: the counts of calls go from callers to callees, one strongly
-- connected component after the other, and calls of closures in functions that are not called go away.
pub mod Callees
pub mod Callers
pub mod Components
pub mod Returns
pub mod Covered
use toph.Prelude.Word
use toph.Prelude.Word.{Int64}
use toph.Prelude.{
  Result, ok, panic, index_out_of_range, nil_dereference, ◌==◌, ◌>>=◌, Bool, List, Option, [],
  if◌then◌else◌, none, some, suc, true, zero, ℕ, ◌∷◌,
}
use toph.Ir.Types.{IrType}
use toph.Ir.Stmts.{SpecialOp}
use toph.Ir.Program.{Program}
use toph.Analyzer.CallGraph.{
  CallGraph, max_call_counts, add_to, add_caller_count, add_callee_count, add_special_op_count,
  add_total_special_op_count, add_type_allocations, add_total_type_allocations, zero_callee_counts,
}
use toph.Analyzer.CallsInfo.{CallsInfo, read_count, op_number}
use toph.Analyzer.CallCounts.Simple.{Builder, add_variables}
use toph.Analyzer.CallCounts.Bodies.{find_callees_info_for_body}

-- The first loop, for one caller. The values of the global variables count for the init function.
abbrev pub find_caller_info : Program → Builder → ℕ → ℕ → Result CallsInfo
find_caller_info p b fuel caller =
    find_callees_info_for_body b fuel (p.func_at caller).body_of >>= λ res.
    if caller == p.init_func
    then add_variables b fuel (p.scopes.variables p.global_scope) res
    else ok res

abbrev pub set_count : ℕ → Int64 → (ℕ → Int64) → ℕ → Int64
set_count scc n counts i = if scc == i then n else counts i

-- What the first loop found, the keys of its maps in the order of their loops, the number of a type,
-- and the components.
module _ (infos : ℕ → CallsInfo) (callees : ℕ → List ℕ) (ops : ℕ → List SpecialOp)
    (allocated : ℕ → List IrType) (type_number : IrType → ℕ) (scc_of : ℕ → ℕ)
    (funcs_in : ℕ → List ℕ) where
  -- The loop over the callees of a caller.
  unfoldable pub add_to_sccs : ℕ → ℕ → List ℕ → (ℕ → Int64) → ℕ → Int64
  add_to_sccs scc caller [] counts = counts
  add_to_sccs scc caller (b ∷ bs) counts =
      let n = Word.mul (read_count b (infos caller).callee_counts) (counts scc) in
      add_to_sccs scc caller bs (set_count (scc_of b) (add_to n (counts (scc_of b))) counts)

  unfoldable pub add_op_counts : ℕ → Int64 → List SpecialOp → CallGraph → Result CallGraph
  unfolding add_special_op_count add_total_special_op_count
  add_op_counts caller times [] g = ok g
  add_op_counts caller times (op ∷ os) g =
      let n = read_count op (infos caller).special_op_counts in
      add_special_op_count caller (op_number op) n g >>= λ h.
      add_op_counts caller times os (add_total_special_op_count (op_number op) (Word.mul n times) h)

  unfoldable pub add_allocation_counts : ℕ → Int64 → List IrType → CallGraph → Result CallGraph
  unfolding add_type_allocations add_total_type_allocations
  add_allocation_counts caller times [] g = ok g
  add_allocation_counts caller times (t ∷ ts) g =
      let n = read_count t (infos caller).type_allocations in
      add_type_allocations caller (type_number t) n g >>= λ h.
      add_allocation_counts caller times ts
        (add_total_type_allocations (type_number t) (Word.mul n times) h)

  -- The loop over the callers of a component, with the counts of the components.
  unfoldable pub add_caller_counts :
      ℕ → List ℕ → (ℕ → Int64) → CallGraph → Result ((ℕ → Int64) × CallGraph)
  unfolding add_to_sccs add_op_counts add_allocation_counts add_caller_count add_callee_count
  add_caller_counts scc [] counts g = ok (counts, g)
  add_caller_counts scc (f ∷ fs) counts g =
      let later = add_to_sccs scc f (callees f) counts in
      let counted = add_callee_count f (later scc) (add_caller_count f (infos f).call_count g) in
      add_op_counts f (later scc) (ops f) counted
      >>= add_allocation_counts f (later scc) (allocated f)
      >>= add_caller_counts scc fs later

  -- Whether the functions of a component call each other.
  abbrev pub has_call_cycle : List ℕ → Result Bool
  has_call_cycle [] = panic index_out_of_range
  has_call_cycle (f ∷ []) = ok (Word.lt 0 (read_count f (infos f).callee_counts))
  has_call_cycle (_ ∷ _ ∷ _) = ok true

  -- The components from that number down to the first.
  unfoldable pub add_scc_counts : ℕ → (ℕ → Int64) → CallGraph → Result ((ℕ → Int64) × CallGraph)
  unfolding add_caller_counts
  add_scc_counts zero counts g = ok (counts, g)
  add_scc_counts (suc i) counts g = has_call_cycle (funcs_in (suc i)) >>= λ cyclic.
      let start = if cyclic then set_count (suc i) max_call_counts counts else counts in
      add_caller_counts (suc i) (funcs_in (suc i)) start g >>= λ r. add_scc_counts i r.0 r.1

  -- The number of components includes the number 0, which has no functions.
  unfoldable pub add_call_counts_to_graph : ℕ → ℕ → CallGraph → Result CallGraph
  unfolding add_scc_counts
  add_call_counts_to_graph last init_func g =
      add_scc_counts last (set_count (scc_of init_func) 1 (λ _. 0)) g >>= λ r. ok r.1

-- A function with an enclosing function has a signature. A nil signature panics when it is read next,
-- and here at once.
abbrev pub zero_closure : Option Int64 → ℕ → Program → CallGraph → Result CallGraph
zero_closure none f p g = ok g
zero_closure (some n) f p g = if Word.lt 0 n then ok g else elim (p.func_at f).signature [
  | none ↦ panic nil_dereference
  | some s ↦ ok (zero_callee_counts f s g)
]

abbrev pub enclosing_count : Option ℕ → CallGraph → Option Int64
enclosing_count none g = none
enclosing_count (some e) g = some (g.is_callee_counts e)

unfoldable pub remove_calls_to_closures : Program → List ℕ → CallGraph → Result CallGraph
unfolding zero_callee_counts
remove_calls_to_closures p [] g = ok g
remove_calls_to_closures p (f ∷ fs) g =
    zero_closure (enclosing_count (p.func_at f).enclosing_func g) f p g
    >>= remove_calls_to_closures p fs
