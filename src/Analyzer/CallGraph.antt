-- ===== src/Analyzer/CallGraph.antt =====
-- ir/analyzer/call_graph.go: which functions call which others, directly or through values of a
-- signature, and how often. A function and an operation are pointers or numbers.
pub mod Dynamic
pub mod Zero
pub mod Linked
pub mod Calls
pub mod Callees
pub mod Counts
use toph.Ir.Types.{Signature}
use toph.Prelude.{
  Result, ok, keys, ◌&&◌, ◌++◌, ◌==◌, ◌>>=◌, Bool, List, Option, [], false, find, if◌then◌else◌,
  is_some, mem, none, put, some, true, ◌||◌, ℕ, ◌∷◌, panic, nil_map, keep, not, count,
}
use toph.Prelude.Word
use toph.Prelude.Word.{Int64}

pub record DynamicCallInfo : Type 0 where
  pub signature : Signature
  pub callers : List ℕ
  pub callees : List ℕ

-- A map of counters is a function, since a missing key reads as 0.
pub record CallGraph : Type 0 where
  pub entry : Option ℕ
  pub caller_to_callees : List (ℕ × List ℕ)
  pub callee_to_callers : List (ℕ × List ℕ)
  pub dynamic_call_infos : List DynamicCallInfo
  pub is_caller_counts : ℕ → Int64
  pub is_callee_counts : ℕ → Int64
  pub caller_to_special_op_counts : List (ℕ × (ℕ → Int64))
  pub total_special_op_counts : ℕ → Int64
  pub caller_to_type_allocations : List (ℕ × (ℕ → Int64))
  pub total_type_allocations : ℕ → Int64
  pub can_panic_internally : ℕ → Bool
  pub can_panic_externally : ℕ → Bool
  pub recovers : ℕ → Bool
  pub sccs_ok : Bool

-- The inner set of a function, which is empty for a missing one.
abbrev pub set_at : ℕ → List (ℕ × List ℕ) → List ℕ
set_at f m = elim (find f m) [ none ↦ [] | some fs ↦ fs ]

abbrev pub insert_func : ℕ → CallGraph → CallGraph
insert_func f g = record g {
  caller_to_callees = put f [] g.caller_to_callees;
  callee_to_callers = put f [] g.callee_to_callers;
  caller_to_special_op_counts = put f (λ _. 0) g.caller_to_special_op_counts;
  caller_to_type_allocations = put f (λ _. 0) g.caller_to_type_allocations;
  sccs_ok = false;
}

unfoldable pub add_func : ℕ → CallGraph → CallGraph
add_func f g = if is_some (find f g.caller_to_callees) then g else insert_func f g

abbrev empty_graph : Option ℕ → CallGraph
empty_graph entry = record {
  entry = entry;
  caller_to_callees = [];
  callee_to_callers = [];
  dynamic_call_infos = [];
  is_caller_counts = λ _. 0;
  is_callee_counts = λ _. 0;
  caller_to_special_op_counts = [];
  total_special_op_counts = λ _. 0;
  caller_to_type_allocations = [];
  total_type_allocations = λ _. 0;
  can_panic_internally = λ _. false;
  can_panic_externally = λ _. false;
  recovers = λ _. false;
  sccs_ok = false;
}

unfoldable pub new_func_call_graph : Option ℕ → CallGraph
unfolding add_func
new_func_call_graph none = empty_graph none
new_func_call_graph (some f) = add_func f (empty_graph (some f))

abbrev pub contains_edge : ℕ → ℕ → CallGraph → Bool
contains_edge caller callee g = mem callee (set_at caller g.caller_to_callees)

abbrev pub can_panic : ℕ → CallGraph → Bool
can_panic f g = g.can_panic_internally f || g.can_panic_externally f

abbrev same_recv : Option ℕ → Option ℕ → Bool
same_recv none none = true
same_recv (some a) (some b) = a == b
same_recv _ _ = false

abbrev pub same_signature : Signature → Signature → Bool
same_signature want have = same_recv want.recv have.recv && want.shape == have.shape

-- The first information with the signature.
abbrev pub info_for : Signature → List DynamicCallInfo → Option DynamicCallInfo
info_for s [] = none
info_for s (d ∷ ds) = if same_signature d.signature s then some d else info_for s ds

-- A write through the pointer to that information.
abbrev pub write_info :
    Signature → (DynamicCallInfo → DynamicCallInfo) → List DynamicCallInfo → List DynamicCallInfo
write_info s f [] = []
write_info s f (d ∷ ds) = if same_signature d.signature s then f d ∷ ds else d ∷ write_info s f ds

unfoldable pub dynamic_callees : Signature → CallGraph → List ℕ
dynamic_callees s g = elim (info_for s g.dynamic_call_infos) [ none ↦ [] | some d ↦ d.callees ]

unfoldable pub dynamic_callers : Signature → CallGraph → List ℕ
dynamic_callers s g = elim (info_for s g.dynamic_call_infos) [ none ↦ [] | some d ↦ d.callers ]

abbrev pub include : ℕ → List ℕ → List ℕ
include f fs = if mem f fs then fs else fs ++ f ∷ []

abbrev pub write_call : ℕ → ℕ → List ℕ → List ℕ → CallGraph → CallGraph
write_call caller callee callees callers g = record g {
  caller_to_callees = put caller (include callee callees) g.caller_to_callees;
  callee_to_callers = put callee (include caller callers) g.callee_to_callers;
  sccs_ok = false;
}

-- A write to the map of a function that was not added panics.
unfoldable pub add_static_call : ℕ → ℕ → CallGraph → Result CallGraph
add_static_call caller callee g = elim (find caller g.caller_to_callees) [
  | none ↦ panic nil_map
  | some callees ↦ elim (find callee g.callee_to_callers) [
    | none ↦ panic nil_map
    | some callers ↦ ok (write_call caller callee callees callers g)
  ]
]

-- The loops that add a call for each known callee of a caller, or for each caller of a callee.
unfoldable pub call_all : ℕ → List ℕ → CallGraph → Result CallGraph
unfolding add_static_call
call_all caller [] g = ok g
call_all caller (f ∷ fs) g = add_static_call caller f g >>= call_all caller fs

unfoldable pub called_by_all : ℕ → List ℕ → CallGraph → Result CallGraph
unfolding add_static_call
called_by_all callee [] g = ok g
called_by_all callee (f ∷ fs) g = add_static_call f callee g >>= called_by_all callee fs

abbrev pub with_infos : List DynamicCallInfo → CallGraph → CallGraph
with_infos ds g = record g { dynamic_call_infos = ds }

abbrev pub stale : CallGraph → CallGraph
stale g = record g { sccs_ok = false }

abbrev pub add_caller_to : ℕ → DynamicCallInfo → DynamicCallInfo
add_caller_to f d = record d { callers = d.callers ++ f ∷ [] }

abbrev pub add_callee_to : ℕ → DynamicCallInfo → DynamicCallInfo
add_callee_to f d = record d { callees = d.callees ++ f ∷ [] }

unfoldable pub add_dynamic_caller : ℕ → Signature → CallGraph → Result CallGraph
unfolding call_all
add_dynamic_caller caller s g = elim (info_for s g.dynamic_call_infos) [
  | none ↦ ok (
      stale (
        with_infos
          (g.dynamic_call_infos
            ++ record { signature = s; callers = caller ∷ []; callees = [] } ∷ [])
          g))
  | some d ↦
      if mem caller d.callers
      then ok g
      else call_all caller d.callees
          (with_infos (write_info s (add_caller_to caller) g.dynamic_call_infos) g)
        >>= λ h. ok (stale h)
]

-- The signature is that of the callee, `callee.Signature()`.
unfoldable pub add_dynamic_callee : ℕ → Signature → CallGraph → Result CallGraph
unfolding called_by_all
add_dynamic_callee callee s g = elim (info_for s g.dynamic_call_infos) [
  | none ↦ ok (
      stale (
        with_infos
          (g.dynamic_call_infos
            ++ record { signature = s; callers = []; callees = callee ∷ [] } ∷ [])
          g))
  | some d ↦
      if mem callee d.callees
      then ok g
      else called_by_all callee d.callers
          (with_infos (write_info s (add_callee_to callee) g.dynamic_call_infos) g)
        >>= λ h. ok (stale h)
]

-- The limit of all counters.
abbrev pub max_call_counts : Int64
max_call_counts = 500

abbrev pub add_to : Int64 → Int64 → Int64
add_to count n =
    if Word.lt max_call_counts (Word.add n count) then max_call_counts else Word.add n count

abbrev pub bump : ℕ → Int64 → (ℕ → Int64) → ℕ → Int64
bump k count m j = if k == j then add_to count (m k) else m j

unfoldable pub add_caller_count : ℕ → Int64 → CallGraph → CallGraph
add_caller_count f count g = record g { is_caller_counts = bump f count g.is_caller_counts }

unfoldable pub add_callee_count : ℕ → Int64 → CallGraph → CallGraph
add_callee_count f count g = record g { is_callee_counts = bump f count g.is_callee_counts }

-- A write to the counters of a function that was not added panics.
unfoldable pub add_special_op_count : ℕ → ℕ → Int64 → CallGraph → Result CallGraph
add_special_op_count f op count g = elim (find f g.caller_to_special_op_counts) [
  | none ↦ panic nil_map
  | some m ↦ ok (record g {
    caller_to_special_op_counts = put f (bump op count m) g.caller_to_special_op_counts;
  })
]

unfoldable pub add_total_special_op_count : ℕ → Int64 → CallGraph → CallGraph
add_total_special_op_count op count g = record g {
  total_special_op_counts = bump op count g.total_special_op_counts;
}

unfoldable pub add_type_allocations : ℕ → ℕ → Int64 → CallGraph → Result CallGraph
add_type_allocations f t count g = elim (find f g.caller_to_type_allocations) [
  | none ↦ panic nil_map
  | some m ↦ ok (record g {
    caller_to_type_allocations = put f (bump t count m) g.caller_to_type_allocations;
  })
]

unfoldable pub add_total_type_allocations : ℕ → Int64 → CallGraph → CallGraph
add_total_type_allocations t count g = record g {
  total_type_allocations = bump t count g.total_type_allocations;
}

abbrev pub without : ℕ → List ℕ → List ℕ
without f fs = keep (λ x. not (x == f)) fs

-- The loop over the callers. Deleting from the map of a function that was not added does nothing.
unfoldable pub forget_callee : ℕ → List ℕ → List (ℕ × List ℕ) → List (ℕ × List ℕ)
forget_callee callee [] m = m
forget_callee callee (f ∷ fs) m =
    forget_callee callee fs (elim (find f m) [ none ↦ m | some gs ↦ put f (without callee gs) m ])

abbrev pub drop_callee_from : ℕ → DynamicCallInfo → DynamicCallInfo
drop_callee_from f d = record d { callees = without f d.callees }

-- The signature is that of the callee.
unfoldable pub zero_callee_counts : ℕ → Signature → CallGraph → CallGraph
unfolding forget_callee
zero_callee_counts callee s g = record g {
  caller_to_callees = forget_callee callee (set_at callee g.callee_to_callers) g.caller_to_callees;
  callee_to_callers = put callee [] g.callee_to_callers;
  dynamic_call_infos = write_info s (drop_callee_from callee) g.dynamic_call_infos;
  is_callee_counts = λ f. if callee == f then 0 else g.is_callee_counts f;
  sccs_ok = false;
}
