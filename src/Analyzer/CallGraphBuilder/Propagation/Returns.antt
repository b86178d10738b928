-- ===== src/Analyzer/CallGraphBuilder/Propagation/Returns.antt =====
-- The propagation of counts does not panic.
use toph.Prelude.{
  Always, Result, ok, panic, ◌&&◌, ◌>>=◌, Bool, List, Option-cases, [], arith, false, find,
  find-put, if◌then◌else◌, inl, inr, is_some, refl, suc, true, zero, ℕ, ◌∙◌, ◌∷◌, ◌≡◌, is_empty,
  mem, ◌≤◌,
}
use toph.Prelude.Word
use toph.Prelude.Word.{Int64}
use toph.Analyzer.CallGraph.{
  CallGraph, bump, max_call_counts, add_caller_count, add_special_op_count,
  add_total_special_op_count, add_type_allocations, add_total_type_allocations, add_callee_count,
}
use toph.Analyzer.CallGraphBuilder.Propagation.{
  set_count, add_to_sccs, has_call_cycle, add_allocation_counts, add_caller_counts, add_scc_counts,
  CallsInfo, SpecialOp, IrType, add_op_counts, read_count, op_number,
}
use toph.Analyzer.CallsInfo.{CallsInfo, read_count, op_number}
use toph.Ir.Stmts.{SpecialOp}
use toph.Ir.Types.{IrType}

-- The run returns, with a result of that property.
abbrev pub Surely : {A : Type 0} → (A → Type 0) → Result A → Type 0
Surely P (panic _) = false ≡ true
Surely P (ok a) = P a

pub >>=-Surely :
    {A B : Type 0} (P : A → Type 0) (Q : B → Type 0) (m : Result A) (f : A → Result B)
    → Surely P m
    → ((a : A) → P a → Surely Q (f a))
    → Surely Q (m >>= f)
>>=-Surely P Q (panic e) f h k = h
>>=-Surely P Q (ok a) f h k = k a h

pub returned :
    {B : Type 0} (P Q : B → Type 0) (m : Result B)
    → Surely P m
    → Always Q m
    → (b : B) × (m ≡ ok b) × Q b
returned P Q (panic _) h k = cc
returned P Q (ok b) h k = (b, refl, k)

-- Whether a function has its counters.
abbrev pub has_counters : ℕ → CallGraph → Bool
has_counters f g =
    is_some (find f g.caller_to_special_op_counts) && is_some (find f g.caller_to_type_allocations)

abbrev pub SameCounters : CallGraph → CallGraph → Type 0
SameCounters g h = (x : ℕ) → has_counters x h ≡ has_counters x g

special-Surely :
    (f op : ℕ) (n : Int64) (g : CallGraph)
    → has_counters f g ≡ true
    → Surely (SameCounters g) (add_special_op_count f op n g)
unfolding add_special_op_count
special-Surely f op n g k = elim (Option-cases (find f g.caller_to_special_op_counts)) [
  | inl e ↦ rw (e, add_special_op_count) (ground (arith, e, k))
  | inr (m, e) ↦
      rw (e, add_special_op_count)
        (λ x. ground (arith, e, k, find-put f x (bump op n m) g.caller_to_special_op_counts))
]

allocations-Surely :
    (f t : ℕ) (n : Int64) (g : CallGraph)
    → has_counters f g ≡ true
    → Surely (SameCounters g) (add_type_allocations f t n g)
unfolding add_type_allocations
allocations-Surely f t n g k = elim (Option-cases (find f g.caller_to_type_allocations)) [
  | inl e ↦ rw (e, add_type_allocations) (ground (arith, e, k))
  | inr (m, e) ↦
      rw (e, add_type_allocations)
        (λ x. ground (arith, e, k, find-put f x (bump t n m) g.caller_to_type_allocations))
]

-- A run whose result has the counters of a graph that has those of another one.
kept-Surely :
    {B : Type 0} (graph : B → CallGraph) (g h : CallGraph) (m : Result B)
    → SameCounters g h
    → Surely (λ b. SameCounters h (graph b)) m
    → Surely (λ b. SameCounters g (graph b)) m
kept-Surely graph g h (panic _) e k = k
kept-Surely graph g h (ok b) e k = λ x. k x ∙ e x

module _ (infos : ℕ → CallsInfo) (callees : ℕ → List ℕ) (ops : ℕ → List SpecialOp)
    (allocated : ℕ → List IrType) (type_number : IrType → ℕ) (scc_of : ℕ → ℕ)
    (funcs_in : ℕ → List ℕ) where
  add_op_counts-Surely :
      (f : ℕ) (times : Int64) (os : List SpecialOp) (g : CallGraph)
      → has_counters f g ≡ true
      → Surely
          (SameCounters g)
          (add_op_counts infos callees ops allocated type_number scc_of funcs_in f times os g)
  unfolding add_op_counts add_total_special_op_count
  add_op_counts-Surely f times [] g k = λ x. refl
  add_op_counts-Surely f times (op ∷ os) g k =
      let n = read_count op (infos f).special_op_counts in
      let next : CallGraph → CallGraph =
        add_total_special_op_count (op_number op) (Word.mul n times) in
      >>=-Surely (SameCounters g) (SameCounters g) (add_special_op_count f (op_number op) n g)
        (λ h.
          add_op_counts infos callees ops allocated type_number scc_of funcs_in f times os (next h))
        (special-Surely f (op_number op) n g k)
        (λ h e.
          kept-Surely (λ y. y) g h
            (add_op_counts infos callees ops allocated type_number scc_of funcs_in f times os
              (next h))
            e (add_op_counts-Surely f times os (next h) (e f ∙ k)))

  add_allocation_counts-Surely :
      (f : ℕ) (times : Int64) (ts : List IrType) (g : CallGraph)
      → has_counters f g ≡ true
      → Surely (SameCounters g) (
          add_allocation_counts infos callees ops allocated type_number scc_of funcs_in f times ts
            g)
  unfolding add_allocation_counts add_total_type_allocations
  add_allocation_counts-Surely f times [] g k = λ x. refl
  add_allocation_counts-Surely f times (t ∷ ts) g k =
      let n = read_count t (infos f).type_allocations in
      let next : CallGraph → CallGraph =
        add_total_type_allocations (type_number t) (Word.mul n times) in
      >>=-Surely (SameCounters g) (SameCounters g) (add_type_allocations f (type_number t) n g)
        (λ h.
          add_allocation_counts infos callees ops allocated type_number scc_of funcs_in f times ts
            (next h))
        (allocations-Surely f (type_number t) n g k)
        (λ h e.
          kept-Surely (λ y. y) g h
            (add_allocation_counts infos callees ops allocated type_number scc_of funcs_in f times
              ts (next h))
            e (add_allocation_counts-Surely f times ts (next h) (e f ∙ k)))

  add_caller_counts-Surely :
      (scc : ℕ) (fs : List ℕ) (counts : ℕ → Int64) (g : CallGraph)
      → ((f : ℕ) → mem f fs ≡ true → has_counters f g ≡ true)
      → Surely
          (λ r. SameCounters g r.1)
          (add_caller_counts infos callees ops allocated type_number scc_of funcs_in scc fs counts
            g)
  unfolding add_caller_counts add_callee_count add_caller_count
  add_caller_counts-Surely scc [] counts g k = λ x. refl
  add_caller_counts-Surely scc (f ∷ fs) counts g k =
      let later =
        add_to_sccs infos callees ops allocated type_number scc_of funcs_in scc f (callees f)
          counts in
      let start = add_callee_count f (later scc) (add_caller_count f (infos f).call_count g) in
      let special =
        add_op_counts infos callees ops allocated type_number scc_of funcs_in f (later scc) (ops f)
          start in
      let allocate =
        add_allocation_counts infos callees ops allocated type_number scc_of funcs_in f (later scc)
          (allocated f) in
      let rest =
        add_caller_counts infos callees ops allocated type_number scc_of funcs_in scc fs later in
      let own = k f (ground arith) in
      let same =
        >>=-Surely (SameCounters g) (SameCounters g) special allocate
          (add_op_counts-Surely f (later scc) (ops f) start own)
          (λ h e.
            kept-Surely (λ y. y) g h (allocate h) e
              (add_allocation_counts-Surely f (later scc) (allocated f) h (e f ∙ own))) in
      >>=-Surely (SameCounters g) (λ r. SameCounters g r.1) (special >>= allocate) rest same
        (λ h e.
          kept-Surely (λ r. r.1) g h (rest h) e
            (add_caller_counts-Surely scc fs later h (λ c m. e c ∙ k c (ground (arith, m)))))

  has_call_cycle-Surely :
      (fs : List ℕ)
      → is_empty fs ≡ false
      → Surely
          (λ c. Unit)
          (has_call_cycle infos callees ops allocated type_number scc_of funcs_in fs)
  has_call_cycle-Surely [] e = cc
  has_call_cycle-Surely (_ ∷ []) e = record {}
  has_call_cycle-Surely (_ ∷ _ ∷ _) e = record {}

  pub add_scc_counts-Surely :
      (n : ℕ) (counts : ℕ → Int64) (g : CallGraph)
      → ((i : ℕ) → suc i ≤ n → is_empty (funcs_in (suc i)) ≡ false)
      → ((i f : ℕ) → suc i ≤ n → mem f (funcs_in (suc i)) ≡ true → has_counters f g ≡ true)
      → Surely
          (λ r. SameCounters g r.1)
          (add_scc_counts infos callees ops allocated type_number scc_of funcs_in n counts g)
  unfolding add_scc_counts
  add_scc_counts-Surely zero counts g p k = λ x. refl
  add_scc_counts-Surely (suc i) counts g p k =
      let run : Bool → Result ((ℕ → Int64) × CallGraph) = λ c.
        add_caller_counts infos callees ops allocated type_number scc_of funcs_in (suc i)
          (funcs_in (suc i)) (if c then set_count (suc i) max_call_counts counts else counts) g in
      >>=-Surely (λ c. Unit) (λ r. SameCounters g r.1)
        (has_call_cycle infos callees ops allocated type_number scc_of funcs_in (funcs_in (suc i)))
        (λ c. run c >>= λ r.
          add_scc_counts infos callees ops allocated type_number scc_of funcs_in i r.0 r.1)
        (has_call_cycle-Surely (funcs_in (suc i)) (p i (omega arith)))
        (λ c _.
          >>=-Surely (λ r. SameCounters g r.1) (λ r. SameCounters g r.1) (run c)
            (λ r. add_scc_counts infos callees ops allocated type_number scc_of funcs_in i r.0 r.1)
            (add_caller_counts-Surely (suc i) (funcs_in (suc i))
              (if c then set_count (suc i) max_call_counts counts else counts) g
              (λ f m. k i f (omega arith) m))
            (λ r e.
              kept-Surely (λ r. r.1) g r.1
                (add_scc_counts infos callees ops allocated type_number scc_of funcs_in i r.0 r.1) e
                (add_scc_counts-Surely i r.0 r.1 (λ j l. p j (omega arith))
                  (λ j f l m. e f ∙ k j f (omega arith) m))))
