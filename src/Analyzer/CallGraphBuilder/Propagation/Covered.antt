-- ===== src/Analyzer/CallGraphBuilder/Propagation/Covered.antt =====
-- The counts of calls cover all calls.
use toph.Prelude.{
  Result, ok, ◌*◌, ◌<◌, ◌≤◌, ◌⊎◌, ◌>>=◌, Always, >>=-Always, Bool, List, arith, false,
  if◌then◌else◌, inl, inr, mem, refl, suc, true, zero, ℕ, ◌≡◌, ap, is_empty,
}
use toph.Prelude.Word.{Int64}
use toph.Ir.Types.{IrType}
use toph.Ir.Stmts.{SpecialOp}
use toph.Analyzer.CallGraph.{CallGraph, max_call_counts}
use toph.Analyzer.CallsInfo.{CallsInfo}
use toph.Analyzer.CallGraphBuilder.Propagation.{
  set_count, has_call_cycle, add_caller_counts, add_scc_counts, add_call_counts_to_graph,
}
use toph.Analyzer.CallGraphBuilder.Propagation.Callees.{IsSmall}
use toph.Analyzer.CallGraphBuilder.Propagation.Callers.{Passed, add_caller_counts-Passed}
use toph.Analyzer.CallGraphBuilder.Propagation.Returns.{
  has_counters, SameCounters, returned, add_scc_counts-Surely,
}
use toph.Analyzer.CallGraphBuilder.Propagation.Components.{
  times, IsPlaced, Partial, no_cycle, one-Partial,
}
use toph.Analyzer.CallGraph.Counts.{at_most}

module _ (infos : ℕ → CallsInfo) (callees : ℕ → List ℕ) (ops : ℕ → List SpecialOp)
    (allocated : ℕ → List IrType) (type_number : IrType → ℕ) (scc_of : ℕ → ℕ)
    (funcs_in : ℕ → List ℕ) where
  abbrev start_counts : ℕ → Bool → (ℕ → Int64) → ℕ → Int64
  start_counts i cyclic counts = if cyclic then set_count (suc i) max_call_counts counts else counts

  start-IsSmall :
      (i : ℕ) (cyclic : Bool) (counts : ℕ → Int64)
      → IsSmall counts
      → IsSmall (start_counts i cyclic counts)
  start-IsSmall i true counts w j = let q = w j in ground arith
  start-IsSmall i false counts w j = w j

  start_raised :
      (i : ℕ) (cyclic : Bool) (counts : ℕ → Int64)
      → IsSmall counts
      → (j : ℕ) → counts j ≤ start_counts i cyclic counts j
  start_raised i true counts w j = let q = w j in ground arith
  start_raised i false counts w j = omega arith

  start_above :
      (i : ℕ) (cyclic : Bool) (counts : ℕ → Int64)
      → (j : ℕ) → suc i < j
      → start_counts i cyclic counts j ≡ counts j
  start_above i true counts j q = ground arith
  start_above i false counts j q = refl

  start_full :
      (i : ℕ) (cyclic : Bool) (counts : ℕ → Int64)
      → IsPlaced infos callees ops allocated type_number scc_of funcs_in
      → (cyclic ≡ false
          → (f b : ℕ) → mem f (funcs_in (suc i)) ≡ true
          → mem b (funcs_in (suc i)) ≡ true
          → times infos callees ops allocated type_number scc_of funcs_in f b ≡ 0)
      → (f b : ℕ) → mem f (funcs_in (suc i)) ≡ true
      → scc_of b ≡ suc i
      → (start_counts i cyclic counts (suc i) ≡ 500)
        ⊎ (times infos callees ops allocated type_number scc_of funcs_in f b ≡ 0)
  start_full i true counts w free f b m e = inl (ground arith)
  start_full i false counts w free f b m e = inr (free refl f b m (w.listed b i e))

  add_scc_counts-Partial :
      (last n : ℕ) (counts : ℕ → Int64) (g : CallGraph)
      → IsPlaced infos callees ops allocated type_number scc_of funcs_in
      → Partial infos callees ops allocated type_number scc_of funcs_in last n counts g
      → Always
          (λ r. Partial infos callees ops allocated type_number scc_of funcs_in last 0 r.0 r.1)
          (add_scc_counts infos callees ops allocated type_number scc_of funcs_in n counts g)
  unfolding add_scc_counts
  add_scc_counts-Partial last zero counts g w p = p
  add_scc_counts-Partial last (suc i) counts g w p =
      let fs = funcs_in (suc i) in
      let run : Bool → Result ((ℕ → Int64) × CallGraph) = λ c.
        add_caller_counts infos callees ops allocated type_number scc_of funcs_in (suc i) fs
          (start_counts i c counts) g in
      >>=-Always
        (λ c.
          c ≡ false
          → (f b : ℕ) → mem f fs ≡ true
          → mem b fs ≡ true
          → times infos callees ops allocated type_number scc_of funcs_in f b ≡ 0)
        (λ r. Partial infos callees ops allocated type_number scc_of funcs_in last 0 r.0 r.1)
        (has_call_cycle infos callees ops allocated type_number scc_of funcs_in fs)
        (λ c. run c >>= λ r.
          add_scc_counts infos callees ops allocated type_number scc_of funcs_in i r.0 r.1)
        (no_cycle infos callees ops allocated type_number scc_of funcs_in w fs)
        (λ c free.
          let start = start_counts i c counts in
          let full = start_full i c counts w free in
          >>=-Always
            (Passed infos callees ops allocated type_number scc_of funcs_in (suc i) fs start g)
            (λ r. Partial infos callees ops allocated type_number scc_of funcs_in last 0 r.0 r.1)
            (run c)
            (λ r. add_scc_counts infos callees ops allocated type_number scc_of funcs_in i r.0 r.1)
            (add_caller_counts-Passed infos callees ops allocated type_number scc_of funcs_in
              (suc i) fs start g (start-IsSmall i c counts p.small) w.limited (w.distinct (suc i))
              (λ f b m n e. full f b m e))
            (λ r x. add_scc_counts-Partial last i r.0 r.1 w (
              one-Partial infos callees ops allocated type_number scc_of funcs_in last i counts
                start g r w p (start_raised i c counts p.small) (start_above i c counts)
                (λ f b m n e. full f b m e) x)))

  nothing-Partial :
      (last init_func : ℕ) (g : CallGraph)
      → ((f : ℕ) → g.is_callee_counts f ≡ 0)
      → Partial infos callees ops allocated type_number scc_of funcs_in last last
          (set_count (scc_of init_func) 1 (λ _. 0))
          g
  nothing-Partial last init_func g z = record {
    small = λ i. ground arith;
    done = λ f q l. omega arith;
    todo = λ f q l. z f;
    covered = λ f b q l m. omega arith;
  }

-- Where the components hold the functions with their numbers, none is empty, calls go to no component with a
-- larger number, no count of a body is above the limit, the functions have counters in the graph and
-- no call is counted yet, passing on the counts does not panic. Then a function is counted as
-- called at least as often as a function that calls it is called, times the calls in the body of
-- that one, or up to the limit of 500.
pub add_call_counts_lem :
    (infos : ℕ → CallsInfo) (callees : ℕ → List ℕ) (ops : ℕ → List SpecialOp)
    (allocated : ℕ → List IrType) (type_number : IrType → ℕ) (scc_of : ℕ → ℕ)
    (funcs_in : ℕ → List ℕ) (last init_func : ℕ) (g : CallGraph)
    → IsPlaced infos callees ops allocated type_number scc_of funcs_in
    → ((i : ℕ) → suc i ≤ last → is_empty (funcs_in (suc i)) ≡ false)
    → ((i f : ℕ) → suc i ≤ last → mem f (funcs_in (suc i)) ≡ true → has_counters f g ≡ true)
    → ((f : ℕ) → g.is_callee_counts f ≡ 0)
    → (h : CallGraph) × (add_call_counts_to_graph infos callees ops allocated type_number scc_of
          funcs_in last init_func g
        ≡ ok h)
      × ((f b : ℕ)
          → 0 < scc_of f
          → scc_of f ≤ last
          → 0 < scc_of b
          → mem b (callees f) ≡ true
          → at_most 500 (
              times infos callees ops allocated type_number scc_of funcs_in f b
              * h.is_callee_counts f)
            ≤ h.is_callee_counts b)
unfolding add_call_counts_to_graph
add_call_counts_lem infos callees ops allocated type_number scc_of funcs_in last init_func g w p k
      z =
    let counts : ℕ → Int64 = set_count (scc_of init_func) 1 (λ _. 0) in
    let m = add_scc_counts infos callees ops allocated type_number scc_of funcs_in last counts g in
    let (r, e, x) =
      returned (λ r. SameCounters g r.1)
        (λ r. Partial infos callees ops allocated type_number scc_of funcs_in last 0 r.0 r.1) m
        (add_scc_counts-Surely infos callees ops allocated type_number scc_of funcs_in last counts g
          p k)
        (add_scc_counts-Partial infos callees ops allocated type_number scc_of funcs_in last last
          counts g w
          (nothing-Partial infos callees ops allocated type_number scc_of funcs_in last init_func g
            z)) in
    (
      r.1,
      ap (λ (o : Result ((ℕ → Int64) × CallGraph)). o >>= λ x. ok x.1) e,
      λ f b q l n c.
          let own =
            ap (λ y. times infos callees ops allocated type_number scc_of funcs_in f b * y)
              (x.done f q l) in
          let callee = x.done b n (let d = w.downwards f b c in omega arith) in
          let share = x.covered f b q l c in ground (arith, own, callee, share),
    )
