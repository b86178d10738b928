-- ===== src/Analyzer/CallGraphBuilder/Propagation/Callers.antt =====
-- The callers of one component pass its count on, and get it as the count of their calls.
use toph.Prelude.{
  Result, ◌*◌, ◌==◌, ◌≤◌, ◌⊎◌, ◌>>=◌, ==_iff, Always, >>=-Always, Always-map, Bool-cases, IsNodup,
  List, Option-cases, [], ap, arith, false, find, inl, inr, mem, refl, subst, true, ℕ, ◌∙◌, ◌∷◌,
  ◌≡◌,
}
use toph.Prelude.Word
use toph.Prelude.Word.{Int64}
use toph.Ir.Types.{IrType}
use toph.Ir.Stmts.{SpecialOp}
use toph.Analyzer.CallGraph.{
  CallGraph, add_caller_count, add_callee_count, add_special_op_count, add_total_special_op_count,
  add_type_allocations, add_total_type_allocations,
}
use toph.Analyzer.CallGraph.Counts.{at_most}
use toph.Analyzer.CallsInfo.{CallsInfo, read_count, op_number}
use toph.Analyzer.CallGraphBuilder.Propagation.{
  add_to_sccs, add_op_counts, add_allocation_counts, add_caller_counts,
}
use toph.Analyzer.CallGraphBuilder.Propagation.Callees.{IsSmall, calls_of, Sent, add_to_sccs-Sent}

-- The counts of calls are the same.
abbrev pub SameCalls : CallGraph → CallGraph → Type 0
SameCalls g h = (x : ℕ) → h.is_callee_counts x ≡ g.is_callee_counts x

special-SameCalls :
    (f op : ℕ) (n : Int64) (g : CallGraph) → Always (SameCalls g) (add_special_op_count f op n g)
unfolding add_special_op_count
special-SameCalls f op n g = elim (Option-cases (find f g.caller_to_special_op_counts)) [
  | inl e ↦ rw (e, add_special_op_count) (record {})
  | inr (m, e) ↦ rw (e, add_special_op_count) (λ x. refl)
]

allocations-SameCalls :
    (f t : ℕ) (n : Int64) (g : CallGraph) → Always (SameCalls g) (add_type_allocations f t n g)
unfolding add_type_allocations
allocations-SameCalls f t n g = elim (Option-cases (find f g.caller_to_type_allocations)) [
  | inl e ↦ rw (e, add_type_allocations) (record {})
  | inr (m, e) ↦ rw (e, add_type_allocations) (λ x. refl)
]

module _ (infos : ℕ → CallsInfo) (callees : ℕ → List ℕ) (ops : ℕ → List SpecialOp)
    (allocated : ℕ → List IrType) (type_number : IrType → ℕ) (scc_of : ℕ → ℕ)
    (funcs_in : ℕ → List ℕ) where
  add_op_counts-SameCalls :
      (f : ℕ) (times : Int64) (os : List SpecialOp) (g : CallGraph)
      → Always
          (SameCalls g)
          (add_op_counts infos callees ops allocated type_number scc_of funcs_in f times os g)
  unfolding add_op_counts add_total_special_op_count
  add_op_counts-SameCalls f times [] g = λ x. refl
  add_op_counts-SameCalls f times (op ∷ os) g =
      let n = read_count op (infos f).special_op_counts in
      let rest : CallGraph → Result CallGraph = λ h.
        add_op_counts infos callees ops allocated type_number scc_of funcs_in f times os
          (add_total_special_op_count (op_number op) (Word.mul n times) h) in
      >>=-Always (SameCalls g) (SameCalls g) (add_special_op_count f (op_number op) n g) rest
        (special-SameCalls f (op_number op) n g)
        (λ h e.
          Always-map (SameCalls h) (SameCalls g) (rest h) (λ y k x. k x ∙ e x)
            (add_op_counts-SameCalls f times os
              (add_total_special_op_count (op_number op) (Word.mul n times) h)))

  add_allocation_counts-SameCalls :
      (f : ℕ) (times : Int64) (ts : List IrType) (g : CallGraph)
      → Always (SameCalls g) (
          add_allocation_counts infos callees ops allocated type_number scc_of funcs_in f times ts
            g)
  unfolding add_allocation_counts add_total_type_allocations
  add_allocation_counts-SameCalls f times [] g = λ x. refl
  add_allocation_counts-SameCalls f times (t ∷ ts) g =
      let n = read_count t (infos f).type_allocations in
      let rest : CallGraph → Result CallGraph = λ h.
        add_allocation_counts infos callees ops allocated type_number scc_of funcs_in f times ts
          (add_total_type_allocations (type_number t) (Word.mul n times) h) in
      >>=-Always (SameCalls g) (SameCalls g) (add_type_allocations f (type_number t) n g) rest
        (allocations-SameCalls f (type_number t) n g)
        (λ h e.
          Always-map (SameCalls h) (SameCalls g) (rest h) (λ y k x. k x ∙ e x)
            (add_allocation_counts-SameCalls f times ts
              (add_total_type_allocations (type_number t) (Word.mul n times) h)))

  abbrev pub times_called : ℕ → ℕ → Int64
  times_called = calls_of infos callees ops allocated type_number scc_of funcs_in

  -- What a component leaves: a count that may be changed is full, the callees have their shares, and
  -- the functions of the component have its count.
  pub record Passed (scc : ℕ) (fs : List ℕ) (counts : ℕ → Int64) (g : CallGraph)
      (r : (ℕ → Int64) × CallGraph) : Type 0 where
    pub small : IsSmall r.0
    pub grows : (i : ℕ) → counts i ≤ r.0 i
    pub stays :
        (i : ℕ)
        → ((f b : ℕ)
            → mem f fs ≡ true
            → mem b (callees f) ≡ true
            → scc_of b ≡ i
            → (counts i ≡ 500) ⊎ (times_called f b ≡ 0))
        → r.0 i ≡ counts i
    pub covers :
        (f b : ℕ)
        → mem f fs ≡ true
        → mem b (callees f) ≡ true
        → at_most 500 (times_called f b * counts scc) ≤ r.0 (scc_of b)
    pub counted :
        (f : ℕ) → mem f fs ≡ true → g.is_callee_counts f ≡ 0 → r.1.is_callee_counts f ≡ counts scc
    pub other : (f : ℕ) → mem f fs ≡ false → r.1.is_callee_counts f ≡ g.is_callee_counts f

  -- The graph with the counts of one caller.
  abbrev with_counts : ℕ → Int64 → CallGraph → CallGraph
  with_counts f times g = add_callee_count f times (add_caller_count f (infos f).call_count g)

  -- The first caller and the others.
  first-Passed :
      (scc f : ℕ) (fs : List ℕ) (counts later : ℕ → Int64) (g h : CallGraph)
      (r : (ℕ → Int64) × CallGraph)
      → IsSmall counts
      → IsNodup (f ∷ fs)
      → Sent infos callees ops allocated type_number scc_of funcs_in scc f (callees f) counts later
      → later scc ≡ counts scc
      → SameCalls (with_counts f (later scc) g) h
      → Passed scc fs later h r
      → Passed scc (f ∷ fs) counts g r
  unfolding add_callee_count add_caller_count
  first-Passed scc f fs counts later g h r w d sent kept same x =
      let at_f : g.is_callee_counts f ≡ 0 → h.is_callee_counts f ≡ counts scc =
        λ z. let e = same f in let q = w scc in ground (arith, e, q, z, kept) in
      record {
        small = x.small;
        grows = λ i. let a = sent.grows i in let b = x.grows i in omega arith;
        stays = λ i free.
            let e = sent.stays i (λ b m q. free f b (ground arith) m q) in
            x.stays i (λ c b m n q. elim (free c b (ground (arith, m)) n q) [
              | inl full ↦ inl (e ∙ full)
              | inr zero_calls ↦ inr zero_calls
            ])
            ∙ e;
        covers = λ c b m n. elim (Bool-cases (f == c)) [
          | inl e ↦
              let (j, _) = ==_iff f c in
              subst
                (λ y.
                  mem b (callees y) ≡ true
                  → at_most 500 (times_called y b * counts scc) ≤ r.0 (scc_of b))
                (j e) (λ n. let p = sent.covers b n in let q = x.grows (scc_of b) in omega arith) n
          | inr e ↦
              let share = ap (λ y. times_called c b * y) kept in
              let p = x.covers c b (ground (arith, m, e)) n in ground (arith, p, share)
        ];
        counted = λ c m z. elim (Bool-cases (f == c)) [
          | inl e ↦
              let (j, _) = ==_iff f c in
              subst (λ y. g.is_callee_counts y ≡ 0 → r.1.is_callee_counts y ≡ counts scc) (j e)
                (λ z. x.other f (ground (arith, d)) ∙ at_f z) z
          | inr e ↦
              let q = same c in x.counted c (ground (arith, m, e)) (ground (arith, q, e, z)) ∙ kept
        ];
        other = λ c m. let q = same c in x.other c (ground (arith, m)) ∙ ground (arith, q, m);
      }

  pub add_caller_counts-Passed :
      (scc : ℕ) (fs : List ℕ) (counts : ℕ → Int64) (g : CallGraph)
      → IsSmall counts
      → ((f b : ℕ) → times_called f b ≤ 500)
      → IsNodup fs
      → ((f b : ℕ)
          → mem f fs ≡ true
          → mem b (callees f) ≡ true
          → scc_of b ≡ scc
          → (counts scc ≡ 500) ⊎ (times_called f b ≡ 0))
      → Always (Passed scc fs counts g) (
          add_caller_counts infos callees ops allocated type_number scc_of funcs_in scc fs counts g)
  unfolding add_caller_counts
  add_caller_counts-Passed scc [] counts g w k d full = record {
    small = w;
    grows = λ i. omega arith;
    stays = λ i h. refl;
    covers = λ f b m n. cc;
    counted = λ f m z. cc;
    other = λ f m. refl;
  }
  add_caller_counts-Passed scc (f ∷ fs) counts g w k d full =
      let later =
        add_to_sccs infos callees ops allocated type_number scc_of funcs_in scc f (callees f)
          counts in
      let sent =
        add_to_sccs-Sent infos callees ops allocated type_number scc_of funcs_in scc f (callees f)
          counts w (k f) in
      let kept = sent.stays scc (λ b m e. full f b (ground arith) m e) in
      let start = with_counts f (later scc) g in
      let special =
        add_op_counts infos callees ops allocated type_number scc_of funcs_in f (later scc) (ops f)
          start in
      let allocate =
        add_allocation_counts infos callees ops allocated type_number scc_of funcs_in f (later scc)
          (allocated f) in
      let rest =
        add_caller_counts infos callees ops allocated type_number scc_of funcs_in scc fs later in
      let same =
        >>=-Always (SameCalls start) (SameCalls start) special allocate
          (add_op_counts-SameCalls f (later scc) (ops f) start)
          (λ h e.
            Always-map (SameCalls h) (SameCalls start) (allocate h) (λ y q x. q x ∙ e x)
              (add_allocation_counts-SameCalls f (later scc) (allocated f) h)) in
      >>=-Always (SameCalls start) (Passed scc (f ∷ fs) counts g) (special >>= allocate) rest same
        (λ h e.
          Always-map (Passed scc fs later h) (Passed scc (f ∷ fs) counts g) (rest h)
            (λ r x. first-Passed scc f fs counts later g h r w d sent kept e x)
            (add_caller_counts-Passed scc fs later h sent.small k (ground (arith, d)) (λ c b m n q.
              elim (full c b (ground (arith, m)) n q) [
                | inl all ↦ inl (kept ∙ all)
                | inr zero_calls ↦ inr zero_calls
              ])))
