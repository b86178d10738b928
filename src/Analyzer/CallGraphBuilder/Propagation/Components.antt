-- ===== src/Analyzer/CallGraphBuilder/Propagation/Components.antt =====
-- The components pass their counts on, from the last one to the first.
use toph.Prelude.{
  ◌*◌, ◌==◌, ◌<◌, ◌≤◌, ◌⊎◌, ==_iff, Always, Bool-cases, IsNodup, List, [], ap, arith, false, inl,
  inr, mem, suc, sym, true, ℕ, ◌∙◌, ◌∷◌, ◌≡◌,
}
use toph.Prelude.Word.{Int64}
use toph.Ir.Types.{IrType}
use toph.Ir.Stmts.{SpecialOp}
use toph.Analyzer.CallGraph.{CallGraph}
use toph.Analyzer.CallGraph.Counts.{at_most}
use toph.Analyzer.CallsInfo.{CallsInfo}
use toph.Analyzer.CallGraphBuilder.Propagation.{has_call_cycle}
use toph.Analyzer.CallGraphBuilder.Propagation.Callees.{IsSmall}
use toph.Analyzer.CallGraphBuilder.Propagation.Callers.{times_called, Passed}

module _ (infos : ℕ → CallsInfo) (callees : ℕ → List ℕ) (ops : ℕ → List SpecialOp)
    (allocated : ℕ → List IrType) (type_number : IrType → ℕ) (scc_of : ℕ → ℕ)
    (funcs_in : ℕ → List ℕ) where
  abbrev pub times : ℕ → ℕ → Int64
  times = times_called infos callees ops allocated type_number scc_of funcs_in

  -- The components are lists of distinct functions, each of which has its number, calls go to the same
  -- component or to one with a smaller number, and no count of a body is above the limit.
  pub record IsPlaced : Type 0 where
    pub placed : (i f : ℕ) → mem f (funcs_in i) ≡ true → scc_of f ≡ i
    pub listed : (f i : ℕ) → scc_of f ≡ suc i → mem f (funcs_in (suc i)) ≡ true
    pub distinct : (i : ℕ) → IsNodup (funcs_in i)
    pub downwards : (f b : ℕ) → mem b (callees f) ≡ true → scc_of b ≤ scc_of f
    pub limited : (f b : ℕ) → times f b ≤ 500

  -- Components above a number are done, and those up to it are not.
  pub record Partial (last n : ℕ) (counts : ℕ → Int64) (g : CallGraph) : Type 0 where
    pub small : IsSmall counts
    pub done : (f : ℕ) → n < scc_of f → scc_of f ≤ last → g.is_callee_counts f ≡ counts (scc_of f)
    pub todo : (f : ℕ) → 0 < scc_of f → scc_of f ≤ n → g.is_callee_counts f ≡ 0
    pub covered :
        (f b : ℕ)
        → n < scc_of f
        → scc_of f ≤ last
        → mem b (callees f) ≡ true
        → at_most 500 (times f b * counts (scc_of f)) ≤ counts (scc_of b)

  -- Functions of a component without a cycle do not call each other.
  pub no_cycle :
      IsPlaced
      → (fs : List ℕ)
      → Always
          (λ c. c ≡ false → (f b : ℕ) → mem f fs ≡ true → mem b fs ≡ true → times f b ≡ 0)
          (has_call_cycle infos callees ops allocated type_number scc_of funcs_in fs)
  no_cycle w [] = record {}
  no_cycle w (x ∷ []) = λ e f b m n.
      let (i, _) = ==_iff x f in
      let (j, _) = ==_iff x b in
      let small = w.limited x x in
      let z : times x x ≡ 0 = ground (arith, e, small) in
      ap (λ y. times y b) (sym (i (ground (arith, m))))
      ∙ ap (λ y. times x y) (sym (j (ground (arith, n))))
      ∙ z
  no_cycle w (x ∷ y ∷ fs) = λ e. cc

  -- The component with that number is done.
  pub one-Partial :
      (last i : ℕ) (counts start : ℕ → Int64) (g : CallGraph) (r : (ℕ → Int64) × CallGraph)
      → IsPlaced
      → Partial last (suc i) counts g
      → ((j : ℕ) → counts j ≤ start j)
      → ((j : ℕ) → suc i < j → start j ≡ counts j)
      → ((f b : ℕ)
          → mem f (funcs_in (suc i)) ≡ true
          → mem b (callees f) ≡ true
          → scc_of b ≡ suc i
          → (start (suc i) ≡ 500) ⊎ (times f b ≡ 0))
      → Passed infos callees ops allocated type_number scc_of funcs_in
          (suc i)
          (funcs_in (suc i))
          start
          g
          r
      → Partial last i r.0 r.1
  one-Partial last i counts start g r w p raised above full x =
      let own : r.0 (suc i) ≡ start (suc i) = x.stays (suc i) full in
      let later : (j : ℕ) → suc i < j → r.0 j ≡ counts j = λ j q.
        x.stays j (λ f b m n e.
          let a = w.placed (suc i) f m in
          let c = w.downwards f b n in inr (ground (arith, a, c, e, q)))
        ∙ above j q in
      let outside : (f : ℕ) → (scc_of f == suc i) ≡ false → mem f (funcs_in (suc i)) ≡ false =
        λ f e. elim (Bool-cases (mem f (funcs_in (suc i)))) [
          | inl m ↦ let a = w.placed (suc i) f m in ground (arith, a, e)
          | inr m ↦ m
        ] in
      record {
        small = x.small;
        done = λ f q l. elim (Bool-cases (scc_of f == suc i)) [
          | inl e ↦
              let (j, _) = ==_iff (scc_of f) (suc i) in
              x.counted f (w.listed f i (j e)) (p.todo f (omega arith) (ground (arith, e)))
              ∙ sym own
              ∙ ap r.0 (sym (j e))
          | inr e ↦
              let big : suc i < scc_of f = ground (arith, e, q) in
              x.other f (outside f e) ∙ p.done f big l ∙ sym (later (scc_of f) big)
        ];
        todo = λ f q l. x.other f (outside f (ground (arith, l))) ∙ p.todo f q (omega arith);
        covered = λ f b q l m. elim (Bool-cases (scc_of f == suc i)) [
          | inl e ↦
              let (j, _) = ==_iff (scc_of f) (suc i) in
              let share = ap (λ y. times f b * y) (ap r.0 (j e) ∙ own) in
              let c = x.covers f b (w.listed f i (j e)) m in ground (arith, share, c)
          | inr e ↦
              let big : suc i < scc_of f = ground (arith, e, q) in
              let share = ap (λ y. times f b * y) (later (scc_of f) big) in
              let c = p.covered f b big l m in
              let u = raised (scc_of b) in
              let v = x.grows (scc_of b) in ground (arith, share, c, u, v)
        ];
      }
