-- ===== src/Analyzer/Panics/Closed.antt =====
-- Panics go from callees to callers.
use toph.Analyzer.CallGraph.{CallGraph, set_at, contains_edge, can_panic}
use toph.Ir.Program.{Program}
use toph.Analyzer.Panics.{analyze_panics}
use toph.Analyzer.Panics.{
  scan_callers, finish_scc, analyze_scc, analyze_sccs, analyze_panics, Program, CallGraph,
}
use toph.Prelude.{
  Bool, Bool-cases, List, [], arith, false, inl, inr, mem, true, ◌||◌, ℕ, ◌∙◌, ◌∷◌, ◌≡◌, IsNodup,
  ◌++◌, mem-append,
}
use toph.Ir.Program.{Program}
use toph.Analyzer.CallGraph.{CallGraph, set_at, contains_edge, can_panic}
use toph.Analyzer.Panics.Scan.{
  finish_other, scan_other, finish_kept, scan_calls, finish_same, scan_panics,
}

-- All functions of some components.
abbrev pub all_funcs : List ℕ → List (List ℕ) → List ℕ
all_funcs past [] = past
all_funcs past (fs ∷ sccs) = all_funcs (past ++ fs) sccs

module _ (callees : ℕ → List ℕ) where
  -- The components are distinct functions, no two of them share one, and a function calls only those
  -- of its own component and of the ones before.
  abbrev pub IsOrdered : List ℕ → List (List ℕ) → Type 0
  IsOrdered past [] = Unit
  IsOrdered past (fs ∷ sccs) =
      IsNodup fs
      × ((h : ℕ) → mem h fs ≡ true → mem h past ≡ false)
      × ((f b : ℕ) → mem f fs ≡ true → mem b (callees f) ≡ true → (mem b past || mem b fs) ≡ true)
      × IsOrdered (past ++ fs) sccs

module _ (callees : ℕ → List ℕ) (internally : ℕ → Bool) where
  -- Whether a function is marked.
  abbrev panics : (ℕ → Bool) → ℕ → Bool
  panics flags b = internally b || flags b

  -- Functions that call only each other, and are marked where they call one that can panic.
  record IsClosed (fs : List ℕ) (flags : ℕ → Bool) : Type 0 where
    inside : (f b : ℕ) → mem f fs ≡ true → mem b (callees f) ≡ true → mem b fs ≡ true
    marked :
        (f b : ℕ)
        → mem f fs ≡ true
        → mem b (callees f) ≡ true
        → panics flags b ≡ true
        → flags f ≡ true

  scc_other :
      (h : ℕ) (fs : List ℕ) (flags : ℕ → Bool)
      → mem h fs ≡ false
      → analyze_scc callees internally fs flags h ≡ flags h
  unfolding analyze_scc
  scc_other h fs flags m =
      finish_other callees internally h fs (scan_callers callees internally fs flags false) m
      ∙ scan_other callees internally h fs flags false m

  from_component :
      (fs : List ℕ) (flags : ℕ → Bool)
      → IsNodup fs
      → (f b : ℕ) → mem f fs ≡ true
      → mem b (callees f) ≡ true
      → panics (analyze_scc callees internally fs flags) b ≡ true
      → analyze_scc callees internally fs flags f ≡ true
  unfolding analyze_scc
  from_component fs flags d f b m q h =
      let r = scan_callers callees internally fs flags false in
      elim (Bool-cases (internally b)) [
        | inl own ↦
            finish_kept callees internally f fs r
              (scan_calls callees internally fs flags false f b d m q (ground (arith, own)))
        | inr own ↦ elim (Bool-cases (mem b fs)) [
          | inl k ↦
              finish_same callees internally fs r f b m k
                (λ x. scan_panics callees internally fs flags false b d k (ground (arith, x)))
                (ground (arith, h, own))
          | inr k ↦
              let old : finish_scc callees internally fs r b ≡ flags b =
                finish_other callees internally b fs r k
                ∙ scan_other callees internally b fs flags false k in
              finish_kept callees internally f fs r (
                scan_calls callees internally fs flags false f b d m q
                  (ground (arith, own, k, h, old)))
        ]
      ]

  analyze_scc-IsClosed :
      (past fs : List ℕ) (flags : ℕ → Bool)
      → IsClosed past flags
      → IsNodup fs
      → ((h : ℕ) → mem h fs ≡ true → mem h past ≡ false)
      → ((f b : ℕ) → mem f fs ≡ true → mem b (callees f) ≡ true → (mem b past || mem b fs) ≡ true)
      → IsClosed (past ++ fs) (analyze_scc callees internally fs flags)
  analyze_scc-IsClosed past fs flags w d disjoint ordered = record {
    inside = λ f b m q. elim (Bool-cases (mem f fs)) [
      | inl e ↦ ground (arith, mem-append b past fs, ordered f b e q)
      | inr e ↦
          let early : mem f past ≡ true = ground (arith, mem-append f past fs, m, e) in
          ground (arith, mem-append b past fs, w.inside f b early q)
    ];
    marked = λ f b m q h. elim (Bool-cases (mem f fs)) [
      | inl e ↦ from_component fs flags d f b e q h
      | inr e ↦
          let early : mem f past ≡ true = ground (arith, mem-append f past fs, m, e) in
          let callee = w.inside f b early q in
          let later : mem b fs ≡ false = elim (Bool-cases (mem b fs)) [
            | inl k ↦ let off = disjoint b k in ground (arith, callee, off)
            | inr k ↦ k
          ] in
          let old = scc_other b fs flags later in
          scc_other f fs flags e ∙ w.marked f b early q (ground (arith, h, old))
    ];
  }

  analyze_sccs-IsClosed :
      (past : List ℕ) (sccs : List (List ℕ)) (flags : ℕ → Bool)
      → IsClosed past flags
      → IsOrdered callees past sccs
      → IsClosed (all_funcs past sccs) (analyze_sccs callees internally sccs flags)
  unfolding analyze_sccs
  analyze_sccs-IsClosed past [] flags w o = w
  analyze_sccs-IsClosed past (fs ∷ sccs) flags w (d, disjoint, ordered, o) =
      analyze_sccs-IsClosed (past ++ fs) sccs (analyze_scc callees internally fs flags)
        (analyze_scc-IsClosed past fs flags w d disjoint ordered) o

-- Where the components are in order, each before those that call it, a function that calls one which
-- can panic, by itself or through others, is found to panic through others.
pub analyze_panics_lem :
    (p : Program) (sccs : List (List ℕ)) (g : CallGraph)
    → IsOrdered (λ f. set_at f g.caller_to_callees) [] sccs
    → (f b : ℕ) → mem f (all_funcs [] sccs) ≡ true
    → contains_edge f b (analyze_panics p sccs g) ≡ true
    → can_panic b (analyze_panics p sccs g) ≡ true
    → (analyze_panics p sccs g).can_panic_externally f ≡ true
unfolding analyze_panics
analyze_panics_lem p sccs g o f b m e h =
    let h' = analyze_panics p sccs g in
    (analyze_sccs-IsClosed (λ x. set_at x g.caller_to_callees) h'.can_panic_internally [] sccs
        g.can_panic_externally (record { inside = λ x y k q. cc; marked = λ x y k q r. cc })
        o).marked
      f b m e h
