-- ===== src/Analyzer/CallGraphBuilder/Propagation/Callees.antt =====
-- One caller passes its count on to the components of its callees.
use toph.Prelude.Word
use toph.Prelude.Word.{Int64}
use toph.Prelude.{
  ◌*◌, ◌+◌, ◌==◌, ◌≤◌, ◌⊎◌, ==_iff, Bool-cases, List, [], ap, arith, if◌then◌else◌, inl, inr, refl,
  suc, true, zero, ℕ, ◌∙◌, ◌∷◌, ◌≡◌, mem, subst,
}
use toph.Ir.Types.{IrType}
use toph.Ir.Stmts.{SpecialOp}
use toph.Analyzer.CallGraph.{add_to}
use toph.Analyzer.CallGraph.Counts.{at_most}
use toph.Analyzer.CallsInfo.{CallsInfo, read_count}
use toph.Analyzer.CallGraphBuilder.Propagation.{set_count, add_to_sccs}

mul_mono : (a b k : ℕ) → a ≤ b → k * a ≤ k * b
mul_mono a b zero h = omega arith
mul_mono a b (suc k) h = let rest = mul_mono a b k h in omega arith

mul_small : (k c : ℕ) → k ≤ 500 → c ≤ 500 → k * c ≤ 250000
mul_small k c h i = let a = mul_mono c 500 k i in omega arith

mul-exact : (k c : ℕ) → k ≤ 500 → c ≤ 500 → Word.mul k c ≡ k * c
mul-exact k c h i = let a = mul_small k c h i in omega arith

add_to-exact : (n c : ℕ) → n ≤ 250000 → c ≤ 500 → add_to n c ≡ at_most 500 (n + c)
add_to-exact n c h i = ground arith

abbrev pub IsSmall : (ℕ → Int64) → Type 0
IsSmall counts = (i : ℕ) → counts i ≤ 500

module _ (infos : ℕ → CallsInfo) (callees : ℕ → List ℕ) (ops : ℕ → List SpecialOp)
    (allocated : ℕ → List IrType) (type_number : IrType → ℕ) (scc_of : ℕ → ℕ)
    (funcs_in : ℕ → List ℕ) where
  -- How often a body calls a function.
  abbrev pub calls_of : ℕ → ℕ → Int64
  calls_of f b = read_count b (infos f).callee_counts

  abbrev sent : ℕ → ℕ → List ℕ → (ℕ → Int64) → ℕ → Int64
  sent = add_to_sccs infos callees ops allocated type_number scc_of funcs_in

  -- The write for one callee.
  abbrev step : ℕ → ℕ → ℕ → (ℕ → Int64) → ℕ → Int64
  step scc f b counts =
      set_count (scc_of b) (add_to (Word.mul (calls_of f b) (counts scc)) (counts (scc_of b)))
        counts

  step-exact :
      (scc f b i : ℕ) (counts : ℕ → Int64)
      → IsSmall counts
      → calls_of f b ≤ 500
      → step scc f b counts i ≡ (
          if scc_of b == i
          then at_most 500 (calls_of f b * counts scc + counts (scc_of b))
          else counts i)
  step-exact scc f b i counts w k =
      let m = mul-exact (calls_of f b) (counts scc) k (w scc) in
      let s = mul_small (calls_of f b) (counts scc) k (w scc) in
      let e : add_to (Word.mul (calls_of f b) (counts scc)) (counts (scc_of b))
          ≡ at_most 500 (calls_of f b * counts scc + counts (scc_of b)) =
        ap (λ x. add_to x (counts (scc_of b))) m
        ∙ add_to-exact (calls_of f b * counts scc) (counts (scc_of b)) s (w (scc_of b)) in
      elim (Bool-cases (scc_of b == i)) [ inl h ↦ rw h e | inr h ↦ rw h refl ]

  step-IsSmall :
      (scc f b : ℕ) (counts : ℕ → Int64)
      → IsSmall counts
      → calls_of f b ≤ 500
      → IsSmall (step scc f b counts)
  step-IsSmall scc f b counts w k i =
      let e = step-exact scc f b i counts w k in let q = w i in ground (arith, e, q)

  step-grows :
      (scc f b i : ℕ) (counts : ℕ → Int64)
      → IsSmall counts
      → calls_of f b ≤ 500
      → counts i ≤ step scc f b counts i
  step-grows scc f b i counts w k =
      let e = step-exact scc f b i counts w k in
      let q = w i in
      elim (Bool-cases (scc_of b == i)) [
        | inl h ↦
            let (j, _) = ==_iff (scc_of b) i in
            let same = ap counts (j h) in ground (arith, e, q, same, h)
        | inr h ↦ ground (arith, e, h)
      ]

  step-stays :
      (scc f b i : ℕ) (counts : ℕ → Int64)
      → IsSmall counts
      → calls_of f b ≤ 500
      → (scc_of b ≡ i → (counts i ≡ 500) ⊎ (calls_of f b ≡ 0))
      → step scc f b counts i ≡ counts i
  step-stays scc f b i counts w k full =
      let e = step-exact scc f b i counts w k in
      let q = w i in
      elim (Bool-cases (scc_of b == i)) [
        | inl h ↦
            let (j, _) = ==_iff (scc_of b) i in
            let same = ap counts (j h) in
            elim (full (j h)) [
              | inl c ↦ ground (arith, e, q, same, h, c)
              | inr c ↦
                  let none_sent = ap (λ x. x * counts scc) c in
                  ground (arith, e, q, same, h, none_sent)
            ]
        | inr h ↦ ground (arith, e, h)
      ]

  -- What the loop leaves for one caller: counts grow up to the limit, only those of components of
  -- callees change, not where they are full, and each callee has its share.
  pub record Sent (scc f : ℕ) (bs : List ℕ) (counts later : ℕ → Int64) : Type 0 where
    pub small : IsSmall later
    pub grows : (i : ℕ) → counts i ≤ later i
    pub stays :
        (i : ℕ)
        → ((b : ℕ) → mem b bs ≡ true → scc_of b ≡ i → (counts i ≡ 500) ⊎ (calls_of f b ≡ 0))
        → later i ≡ counts i
    pub covers :
        (b : ℕ) → mem b bs ≡ true → at_most 500 (calls_of f b * counts scc) ≤ later (scc_of b)

  pub add_to_sccs-Sent :
      (scc f : ℕ) (bs : List ℕ) (counts : ℕ → Int64)
      → IsSmall counts
      → ((b : ℕ) → calls_of f b ≤ 500)
      → Sent scc f bs counts (sent scc f bs counts)
  unfolding add_to_sccs
  add_to_sccs-Sent scc f [] counts w k = record {
    small = w;
    grows = λ i. omega arith;
    stays = λ i h. refl;
    covers = λ b m. cc;
  }
  add_to_sccs-Sent scc f (b ∷ bs) counts w k =
      let counts' = step scc f b counts in
      let rest = add_to_sccs-Sent scc f bs counts' (step-IsSmall scc f b counts w (k b)) k in
      let g : (i : ℕ) → counts i ≤ counts' i = λ i. step-grows scc f b i counts w (k b) in
      record {
        small = rest.small;
        grows = λ i. let x = g i in let y = rest.grows i in omega arith;
        stays = λ i h.
            let e = step-stays scc f b i counts w (k b) (λ s. h b (ground arith) s) in
            rest.stays i (λ c m s. elim (h c (ground (arith, m)) s) [
              | inl full ↦ inl (e ∙ full)
              | inr zero_calls ↦ inr zero_calls
            ])
            ∙ e;
        covers = λ c m. elim (Bool-cases (b == c)) [
          | inl h ↦
              let (j, _) = ==_iff b c in
              subst
                (λ x. at_most 500 (calls_of f x * counts scc) ≤ sent scc f bs counts' (scc_of x))
                (j h)
                (let e = step-exact scc f b (scc_of b) counts w (k b) in
                  let y = rest.grows (scc_of b) in ground (arith, e, y))
          | inr h ↦
              let y = rest.covers c (ground (arith, m, h)) in
              let x = mul_mono (counts scc) (counts' scc) (calls_of f c) (g scc) in
              ground (arith, x, y)
        ];
      }
