-- ===== src/Analyzer/CallGraph/Callees.antt =====
-- addDynamicCallee keeps each caller of a signature linked to each callee.
use toph.Ir.Types.{Signature}
use toph.Prelude.{
  ok, inl, inr, ◌&&◌, ◌++◌, ◌==◌, ◌>>=◌, Bool-cases, [], ap, arith, mem, mem-append, refl, some,
  true, ◌||◌, ℕ, ◌∙◌, ◌∷◌, ◌≡◌,
}
use toph.Analyzer.CallGraph.{
  DynamicCallInfo, CallGraph, contains_edge, info_for, write_info, with_infos, stale, add_callee_to,
  add_dynamic_callee, dynamic_callers, dynamic_callees,
}
use toph.Analyzer.CallGraph.Dynamic.{is_known, IsLinked, IsValid, called_by_all-edges}
use toph.Analyzer.CallGraph.Linked.{
  info_for-All, info_for-write_info, info_for-append, append-IsValid, write_info-IsValid,
  info_cases,
}

-- On a valid graph, adding a known function as a callee of a signature does not panic. It becomes a callee of the
-- signature, the callers of the signature stay, exactly the edges from them are added, and all
-- callers of each signature stay linked to all its callees.
pub add_dynamic_callee-IsValid :
    (a : ℕ) (s : Signature) (g : CallGraph)
    → IsValid g
    → is_known a g ≡ true
    → (h : CallGraph) × (add_dynamic_callee a s g ≡ ok h)
      × IsValid h
      × (mem a (dynamic_callees s h) ≡ true)
      × (dynamic_callers s h ≡ dynamic_callers s g)
      × ((x y : ℕ)
          → contains_edge x y h ≡ (contains_edge x y g || mem x (dynamic_callers s g) && a == y))
unfolding add_dynamic_callee dynamic_callees dynamic_callers
add_dynamic_callee-IsValid a s g w k = elim (info_cases (info_for s g.dynamic_call_infos)) [
  | inl e ↦
      let d : DynamicCallInfo = record { signature = s; callers = []; callees = a ∷ [] } in
      let found = info_for-append s g.dynamic_call_infos d e refl in
      (
        stale (with_infos (g.dynamic_call_infos ++ d ∷ []) g),
        rw (e, add_dynamic_callee) refl,
        append-IsValid d g w (λ b m. cc, λ b m. ground (arith, m, k), λ b c m n. cc),
        rw (found, dynamic_callees) (ground arith),
        rw (found, e, dynamic_callers) refl,
        λ x y. rw (e, dynamic_callers) (ground arith),
      )
  | inr (d, e) ↦ elim (Bool-cases (mem a d.callees)) [
    | inl m ↦
        let (p, q, r) = info_for-All (IsLinked g) s g.dynamic_call_infos d w.linked e in
        (
          g,
          rw (e, add_dynamic_callee, m) refl,
          w,
          rw (e, dynamic_callees) m,
          refl,
          λ x y. rw (e, dynamic_callers) (ground (arith, r x y, m)),
        )
    | inr m ↦
        let (p, q, r) = info_for-All (IsLinked g) s g.dynamic_call_infos d w.linked e in
        let ds = write_info s (add_callee_to a) g.dynamic_call_infos in
        let g₁ = with_infos ds g in
        let (h, f, x, l) =
          called_by_all-edges a d.callers g₁
            (record { same_funcs = w.symmetric.same_funcs; backwards = w.symmetric.backwards }) k
            p in
        let found : info_for s h.dynamic_call_infos ≡ some (add_callee_to a d) =
          ap (info_for s) x.infos
          ∙ info_for-write_info s (add_callee_to a) g.dynamic_call_infos d (λ c. refl) e in
        let here : IsLinked h (add_callee_to a d) = (
          λ b n. x.knows b ∙ p b n,
          λ b n. ground (
            arith,
            x.knows b,
            q b,
            n,
            k,
            mem-append b d.callees (a ∷ []),
            ap (λ c. is_known c g) {x = a} {y = b},
          ),
          λ b c n o. ground (arith, l b c, r b c, n, o, mem-append c d.callees (a ∷ [])),
        ) in
        (
          stale h,
          rw (e, add_dynamic_callee, m) (ap (λ t. t >>= λ u. ok (stale u)) f),
          write_info-IsValid s (add_callee_to a) d g h w e x here,
          rw (found, dynamic_callees) (ground (arith, mem-append a d.callees (a ∷ []))),
          rw (found, e, dynamic_callers) refl,
          λ b c. rw (e, dynamic_callers) (l b c),
        )
  ]
]
