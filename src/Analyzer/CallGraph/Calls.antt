-- ===== src/Analyzer/CallGraph/Calls.antt =====
-- addDynamicCaller keeps each caller of a signature linked to each callee.
use toph.Ir.Types.{Signature}
use toph.Prelude.{
  ok, inl, inr, ◌&&◌, ◌++◌, ◌==◌, ◌>>=◌, Bool-cases, [], ap, arith, mem, mem-append, refl, some,
  true, ◌||◌, ℕ, ◌∙◌, ◌∷◌, ◌≡◌,
}
use toph.Analyzer.CallGraph.{
  DynamicCallInfo, CallGraph, contains_edge, info_for, write_info, with_infos, stale, add_caller_to,
  add_dynamic_caller, dynamic_callers, dynamic_callees,
}
use toph.Analyzer.CallGraph.Dynamic.{is_known, IsLinked, IsValid, call_all-edges}
use toph.Analyzer.CallGraph.Linked.{
  info_for-All, info_for-write_info, info_for-append, append-IsValid, write_info-IsValid,
  info_cases,
}

-- On a valid graph, adding a known function as a caller of a signature does not panic. It becomes a caller of the
-- signature, the callees of the signature stay, exactly the edges to them are added, and all
-- callers of each signature stay linked to all its callees.
pub add_dynamic_caller-IsValid :
    (a : ℕ) (s : Signature) (g : CallGraph)
    → IsValid g
    → is_known a g ≡ true
    → (h : CallGraph) × (add_dynamic_caller a s g ≡ ok h)
      × IsValid h
      × (mem a (dynamic_callers s h) ≡ true)
      × (dynamic_callees s h ≡ dynamic_callees s g)
      × ((x y : ℕ)
          → contains_edge x y h ≡ (contains_edge x y g || a == x && mem y (dynamic_callees s g)))
unfolding add_dynamic_caller dynamic_callers dynamic_callees
add_dynamic_caller-IsValid a s g w k = elim (info_cases (info_for s g.dynamic_call_infos)) [
  | inl e ↦
      let d : DynamicCallInfo = record { signature = s; callers = a ∷ []; callees = [] } in
      let found = info_for-append s g.dynamic_call_infos d e refl in
      (
        stale (with_infos (g.dynamic_call_infos ++ d ∷ []) g),
        rw (e, add_dynamic_caller) refl,
        append-IsValid d g w (λ b m. ground (arith, m, k), λ b m. cc, λ b c m n. cc),
        rw (found, dynamic_callers) (ground arith),
        rw (found, e, dynamic_callees) refl,
        λ x y. rw (e, dynamic_callees) (ground arith),
      )
  | inr (d, e) ↦ elim (Bool-cases (mem a d.callers)) [
    | inl m ↦
        let (p, q, r) = info_for-All (IsLinked g) s g.dynamic_call_infos d w.linked e in
        (
          g,
          rw (e, add_dynamic_caller, m) refl,
          w,
          rw (e, dynamic_callers) m,
          refl,
          λ x y. rw (e, dynamic_callees) (ground (arith, r x y, m)),
        )
    | inr m ↦
        let (p, q, r) = info_for-All (IsLinked g) s g.dynamic_call_infos d w.linked e in
        let ds = write_info s (add_caller_to a) g.dynamic_call_infos in
        let g₁ = with_infos ds g in
        let (h, f, x, l) =
          call_all-edges a d.callees g₁
            (record { same_funcs = w.symmetric.same_funcs; backwards = w.symmetric.backwards }) k
            q in
        let found : info_for s h.dynamic_call_infos ≡ some (add_caller_to a d) =
          ap (info_for s) x.infos
          ∙ info_for-write_info s (add_caller_to a) g.dynamic_call_infos d (λ c. refl) e in
        let here : IsLinked h (add_caller_to a d) = (
          λ b n. ground (
            arith,
            x.knows b,
            p b,
            n,
            k,
            mem-append b d.callers (a ∷ []),
            ap (λ c. is_known c g) {x = a} {y = b},
          ),
          λ b n. x.knows b ∙ q b n,
          λ b c n o. ground (arith, l b c, r b c, n, o, mem-append b d.callers (a ∷ [])),
        ) in
        (
          stale h,
          rw (e, add_dynamic_caller, m) (ap (λ t. t >>= λ u. ok (stale u)) f),
          write_info-IsValid s (add_caller_to a) d g h w e x here,
          rw (found, dynamic_callers) (ground (arith, mem-append a d.callers (a ∷ []))),
          rw (found, e, dynamic_callees) refl,
          λ b c. rw (e, dynamic_callees) (l b c),
        )
  ]
]
