-- ===== src/Analyzer/Panics/Scan.antt =====
-- The loops over the functions of one component.

use toph.Analyzer.Panics.{set_flag, some_can_panic, scan_callers, mark_all, finish_scc, length}
use toph.Prelude.{
  ◌==◌, Bool, Bool-cases, List, [], arith, false, if◌then◌else◌, inl, inr, mem, refl, true, ◌||◌, ℕ,
  ◌∙◌, ◌∷◌, ◌≡◌, ◌&&◌, ==_iff, IsNodup, ap, not, subst, sym, ltb,
}

module _ (callees : ℕ → List ℕ) (internally : ℕ → Bool) where
  -- Whether one of some functions has a flag.
  some_can_panic-true :
      (flags : ℕ → Bool) (b : ℕ) (bs : List ℕ)
      → mem b bs ≡ true
      → (internally b || flags b) ≡ true
      → some_can_panic callees internally flags bs ≡ true
  unfolding some_can_panic
  some_can_panic-true flags b [] m h = cc
  some_can_panic-true flags b (c ∷ bs) m h = ground (
    arith,
    h,
    m,
    ap (λ x. internally x || flags x) {x = c} {y = b},
    some_can_panic-true flags b bs,
  )

  mark_all_other :
      (h : ℕ) (fs : List ℕ) (flags : ℕ → Bool)
      → mem h fs ≡ false
      → mark_all callees internally fs flags h ≡ flags h
  unfolding mark_all
  mark_all_other h [] flags m = refl
  mark_all_other h (f ∷ fs) flags m =
      mark_all_other h fs (set_flag f true flags) (ground (arith, m)) ∙ ground (arith, m)

  mark_all_kept :
      (h : ℕ) (fs : List ℕ) (flags : ℕ → Bool)
      → flags h ≡ true
      → mark_all callees internally fs flags h ≡ true
  unfolding mark_all
  mark_all_kept h [] flags m = m
  mark_all_kept h (f ∷ fs) flags m = mark_all_kept h fs (set_flag f true flags) (ground (arith, m))

  mark_all_in :
      (h : ℕ) (fs : List ℕ) (flags : ℕ → Bool)
      → mem h fs ≡ true
      → mark_all callees internally fs flags h ≡ true
  unfolding mark_all
  mark_all_in h [] flags m = cc
  mark_all_in h (f ∷ fs) flags m = elim (Bool-cases (f == h)) [
    | inl e ↦ mark_all_kept h fs (set_flag f true flags) (ground (arith, e))
    | inr e ↦ mark_all_in h fs (set_flag f true flags) (ground (arith, m, e))
  ]

  pub scan_other :
      (h : ℕ) (fs : List ℕ) (flags : ℕ → Bool) (c : Bool)
      → mem h fs ≡ false
      → (scan_callers callees internally fs flags c).0 h ≡ flags h
  unfolding scan_callers
  scan_other h [] flags c m = refl
  scan_other h (f ∷ fs) flags c m =
      let e = some_can_panic callees internally flags (callees f) in
      scan_other h fs (set_flag f e flags) (if internally f || e then true else c)
        (ground (arith, m))
      ∙ ground (arith, m)

  scan_flag :
      (fs : List ℕ) (flags : ℕ → Bool) (c : Bool)
      → c ≡ true
      → (scan_callers callees internally fs flags c).1 ≡ true
  unfolding scan_callers
  scan_flag [] flags c h = h
  scan_flag (f ∷ fs) flags c h =
      let e = some_can_panic callees internally flags (callees f) in
      scan_flag fs (set_flag f e flags) (if internally f || e then true else c) (ground (arith, h))

  -- A function of the component that can panic sets the flag of the component.
  pub scan_panics :
      (fs : List ℕ) (flags : ℕ → Bool) (c : Bool) (h : ℕ)
      → IsNodup fs
      → mem h fs ≡ true
      → (internally h || (scan_callers callees internally fs flags c).0 h) ≡ true
      → (scan_callers callees internally fs flags c).1 ≡ true
  unfolding scan_callers
  scan_panics [] flags c h d m k = cc
  scan_panics (f ∷ fs) flags c h d m k =
      let e = some_can_panic callees internally flags (callees f) in
      let c' = if internally f || e then true else c in
      elim (Bool-cases (f == h)) [
        | inl q ↦
            let absent : mem h fs ≡ false = ground (arith, d, q) in
            let same = scan_other h fs (set_flag f e flags) c' absent in
            let own : internally f ≡ internally h = ap internally ((==_iff f h).0 q) in
            scan_flag fs (set_flag f e flags) c' (ground (arith, k, same, own, q))
        | inr q ↦
            scan_panics fs (set_flag f e flags) c' h (ground (arith, d)) (ground (arith, m, q)) k
      ]

  -- A function calls one that can panic by itself, or that stands outside and can panic.
  pub scan_calls :
      (fs : List ℕ) (flags : ℕ → Bool) (c : Bool) (h b : ℕ)
      → IsNodup fs
      → mem h fs ≡ true
      → mem b (callees h) ≡ true
      → (internally b || not (mem b fs) && flags b) ≡ true
      → (scan_callers callees internally fs flags c).0 h ≡ true
  unfolding scan_callers
  scan_calls [] flags c h b d m q k = cc
  scan_calls (f ∷ fs) flags c h b d m q k =
      let e = some_can_panic callees internally flags (callees f) in
      let c' = if internally f || e then true else c in
      elim (Bool-cases (f == h)) [
        | inl r ↦
            let absent : mem h fs ≡ false = ground (arith, d, r) in
            let same = scan_other h fs (set_flag f e flags) c' absent in
            let own : callees h ≡ callees f = ap callees (sym ((==_iff f h).0 r)) in
            let found : e ≡ true =
              some_can_panic-true flags b (callees f) (subst (λ bs. mem b bs ≡ true) own q)
                (ground (arith, k)) in
            same ∙ rw r found
        | inr r ↦
            scan_calls fs (set_flag f e flags) c' h b (ground (arith, d)) (ground (arith, m, r)) q
              (ground (arith, k))
      ]

  pub finish_other :
      (h : ℕ) (fs : List ℕ) (r : (ℕ → Bool) × Bool)
      → mem h fs ≡ false
      → finish_scc callees internally fs r h ≡ r.0 h
  finish_other h fs (flags, c) m = elim (Bool-cases (ltb 1 (length fs) && c)) [
    | inl e ↦ rw e (mark_all_other h fs flags m)
    | inr e ↦ rw e refl
  ]

  pub finish_kept :
      (h : ℕ) (fs : List ℕ) (r : (ℕ → Bool) × Bool)
      → r.0 h ≡ true
      → finish_scc callees internally fs r h ≡ true
  finish_kept h fs (flags, c) m = elim (Bool-cases (ltb 1 (length fs) && c)) [
    | inl e ↦ rw e (mark_all_kept h fs flags m)
    | inr e ↦ rw e m
  ]

  only_one :
      (f b : ℕ) (fs : List ℕ)
      → ltb 1 (length fs) ≡ false
      → mem f fs ≡ true
      → mem b fs ≡ true
      → f ≡ b
  only_one f b [] h m k = cc
  only_one f b (x ∷ []) h m k = ground (arith, m, k)
  only_one f b (x ∷ y ∷ fs) h m k = ground (arith, h)

  -- In a component, one marked function means that all are.
  pub finish_same :
      (fs : List ℕ) (r : (ℕ → Bool) × Bool) (f b : ℕ)
      → mem f fs ≡ true
      → mem b fs ≡ true
      → (r.0 b ≡ true → r.1 ≡ true)
      → finish_scc callees internally fs r b ≡ true
      → finish_scc callees internally fs r f ≡ true
  finish_same fs (flags, c) f b m k raised h = elim (Bool-cases (ltb 1 (length fs) && c)) [
    | inl e ↦ rw e (mark_all_in f fs flags m)
    | inr e ↦
        let flag : flags b ≡ true =
          subst (λ x. (if x then mark_all callees internally fs flags else flags) b ≡ true) e h in
        let small : ltb 1 (length fs) ≡ false = ground (arith, e, raised flag) in
        rw e (subst (λ x. flags x ≡ true) (sym (only_one f b fs small m k)) flag)
  ]
