-- ===== src/Optimizer/Transitions/Scan.antt =====
-- The marks that a scan of one list of transitions, and of a list of lists, leaves.
use toph.Prelude.{
  mem-append, text_eq_iff, Bool-cases, ◌&&◌, Bool, List, [], arith, inl, inr, true, ◌||◌, ℕ, ◌∷◌,
  ◌≡◌, false, if◌then◌else◌, refl, not, IsNodup, append-IsNodup,
}
use toph.Uppaal.Objects.{Heap, Trans}
use toph.Optimizer.Transitions.{same_labels, mark, mark_equal, mem, scan}

-- Having the same labels is an equivalence.
pub same_labels_sym : (t u : Trans) → same_labels t u ≡ true → same_labels u t ≡ true
same_labels_sym t u h = ground (
  arith,
  text_eq_iff t.select_stmts u.select_stmts,
  text_eq_iff t.guard_expr u.guard_expr,
  text_eq_iff t.sync_stmt u.sync_stmt,
  text_eq_iff t.update_stmts u.update_stmts,
  text_eq_iff u.select_stmts t.select_stmts,
  text_eq_iff u.guard_expr t.guard_expr,
  text_eq_iff u.sync_stmt t.sync_stmt,
  text_eq_iff u.update_stmts t.update_stmts,
)

pub same_labels_refl : (t : Trans) → same_labels t t ≡ true
same_labels_refl t = ground (
  arith,
  text_eq_iff t.select_stmts t.select_stmts,
  text_eq_iff t.guard_expr t.guard_expr,
  text_eq_iff t.sync_stmt t.sync_stmt,
  text_eq_iff t.update_stmts t.update_stmts,
)

module _ (h : Heap) where
  abbrev pub same : ℕ → ℕ → Bool
  same t u = same_labels (h.trans t) (h.trans u)

  mem-mark_equal :
      (t x : ℕ) (rest removal : List ℕ)
      → mem x (mark_equal h t rest removal) ≡ (mem x removal || (mem x rest && same t x))
  unfolding mark_equal
  mem-mark_equal t x [] removal = ground arith
  mem-mark_equal t x (u ∷ rest) removal = elim (Bool-cases (same t u)) [
    | inl e ↦
        rw (e) (
          ground
            (arith, mem-mark_equal t x rest (mark u removal), mem-append x removal (u ∷ []), e))
    | inr e ↦ rw (e) (ground (arith, mem-mark_equal t x rest removal, e))
  ]

  scan_mono :
      (x : ℕ) (ts removal : List ℕ) → mem x removal ≡ true → mem x (scan h ts removal) ≡ true
  unfolding scan
  scan_mono x [] removal m = m
  scan_mono x (t ∷ rest) removal m =
      scan_mono x rest (if mem t removal then removal else mark_equal h t rest removal)
        (ground (arith, mem-mark_equal t x rest removal))

  -- A scan leaves the marks of what stands outside the list.
  pub scan_frame :
      (x : ℕ) (ts removal : List ℕ) → mem x ts ≡ false → mem x (scan h ts removal) ≡ mem x removal
  unfolding scan
  scan_frame x [] removal m = refl
  scan_frame x (t ∷ rest) removal m = ground (
    arith,
    scan_frame x rest (if mem t removal then removal else mark_equal h t rest removal),
    mem-mark_equal t x rest removal,
  )

  -- What stands behind an unmarked transition with its labels is marked.
  scan_marks :
      (t u : ℕ) (rest removal : List ℕ)
      → mem u rest ≡ true
      → same t u ≡ true
      → mem t (scan h (t ∷ rest) removal) ≡ false
      → mem u (scan h (t ∷ rest) removal) ≡ true
  unfolding scan
  scan_marks t u rest removal m s k = elim (Bool-cases (mem t removal)) [
    | inl e ↦ ground (arith, scan_mono t rest removal)
    | inr e ↦
        ground
          (arith, scan_mono u rest (mark_equal h t rest removal), mem-mark_equal t u rest removal)
  ]

  -- No two unmarked transitions of a scanned list have the same labels.
  pub scan_unique :
      (t u : ℕ) (ts removal : List ℕ)
      → mem t ts ≡ true
      → mem u ts ≡ true
      → mem t (scan h ts removal) ≡ false
      → mem u (scan h ts removal) ≡ false
      → same t u ≡ true
      → t ≡ u
  unfolding scan
  scan_unique t u [] removal mt mu kt ku s = cc
  scan_unique t u (x ∷ rest) removal mt mu kt ku s = ground (
    arith,
    scan_unique t u rest (if mem x removal then removal else mark_equal h x rest removal),
    scan_marks x u rest removal,
    scan_marks x t rest removal,
    same_labels_sym (h.trans t) (h.trans u) s,
  )

  -- Each unmarked transition of the list keeps a representative that the scan leaves unmarked.
  pub scan_cover :
      (t : ℕ) (ts removal : List ℕ)
      → IsNodup ts
      → mem t ts ≡ true
      → mem t removal ≡ false
      → (u : ℕ) × (mem u ts ≡ true) × (mem u (scan h ts removal) ≡ false) × (same t u ≡ true)
  unfolding scan
  scan_cover t [] removal n m k = cc
  scan_cover t (x ∷ rest) removal n m k =
      let next = if mem x removal then removal else mark_equal h x rest removal in
      elim (Bool-cases (not (mem x removal) && same x t)) [
        | inl e ↦ (
          x,
          ground arith,
          ground (
            arith,
            scan_frame x rest (mark_equal h x rest removal),
            mem-mark_equal x x rest removal,
          ),
          ground (arith, same_labels_sym (h.trans x) (h.trans t)),
        )
        | inr e ↦
            let (u, mu, ku, s) =
              scan_cover t rest next (ground arith) (ground (arith, same_labels_refl (h.trans t)))
                (ground (arith, mem-mark_equal x t rest removal)) in
            (u, ground arith, ku, s)
      ]

mark_equal-IsNodup :
    (h : Heap) (t : ℕ) (rest removal : List ℕ)
    → IsNodup removal
    → IsNodup (mark_equal h t rest removal)
unfolding mark_equal
mark_equal-IsNodup h t [] removal n = n
mark_equal-IsNodup h t (u ∷ rest) removal n =
    mark_equal-IsNodup h t rest
      (if same_labels (h.trans t) (h.trans u) then mark u removal else removal)
      (ground (arith, append-IsNodup u removal))

pub scan-IsNodup : (h : Heap) (ts removal : List ℕ) → IsNodup removal → IsNodup (scan h ts removal)
unfolding scan
scan-IsNodup h [] removal n = n
scan-IsNodup h (t ∷ rest) removal n =
    scan-IsNodup h rest (if mem t removal then removal else mark_equal h t rest removal)
      (ground (arith, mark_equal-IsNodup h t rest removal))
