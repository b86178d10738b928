-- ===== src/Optimizer/Transitions/Groups.antt =====
-- What a scan of all lists of a double map marks.
use toph.Uppaal.Process.Groups.{all_of, mates, lists, groups, append-nodup, append-disjoint}
use toph.Prelude.{
  mem-append, is_nodup, Bool-cases, ◌++◌, List, [], ap, arith, false, inl, inr, refl, sym, true, ℕ,
  ◌∙◌, ◌∷◌, ◌≡◌, IsNodup,
}
use toph.Uppaal.Objects.{Heap}
use toph.Optimizer.Transitions.{scan, scan_ends, scan_starts, mem}
use toph.Optimizer.Transitions.Scan.{same, scan_frame, scan_unique, scan_cover, scan-IsNodup}

module _ (h : Heap) where
  pub scan_all : List (List ℕ) → List ℕ → List ℕ
  scan_all [] removal = removal
  scan_all (ts ∷ gs) removal = scan_all gs (scan h ts removal)

  scan_all-append :
      (gs fs : List (List ℕ)) (removal : List ℕ)
      → scan_all (gs ++ fs) removal ≡ scan_all fs (scan_all gs removal)
  unfolding scan_all
  scan_all-append [] fs removal = refl
  scan_all-append (ts ∷ gs) fs removal = scan_all-append gs fs (scan h ts removal)

  scan_ends-lists :
      (ends : List (ℕ × List ℕ)) (removal : List ℕ)
      → scan_ends h ends removal ≡ scan_all (lists ends) removal
  unfolding scan_all scan_ends
  scan_ends-lists [] removal = refl
  scan_ends-lists ((_, ts) ∷ ends) removal = scan_ends-lists ends (scan h ts removal)

  pub scan_starts-groups :
      (m : List (ℕ × List (ℕ × List ℕ))) (removal : List ℕ)
      → scan_starts h m removal ≡ scan_all (groups m) removal
  unfolding scan_all scan_starts
  scan_starts-groups [] removal = refl
  scan_starts-groups ((_, ends) ∷ m) removal =
      scan_starts-groups m (scan_ends h ends removal)
      ∙ ap (scan_all (groups m)) (scan_ends-lists ends removal)
      ∙ sym (scan_all-append (lists ends) (groups m) removal)

  pub scan_all_frame :
      (x : ℕ) (gs : List (List ℕ)) (removal : List ℕ)
      → mem x (all_of gs) ≡ false
      → mem x (scan_all gs removal) ≡ mem x removal
  unfolding scan_all
  scan_all_frame x [] removal m = refl
  scan_all_frame x (ts ∷ gs) removal m = ground (
    arith,
    mem-append x ts (all_of gs),
    scan_all_frame x gs (scan h ts removal),
    scan_frame h x ts removal,
  )

  pub scan_all_unique :
      (t u : ℕ) (gs : List (List ℕ)) (removal : List ℕ)
      → is_nodup (all_of gs) ≡ true
      → mates gs t u ≡ true
      → mem t (scan_all gs removal) ≡ false
      → mem u (scan_all gs removal) ≡ false
      → same h t u ≡ true
      → t ≡ u
  unfolding scan_all
  scan_all_unique t u [] removal n m kt ku s = cc
  scan_all_unique t u (ts ∷ gs) removal n m kt ku s = ground (
    arith,
    append-nodup ts (all_of gs) n,
    append-disjoint ts (all_of gs) t n,
    append-disjoint ts (all_of gs) u n,
    scan_all_frame t gs (scan h ts removal),
    scan_all_frame u gs (scan h ts removal),
    scan_unique h t u ts removal,
    scan_all_unique t u gs (scan h ts removal),
  )

  pub scan_all_cover :
      (t : ℕ) (gs : List (List ℕ)) (removal : List ℕ)
      → is_nodup (all_of gs) ≡ true
      → mem t (all_of gs) ≡ true
      → mem t removal ≡ false
      → (u : ℕ) × (mates gs t u ≡ true)
        × (mem u (scan_all gs removal) ≡ false)
        × (same h t u ≡ true)
  unfolding scan_all
  scan_all_cover t [] removal n m k = cc
  scan_all_cover t (ts ∷ gs) removal n m k = elim (Bool-cases (mem t ts)) [
    | inl e ↦
        let (u, mu, ku, s) = scan_cover h t ts removal (append-nodup ts (all_of gs) n).0 e k in
        (
          u,
          ground arith,
          ground
              (arith, scan_all_frame u gs (scan h ts removal), append-disjoint ts (all_of gs) u n),
          s,
        )
    | inr e ↦
        let (u, mu, ku, s) =
          scan_all_cover t gs (scan h ts removal) (append-nodup ts (all_of gs) n).1
            (ground (arith, mem-append t ts (all_of gs)))
            (ground (arith, scan_frame h t ts removal)) in
        (u, ground arith, ku, s)
  ]

pub scan_all-IsNodup :
    (h : Heap) (gs : List (List ℕ)) (removal : List ℕ)
    → IsNodup removal
    → IsNodup (scan_all h gs removal)
unfolding scan_all
scan_all-IsNodup h [] removal n = n
scan_all-IsNodup h (ts ∷ gs) removal n =
    scan_all-IsNodup h gs (scan h ts removal) (scan-IsNodup h ts removal n)
