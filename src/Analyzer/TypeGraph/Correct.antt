-- ===== src/Analyzer/TypeGraph/Correct.antt =====
-- The topological order of types is found exactly where the graph has no cycle.
use toph.Prelude.{
  keys, inl, inr, ok, panic, type_cycle, ◌+◌, ◌++◌, ◌<◌, ◌==◌, Bool-cases, IsNodup, List, [], ap,
  append-IsNodup, arith, erase, false, if◌then◌else◌, length, length-erase, length-le_of_subset,
  mem, mem-append, mem-erase_ne, refl, suc, sym, true, ℕ, ◌∙◌, ◌∷◌, ◌≡◌, ◌≤◌, mem-keys, subst, zero,
  ◌⊎◌,
}
use toph.Analyzer.TypeGraph.{
  TypeGraph, at, all_in, basic_types, update_topological_order, topological_order,
}
use toph.Analyzer.TypeGraph.Order.{IsRange, IsOrdered, IsStuck, order_rounds-ends}

-- The place of a type in a list.
unfoldable pub position : ℕ → List ℕ → ℕ
position t [] = 0
position t (u ∷ us) = if u == t then 0 else suc (position t us)

-- A rank that falls from a type to the types that it holds: there is no cycle.
abbrev pub IsRank : List (ℕ × List ℕ) → (ℕ → ℕ) → Type 0
IsRank m rank = (t u : ℕ) → mem u (at t m) ≡ true → rank u < rank t

-- The maps of a graph: dependees are types of the graph, and the basic types are in it and hold
-- nothing.
pub record IsClosed (m : List (ℕ × List ℕ)) : Type 0 where
  pub distinct : IsNodup (keys m)
  pub known : (t u : ℕ) → mem u (at t m) ≡ true → mem u (keys m) ≡ true
  pub basic_known : (t : ℕ) → mem t basic_types ≡ true → mem t (keys m) ≡ true
  pub basic_empty : (t : ℕ) → mem t basic_types ≡ true → at t m ≡ []

-- An order that lists each type of the graph once, behind the types that it holds.
pub record IsTopological (m : List (ℕ × List ℕ)) (ts : List ℕ) : Type 0 where
  pub distinct : IsNodup ts
  pub members : (t : ℕ) → mem t ts ≡ mem t (keys m)
  pub behind : (t u : ℕ) → mem u (at t m) ≡ true → position u ts < position t ts

mem-all_in : (u : ℕ) (ts us : List ℕ) → all_in ts us ≡ true → mem u us ≡ true → mem u ts ≡ true
mem-all_in u ts [] h e = cc
mem-all_in u ts (v ∷ us) h e = ground (arith, mem-all_in u ts us)

missing : (ts us : List ℕ) → all_in ts us ≡ false → (u : ℕ) × (mem u us ≡ true) × (mem u ts ≡ false)
missing ts [] h = cc
missing ts (v ∷ us) h = elim (Bool-cases (mem v ts)) [
  | inr p ↦ (v, ground arith, p)
  | inl p ↦ let (u, a, b) = missing ts us (ground (arith, h, p)) in (u, ground (arith, a), b)
]

position-append :
    (u : ℕ) (ts us : List ℕ)
    → position u (ts ++ us) ≡ (if mem u ts then position u ts else length ts + position u us)
unfolding position
position-append u [] us = omega arith
position-append u (t ∷ ts) us = ground (arith, position-append u ts us)

position-lt : (u : ℕ) (ts : List ℕ) → mem u ts ≡ true → position u ts < length ts
unfolding position
position-lt u [] h = ground arith
position-lt u (t ∷ ts) h = ground (arith, position-lt u ts)

-- A list inside another of at most its length holds all of it.
all-members :
    (xs ys : List ℕ)
    → IsNodup xs
    → ((a : ℕ) → mem a xs ≡ true → mem a ys ≡ true)
    → length ys ≤ length xs
    → (a : ℕ) → mem a xs ≡ mem a ys
all-members xs ys h s l a = elim (Bool-cases (mem a xs)) [
  | inl p ↦ p ∙ sym (s a p)
  | inr p ↦ elim (Bool-cases (mem a ys)) [
    | inr q ↦ p ∙ sym q
    | inl q ↦
        let shorter : length xs ≤ length (erase a ys) =
          length-le_of_subset xs (erase a ys) h
            (λ b m. mem-erase_ne b a ys (λ e. cc (ap (λ c. mem c xs) e)) ∙ s b m) in
        ground (arith, length-erase a ys q)
  ]
]

module _ (m : List (ℕ × List ℕ)) (w : IsClosed m) where
  IsOrdered-members :
      {ts : List ℕ}
      → IsOrdered m ts
      → IsNodup ts × ((t : ℕ) → mem t ts ≡ true → mem t (keys m) ≡ true)
  IsOrdered-members IsOrdered.basic = (refl, w.basic_known)
  IsOrdered-members (IsOrdered.next {ts} t o a k e) =
      let (d, s) = IsOrdered-members o in
      (append-IsNodup t ts d a, λ u p. ground (arith, s u, mem-append u ts (t ∷ []), k))

  IsOrdered-behind :
      {ts : List ℕ}
      → IsOrdered m ts
      → (t u : ℕ) → mem t ts ≡ true
      → mem u (at t m) ≡ true
      → (mem u ts ≡ true) × (position u ts < position t ts)
  unfolding position
  IsOrdered-behind IsOrdered.basic t u p q =
      ground (arith, w.basic_empty t p, ap (mem u) (w.basic_empty t p))
  IsOrdered-behind (IsOrdered.next {ts} v o a k e) t u p q = elim (Bool-cases (mem t ts)) [
    | inl b ↦
        let (c, l) = IsOrdered-behind o t u b q in
        ground (
          arith,
          b,
          c,
          l,
          mem-append u ts (v ∷ []),
          position-append u ts (v ∷ []),
          position-append t ts (v ∷ []),
        )
    | inr b ↦
        let same : v ≡ t = ground (arith, p, b, mem-append t ts (v ∷ [])) in
        let c : mem u ts ≡ true =
          mem-all_in u ts (at v m) e (subst (λ x. mem u (at x m) ≡ true) (sym same) q) in
        ground (
          arith,
          same,
          b,
          c,
          mem-append u ts (v ∷ []),
          position-append u ts (v ∷ []),
          position-append t ts (v ∷ []),
          position-lt u ts,
        )
  ]

  -- Types of lower rank than a bound stand in a list that no round can extend.
  stuck-members :
      (rank : ℕ → ℕ) (ts : List ℕ)
      → IsRank m rank
      → IsStuck m ts
      → (k t : ℕ) → rank t < k
      → mem t (keys m) ≡ true
      → mem t ts ≡ true
  stuck-members rank ts r s zero t l p = elim l [ ]
  stuck-members rank ts r s (suc k) t l p = elim (Bool-cases (mem t ts)) [
    | inl q ↦ q
    | inr q ↦
        let (u, a, b) = missing ts (at t m) (s.blocked t p q) in
        let held = stuck-members rank ts r s k u (omega (arith, l, r t u a)) (w.known t u a) in cc
  ]

  length-keys : (n : List (ℕ × List ℕ)) → length (keys n) ≡ length n
  length-keys [] = refl
  length-keys ((t, us) ∷ n) = ap suc (length-keys n)

  IsStuck-cyclic : (rank : ℕ → ℕ) (ts : List ℕ) → IsRank m rank → ¬ (IsStuck m ts)
  IsStuck-cyclic rank ts r s =
      let l =
        length-le_of_subset (keys m) ts w.distinct
          (λ t p. stuck-members rank ts r s (suc (rank t)) t (omega arith) p) in
      omega (arith, l, s.short, length-keys m)

  IsOrdered-IsTopological :
      (ts : List ℕ) → IsOrdered m ts → length m ≤ length ts → IsTopological m ts
  IsOrdered-IsTopological ts o l =
      let (d, s) = IsOrdered-members o in
      let all = all-members ts (keys m) d s (omega (arith, l, length-keys m)) in
      record {
        distinct = d;
        members = all;
        behind = λ t u e.
            let held : mem t (keys m) ≡ true = ground (arith, mem-keys t m, e) in
            (IsOrdered-behind o t u (all t ∙ held) e).1;
      }

-- The maps are closed, and an order that is kept is a topological one.
pub record IsValid (g : TypeGraph) : Type 0 where
  pub closed : IsClosed g.dependees
  pub kept : g.topological_order_ok ≡ true → IsTopological g.dependees g.topological_order

-- On a graph whose types hold types of the graph only, and whose basic types are in it and hold
-- nothing, and whatever the order in which each round yields the map, the topological order is either
-- found or the code panics, and never runs on. An order that it gives lists each type once, behind
-- the types that it holds, and is kept. It panics only on a graph with a cycle: one for which no
-- rank falls along all its edges.
pub topological_order_lem :
    (range : ℕ → List (ℕ × List ℕ)) (g : TypeGraph)
    → IsValid g
    → ((n : ℕ) → IsRange g.dependees (range n))
    → ((ts : List ℕ) × (h : TypeGraph) × (topological_order range g ≡ ok (ts, h))
        × IsTopological g.dependees ts
        × IsValid h
        × (h.dependees ≡ g.dependees))
      ⊎ ((topological_order range g ≡ panic type_cycle)
          × ((rank : ℕ → ℕ) → ¬ (IsRank g.dependees rank)))
unfolding topological_order update_topological_order
topological_order_lem range g w r = elim (Bool-cases g.topological_order_ok) [
  | inl p ↦ inl (g.topological_order, g, rw p refl, w.kept p, w, refl)
  | inr p ↦
      elim (order_rounds-ends g.dependees range (suc (length g.dependees)) 0 basic_types r
        IsOrdered.basic (omega arith) (omega arith)) [
          | inl (ts, e, o, l) ↦
              let good = IsOrdered-IsTopological g.dependees w.closed ts o l in
              inl (
                ts,
                record g { topological_order_ok = true; topological_order = ts },
                rw (p, e) refl,
                good,
                record { closed = w.closed; kept = λ _. good },
                refl,
              )
          | inr (e, ts, s) ↦
              inr (rw (p, e) refl, λ rank k. IsStuck-cyclic g.dependees w.closed rank ts k s)
        ]
]
