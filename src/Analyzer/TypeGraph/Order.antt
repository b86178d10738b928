-- ===== src/Analyzer/TypeGraph/Order.antt =====
-- The topological order of types: it is found exactly where the graph has no cycle.
use toph.Prelude.{
  type_cycle, panic, inl, inr, ok, ◌++◌, All, List, [], arith, false, find, length, length-append,
  mem, mem-keys, some, suc, true, ℕ, ◌∷◌, ◌≡◌, ◌≤◌, Bool-cases, keys, ◌+◌, ◌<◌, ◌==◌, ltb, refl,
  zero, ◌⊎◌,
}
use toph.Analyzer.TypeGraph.{order_rounds, at, all_in, basic_types, add_candidates}

-- The entries that a loop over a map yields, in some order.
pub record IsRange (m r : List (ℕ × List ℕ)) : Type 0 where
  pub sound : All (λ e. find e.0 m ≡ some e.1) r
  pub complete : (t : ℕ) → mem t (keys m) ≡ true → mem t (keys r) ≡ true

-- Lists that grow by one type, all of whose dependees they hold.
pub data IsOrdered (m : List (ℕ × List ℕ)) : List ℕ → Type 0 where
  basic : IsOrdered m basic_types
  next :
      {ts : List ℕ} (t : ℕ)
      → IsOrdered m ts
      → mem t ts ≡ false
      → mem t (keys m) ≡ true
      → all_in ts (at t m) ≡ true
      → IsOrdered m (ts ++ t ∷ [])

module _ (m : List (ℕ × List ℕ)) where
  add_candidates-IsOrdered :
      (r : List (ℕ × List ℕ)) (order : List ℕ)
      → All (λ e. find e.0 m ≡ some e.1) r
      → IsOrdered m order
      → IsOrdered m (add_candidates r order)
  unfolding add_candidates
  add_candidates-IsOrdered [] order h o = o
  add_candidates-IsOrdered ((t, us) ∷ r) order (e, h) o = elim (Bool-cases (mem t order)) [
    | inl p ↦ rw p (add_candidates-IsOrdered r order h o)
    | inr p ↦ elim (Bool-cases (all_in order us)) [
      | inl q ↦
          rw (p, q)
            (add_candidates-IsOrdered r (order ++ t ∷ []) h
              (next t o p (ground (arith, mem-keys t m)) (ground arith)))
      | inr q ↦ rw (p, q) (add_candidates-IsOrdered r order h o)
    ]
  ]

  length-add_candidates :
      (r : List (ℕ × List ℕ)) (order : List ℕ) → length order ≤ length (add_candidates r order)
  unfolding add_candidates
  length-add_candidates [] order = omega arith
  length-add_candidates ((t, us) ∷ r) order = ground (
    arith,
    length-add_candidates r order,
    length-add_candidates r (order ++ t ∷ []),
    length-append order (t ∷ []),
  )

  -- A round that adds nothing found every type that is missing to have a missing dependee.
  add_candidates-stuck :
      (r : List (ℕ × List ℕ)) (order : List ℕ)
      → length (add_candidates r order) ≡ length order
      → All (λ e. mem e.0 order ≡ false → all_in order e.1 ≡ false) r
  unfolding add_candidates
  add_candidates-stuck [] order h = tt
  add_candidates-stuck ((t, us) ∷ r) order h =
      let grown : suc (length order) ≤ length (add_candidates r (order ++ t ∷ [])) =
        omega (arith, length-add_candidates r (order ++ t ∷ []), length-append order (t ∷ [])) in
      (λ p. ground (arith), add_candidates-stuck r order (ground (arith)))

  -- An order that no round can extend, although types are missing.
  pub record IsStuck (order : List ℕ) : Type 0 where
    pub short : length order < length m
    pub blocked :
        (t : ℕ) → mem t (keys m) ≡ true → mem t order ≡ false → all_in order (at t m) ≡ false

  blocked-entry :
      (r : List (ℕ × List ℕ)) (order : List ℕ) (t : ℕ)
      → All (λ e. find e.0 m ≡ some e.1) r
      → All (λ e. mem e.0 order ≡ false → all_in order e.1 ≡ false) r
      → mem t (keys r) ≡ true
      → mem t order ≡ false
      → all_in order (at t m) ≡ false
  blocked-entry [] order t h s k p = cc
  blocked-entry ((u, us) ∷ r) order t (e, h) (f, s) k p =
      ground (arith, blocked-entry r order t h s, f)

  -- With enough fuel the rounds end with a full order, or with one that is stuck.
  pub order_rounds-ends :
      (range : ℕ → List (ℕ × List ℕ)) (fuel n : ℕ) (order : List ℕ)
      → ((k : ℕ) → IsRange m (range k))
      → IsOrdered m order
      → length m < length order + fuel
      → 0 < fuel
      → ((ts : List ℕ) × (order_rounds range (length m) fuel n order ≡ ok ts)
          × IsOrdered m ts
          × (length m ≤ length ts))
        ⊎ ((order_rounds range (length m) fuel n order ≡ panic type_cycle)
            × (ts : List ℕ) × IsStuck ts)
  unfolding order_rounds
  order_rounds-ends range zero n order w o f g = elim g [ ]
  order_rounds-ends range (suc fuel) n order w o f g =
      elim (Bool-cases (ltb (length order) (length m))) [
        | inr p ↦ inl (order, rw p refl, o, ground (arith, p))
        | inl p ↦ elim (Bool-cases (length (add_candidates (range n) order) == length order)) [
          | inl q ↦ inr (
            rw (p, q) refl,
            order,
            record {
              short = ground (arith, p);
              blocked = λ t k a.
                  blocked-entry (range n) order t (w n).sound
                    (add_candidates-stuck (range n) order (ground (arith, q))) ((w n).complete t k)
                    a;
            },
          )
          | inr q ↦
              let ih =
                order_rounds-ends range fuel (suc n) (add_candidates (range n) order) w
                  (add_candidates-IsOrdered (range n) order (w n).sound o)
                  (ground (arith, q, f, length-add_candidates (range n) order))
                  (ground (arith, p, f)) in
              rw (p, q) ih
        ]
      ]
