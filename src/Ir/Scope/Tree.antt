-- ===== src/Ir/Scope/Tree.antt =====
-- The tree of scopes: `IsParentOf` is the closure of the parent relation, which stays a tree.
use mathlib.Core.Option.{some-injective}
use toph.Prelude.{
  ok, panic, inl, inr, ◌+◌, ◌<◌, ◌==◌, Bool-cases, Option, ap, arith, false, none, refl, some, suc,
  true, zero, ℕ, ◌∙◌, ◌≡◌, ◌⊎◌, ◌++◌, IsNodup, [], append-IsNodup, mem, mem-append, subst, sym, ◌∷◌,
}
use toph.Ir.Scope.{
  Store, declare_in, add_variable, is_parent_of, nil_variable, variable_added_twice,
}

-- Scope `s` is above scope `t`.
pub data IsAbove (g : Store) (s : ℕ) : ℕ → Type 0 where
  parent : (t : ℕ) → g.parent t ≡ some s → IsAbove g s t
  further : (t p : ℕ) → g.parent t ≡ some p → IsAbove g s p → IsAbove g s t

-- A depth that grows from a scope to its children: there is no cycle.
abbrev pub IsDepth : Store → (ℕ → ℕ) → Type 0
IsDepth g depth = (t p : ℕ) → g.parent t ≡ some p → depth p < depth t

IsAbove-cases :
    {g : Store} {s t : ℕ}
    → IsAbove g s t
    → (g.parent t ≡ some s) ⊎ ((p : ℕ) × (g.parent t ≡ some p) × IsAbove g s p)
IsAbove-cases (IsAbove.parent t e) = inl e
IsAbove-cases (IsAbove.further t p e a) = inr (p, e, a)

parent_cases : (o : Option ℕ) → (o ≡ none) ⊎ ((p : ℕ) × (o ≡ some p))
parent_cases none = inl refl
parent_cases (some p) = inr (p, refl)

no_scope : (fuel : ℕ) (g : Store) (s : ℕ) → 0 < fuel → is_parent_of fuel g s none ≡ ok false
unfolding is_parent_of
no_scope zero g s l = elim l [ ]
no_scope (suc fuel) g s l = refl

-- In stores without cycles `IsParentOf` ends, within two rounds more than the depth of the scope,
-- and tells whether the one scope is above the other.
pub is_parent_of_lem :
    (fuel : ℕ) (g : Store) (depth : ℕ → ℕ) (s t : ℕ)
    → IsDepth g depth
    → depth t + 1 < fuel
    → ((is_parent_of fuel g s (some t) ≡ ok true) × IsAbove g s t)
      ⊎ ((is_parent_of fuel g s (some t) ≡ ok false) × ¬ (IsAbove g s t))
unfolding is_parent_of
is_parent_of_lem zero g depth s t d l = elim l [ ]
is_parent_of_lem (suc fuel) g depth s t d l = elim (parent_cases (g.parent t)) [
  | inl e ↦ inr (
    rw e (no_scope fuel g s (omega (arith, l))),
    λ a. elim (IsAbove-cases a) [ inl q ↦ cc | inr (p, q, _) ↦ cc ],
  )
  | inr (p, e) ↦ elim (Bool-cases (p == s)) [
    | inl q ↦ inl (rw (e, q) refl, IsAbove.parent t (e ∙ ap some (ground (arith, q))))
    | inr q ↦ elim (is_parent_of_lem fuel g depth s p d (omega (arith, l, d t p e))) [
      | inl (r, a) ↦ inl (rw (e, q) r, IsAbove.further t p e a)
      | inr (r, n) ↦ inr (
        rw (e, q) r,
        λ a. elim (IsAbove-cases a) [
          | inl k ↦ ground (arith, e, k, q)
          | inr (p', k, b) ↦ n (subst (IsAbove g s) (some-injective p' p (sym k ∙ e)) b)
        ],
      )
    ]
  ]
]

-- A parent knows its children and a scope its variables.
pub record IsTree (g : Store) : Type 0 where
  pub depth : ℕ → ℕ
  pub deeper : IsDepth g depth
  pub child : (t p : ℕ) → g.parent t ≡ some p → mem t (g.children p) ≡ true
  pub child_of : (t p : ℕ) → mem t (g.children p) ≡ true → g.parent t ≡ some p
  pub variable : (v s : ℕ) → g.scope_of v ≡ some s → mem v (g.variables s) ≡ true
  pub variable_of : (v s : ℕ) → mem v (g.variables s) ≡ true → g.scope_of v ≡ some s
  pub once : (s : ℕ) → IsNodup (g.variables s)

declare_in-IsTree :
    (s v : ℕ) (g : Store) → IsTree g → g.scope_of v ≡ none → IsTree (declare_in s v g)
declare_in-IsTree s v g w free = record {
  depth = w.depth;
  deeper = w.deeper;
  child = w.child;
  child_of = w.child_of;
  variable = λ x p e. ground (arith, e, w.variable x p, mem-append x (g.variables s) (v ∷ []));
  variable_of = λ x p m.
      ground (
        arith,
        m,
        w.variable_of x p,
        w.variable_of x s,
        free,
        mem-append x (g.variables s) (v ∷ []),
      );
  once = λ x.
      ground
        (arith, w.once x, append-IsNodup v (g.variables s) (w.once s), w.variable_of v s, free);
}

-- In a tree of scopes, adding nil or a variable that has a scope panics. Any other variable is added
-- behind the variables of the scope, which is the scope of it alone, and the scopes stay a tree.
pub add_variable-IsTree :
    (s v : ℕ) (g : Store)
    → IsTree g
    → (add_variable s none g ≡ panic nil_variable)
      × ((p : ℕ) → g.scope_of v ≡ some p → add_variable s (some v) g ≡ panic variable_added_twice)
      × (g.scope_of v ≡ none
          → (h : Store) × (add_variable s (some v) g ≡ ok h)
            × IsTree h
            × (h.variables s ≡ g.variables s ++ v ∷ [])
            × ((x : ℕ) → mem v (h.variables x) ≡ (s == x)))
unfolding add_variable
add_variable-IsTree s v g w = (
  refl,
  λ p e. ground (arith, e),
  λ e. (
    declare_in s v g,
    ground (arith, e),
    declare_in-IsTree s v g w e,
    ground arith,
    λ x. ground (arith, e, w.variable_of v x, mem-append v (g.variables s) (v ∷ [])),
  ),
)
