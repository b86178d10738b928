-- ===== src/Examples/Scopes.antt =====
-- Runs on a store without scopes, and on a scope in another one.
use toph.Ir.Scope.Tree.{add_variable-IsTree, is_parent_of_lem}
use toph.Prelude.{
  ok, panic, nil_variable, variable_added_twice, ◌++◌, ◌==◌, [], arith, false, mem, none, refl,
  some, true, ℕ, ◌∷◌, ◌≡◌, ◌⊎◌,
}
use toph.Ir.Scope.{Store, attach, add_variable, is_parent_of}
use toph.Ir.Scope.Tree.{IsTree, IsAbove}

abbrev no_scopes : Store
no_scopes = record {
  parent = λ _. none;
  children = λ _. [];
  variables = λ _. [];
  scope_of = λ _. none;
}

no_scopes-IsTree : IsTree no_scopes
no_scopes-IsTree = record {
  depth = λ x. x;
  deeper = λ t p h. cc;
  child = λ t p h. cc;
  child_of = λ t p h. cc;
  variable = λ v s h. cc;
  variable_of = λ v s h. cc;
  once = λ s. refl;
}

add_variable-IsTree_example :
    (add_variable 0 none no_scopes ≡ panic nil_variable)
    × ((p : ℕ)
        → no_scopes.scope_of 3 ≡ some p
        → add_variable 0 (some 3) no_scopes ≡ panic variable_added_twice)
    × (no_scopes.scope_of 3 ≡ none
        → (h : Store) × (add_variable 0 (some 3) no_scopes ≡ ok h)
          × IsTree h
          × (h.variables 0 ≡ no_scopes.variables 0 ++ 3 ∷ [])
          × ((x : ℕ) → mem 3 (h.variables x) ≡ (0 == x)))
add_variable-IsTree_example = add_variable-IsTree 0 3 no_scopes no_scopes-IsTree

is_parent_of_lem_example :
    ((is_parent_of 3 (attach 0 1 no_scopes) 0 (some 1) ≡ ok true)
      × IsAbove (attach 0 1 no_scopes) 0 1)
    ⊎ ((is_parent_of 3 (attach 0 1 no_scopes) 0 (some 1) ≡ ok false)
        × ¬ (IsAbove (attach 0 1 no_scopes) 0 1))
is_parent_of_lem_example =
    is_parent_of_lem 3 (attach 0 1 no_scopes) (λ x. x) 0 1 (λ t p h. ground (arith, h))
      (omega arith)
