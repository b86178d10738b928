-- ===== src/Ir/Scope.antt =====
-- ir/scope.go: scopes with their variables, in a tree. Scopes and variables are pointers into a
-- store.
pub mod Tree
use toph.Prelude.{
  Result, ok, panic, scope_added_twice, nil_variable, variable_added_twice, out_of_fuel, ◌++◌, ◌==◌,
  Bool, List, Option, [], false, if◌then◌else◌, is_some, none, some, suc, true, zero, ℕ, ◌∷◌,
}

pub record Store : Type 0 where
  pub parent : ℕ → Option ℕ
  pub children : ℕ → List ℕ
  pub variables : ℕ → List ℕ
  pub scope_of : ℕ → Option ℕ

abbrev put_at : {A : Type 0} → ℕ → A → (ℕ → A) → ℕ → A
put_at k v f j = if k == j then v else f j

abbrev pub attach : ℕ → ℕ → Store → Store
attach s t g = record g {
  children = put_at s (g.children s ++ t ∷ []) g.children;
  parent = put_at t (some s) g.parent;
}

unfoldable pub add_child : ℕ → ℕ → Store → Result Store
add_child s t g = if is_some (g.parent t) then panic scope_added_twice else ok (attach s t g)

abbrev pub declare_in : ℕ → ℕ → Store → Store
declare_in s v g = record g {
  variables = put_at s (g.variables s ++ v ∷ []) g.variables;
  scope_of = put_at v (some s) g.scope_of;
}

unfoldable pub add_variable : ℕ → Option ℕ → Store → Result Store
add_variable s none g = panic nil_variable
add_variable s (some v) g =
    if is_some (g.scope_of v) then panic variable_added_twice else ok (declare_in s v g)

abbrev pub is_scope : ℕ → Option ℕ → Bool
is_scope s none = false
is_scope s (some p) = p == s

-- The loop of `IsParentOf`, on fuel.
unfoldable pub is_parent_of : ℕ → Store → ℕ → Option ℕ → Result Bool
is_parent_of zero g s t = panic out_of_fuel
is_parent_of (suc fuel) g s none = ok false
is_parent_of (suc fuel) g s (some t) =
    let rest = is_parent_of fuel g s (g.parent t) in
    if is_scope s (g.parent t) then ok true else rest
