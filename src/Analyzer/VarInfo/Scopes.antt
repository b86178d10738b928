-- ===== src/Analyzer/VarInfo/Scopes.antt =====
-- The search for the variables of a program, scope by scope.
use toph.Prelude.{
  Result, ok, panic, out_of_fuel, ◌+◌, ◌++◌, ◌<◌, >>=-Always, Always, Bool, List, Option, [], arith,
  none, refl, some, suc, zero, ℕ, ◌∷◌, ◌≡◌, ◌≢◌, ◌==◌, ◌>>=◌, ap, false, if◌then◌else◌, sym, true,
}
use toph.Ir.Types.{IrType}
use toph.Ir.Values.{variable_type}
use toph.Ir.Program.{Program}
use toph.Analyzer.CallsInfo.{Counters, read_count}
use toph.Analyzer.VarInfo.{
  VarInfo, known_variable, note_typed, note_variables, note_scopes, new_var_info, total_uses,
}

-- No variable has been used.
abbrev pub IsUnused : VarInfo → Type 0
IsUnused i =
    (v : ℕ)
    → (total_uses v i ≡ 0)
      × ((m : Counters ℕ) → i.var_uses v ≡ some m → (f : ℕ) → read_count f m ≡ 0)

pub new-IsUnused : (p : Program) → IsUnused (new_var_info p)
new-IsUnused p v = (refl, λ m e. absurd (none≢some m e))
  where
    none≢some : (m : Counters ℕ) → none ≢ some m
    none≢some m e = cc

abbrev count_in : ℕ → Option (Counters ℕ) → ℕ
count_in f none = 0
count_in f (some m) = read_count f m

-- The map of a variable, which is new where `b` holds.
empty_or :
    (b : Bool) (o : Option (Counters ℕ)) (m : Counters ℕ)
    → ((m : Counters ℕ) → o ≡ some m → (f : ℕ) → read_count f m ≡ 0)
    → (if b then some (λ _. none) else o) ≡ some m
    → (f : ℕ) → read_count f m ≡ 0
empty_or true o m h e f = sym (ap (count_in f) e)
empty_or false o m h e f = h m e f

module _ (p : Program) where
  known_variable-IsUnused :
      (v : ℕ) (t : IrType) (vs : Option (ℕ → Bool)) (i : VarInfo)
      → IsUnused i
      → Always IsUnused (known_variable p v t vs i)
  known_variable-IsUnused v t none i h = record {}
  known_variable-IsUnused v t (some vs) i h =
      λ w. ((h w).0, λ m e. empty_or (v == w) (i.var_uses w) m (h w).1 e)

  note_typed-IsUnused :
      (v : ℕ) (t : Option IrType) (i : VarInfo) → IsUnused i → Always IsUnused (note_typed p v t i)
  note_typed-IsUnused v none i h = record {}
  note_typed-IsUnused v (some t) i h = known_variable-IsUnused v t (i.type_uses_in_vars t) i h

  note_variables-IsUnused :
      (vs : List ℕ) (i : VarInfo) → IsUnused i → Always IsUnused (note_variables p vs i)
  unfolding note_variables
  note_variables-IsUnused [] i h = h
  note_variables-IsUnused (v ∷ vs) i h =
      >>=-Always IsUnused IsUnused (note_typed p v (variable_type (p.variable_at v)) i)
        (note_variables p vs) (note_typed-IsUnused v (variable_type (p.variable_at v)) i h)
        (note_variables-IsUnused vs)

  pub note_scopes-IsUnused :
      (fuel : ℕ) (queue : List ℕ) (i : VarInfo)
      → IsUnused i
      → Always IsUnused (note_scopes p fuel queue i)
  unfolding note_scopes
  note_scopes-IsUnused zero queue i h = record {}
  note_scopes-IsUnused (suc fuel) [] i h = h
  note_scopes-IsUnused (suc fuel) (s ∷ queue) i h =
      >>=-Always IsUnused IsUnused (note_variables p (p.scopes.variables s) i)
        (note_scopes p fuel (queue ++ p.scopes.children s))
        (note_variables-IsUnused (p.scopes.variables s) i h)
        (note_scopes-IsUnused fuel (queue ++ p.scopes.children s))

  -- The sum of the weights of some scopes.
  abbrev weight : (ℕ → ℕ) → List ℕ → ℕ
  weight size [] = 0
  weight size (s ∷ ss) = size s + weight size ss

  weight-append :
      (size : ℕ → ℕ) (xs ys : List ℕ) → weight size (xs ++ ys) ≡ weight size xs + weight size ys
  weight-append size [] ys = omega arith
  weight-append size (x ∷ xs) ys = let rest = weight-append size xs ys in omega arith

  -- A size of the scopes that counts a scope with all scopes in it: the scopes are a tree.
  abbrev pub IsSize : (ℕ → ℕ) → Type 0
  IsSize size = (s : ℕ) → weight size (p.scopes.children s) < size s

  bind-terminates :
      (m : Result VarInfo) (f : VarInfo → Result VarInfo)
      → m ≢ panic out_of_fuel
      → ((i : VarInfo) → f i ≢ panic out_of_fuel)
      → (m >>= f) ≢ panic out_of_fuel
  bind-terminates (panic e) f h k = h
  bind-terminates (ok i) f h k = k i

  note_typed-terminates :
      (v : ℕ) (t : Option IrType) (i : VarInfo) → note_typed p v t i ≢ panic out_of_fuel
  note_typed-terminates v none i = λ h. cc
  note_typed-terminates v (some t) i = known (i.type_uses_in_vars t)
    where
      known : (vs : Option (ℕ → Bool)) → known_variable p v t vs i ≢ panic out_of_fuel
      known none h = cc
      known (some vs) h = cc

  note_variables-terminates :
      (vs : List ℕ) (i : VarInfo) → note_variables p vs i ≢ panic out_of_fuel
  unfolding note_variables
  note_variables-terminates [] i = λ h. cc
  note_variables-terminates (v ∷ vs) i =
      bind-terminates (note_typed p v (variable_type (p.variable_at v)) i) (note_variables p vs)
        (note_typed-terminates v (variable_type (p.variable_at v)) i) (note_variables-terminates vs)

  -- With fuel above the sizes of the scopes in the queue, the search does not run out of fuel.
  pub note_scopes-terminates :
      (size : ℕ → ℕ) (fuel : ℕ) (queue : List ℕ) (i : VarInfo)
      → IsSize size
      → weight size queue < fuel
      → note_scopes p fuel queue i ≢ panic out_of_fuel
  unfolding note_scopes
  note_scopes-terminates size zero queue i w h = absurd (omega arith)
  note_scopes-terminates size (suc fuel) [] i w h = λ e. cc
  note_scopes-terminates size (suc fuel) (s ∷ queue) i w h =
      bind-terminates (note_variables p (p.scopes.variables s) i)
        (note_scopes p fuel (queue ++ p.scopes.children s))
        (note_variables-terminates (p.scopes.variables s) i)
        (λ j. note_scopes-terminates size fuel (queue ++ p.scopes.children s) j w (
          let fall = w s in
          let both = weight-append size queue (p.scopes.children s) in omega arith))
