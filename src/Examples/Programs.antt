-- ===== src/Examples/Programs.antt =====
-- Runs on programs of up to two functions.
use toph.Prelude.{
  Result, ok, panic, lit, scope_added_twice, init_removed, ◌==◌, [], arith, false, if◌then◌else◌,
  is_some, mem, none, refl, true, ◌∷◌, ◌≡◌, ◌≢◌, ◌⊎◌, out_of_fuel, List, some, ℕ, ◌&&◌, some_of,
  ◌||◌,
}
use toph.Ir.Types.{basic, int_type, make_value, Types, array}
use toph.Ir.Values.{Variable, variable, held, new_variable}
use toph.Ir.Stmts.{body, assign, next, end, return_stmt, CallStmt, call, static, call_kind}
use toph.Ir.Scope.{Store}
use toph.Ir.Program.{
  Func, Program, new_outer_func, insert_func, add_outer_func, empty_program, remove_funcs,
}
use toph.Ir.Program.Lookup.{IsConsistent, Remaining, remove_funcs-IsConsistent}
use toph.Ir.Program.Adding.{FuncAdded, insert_func-IsConsistent, add_outer_func-IsConsistent}
use toph.Analyzer.VarInfo.{VarInfo, find_var_info, note_scopes, new_var_info}
use toph.Analyzer.VarInfo.Scopes.{note_scopes-terminates}
use toph.Analyzer.CallGraph.{
  CallGraph, contains_edge, new_func_call_graph, add_func, write_call, set_at,
}
use toph.Analyzer.CallGraphBuilder.{add_funcs_to_graph, add_calls_to_graph}
use toph.Analyzer.CallGraphBuilder.Callees.{calls}
use toph.Analyzer.CallGraphBuilder.Funcs.{add_calls_to_graph_lem}
use toph.Analyzer.CallGraph.Dynamic
use toph.Analyzer.CallGraph.Dynamic.{is_known}
use toph.Ir.Types.{Signature}
use toph.Ir.Walk.{walk_stmts}
use toph.Analyzer.Panics.{analyze_panics}
use toph.Analyzer.Panics.Closed.{IsOrdered, analyze_panics_lem}
use toph.Analyzer.VarInfo.Totals.{IsTotalled, find_var_info-IsTotalled}

abbrev one_scope : Store
one_scope = record {
  parent = λ _. none;
  children = λ _. [];
  variables = λ s. if s == 0 then 3 ∷ [] else [];
  scope_of = λ _. none;
}

abbrev no_types : Types
no_types = record {
  structs = λ s. record { index = s; name = []; fields = [] };
  containers = λ c. record {
    index = c;
    kind = array;
    length = 0;
    element_type = basic int_type;
    holds_pointers = false;
  };
}

abbrev number_variable : Variable
number_variable = new_variable 0 (lit "x") (make_value 0 (basic int_type))

abbrev a_func : Func
a_func = new_outer_func 0 (lit "f") none 1

-- The function assigns a variable to itself.
abbrev assigning : Func
assigning = record a_func {
  body_of = body 1 (next (assign (held (variable 3)) (variable 3) false) end);
}

abbrev no_funcs : Program
no_funcs = empty_program 0 (λ _. a_func) (λ _. number_variable) no_types one_scope

abbrev one_func : Program
one_func = insert_func 4 assigning one_scope no_funcs

no_funcs-IsConsistent : IsConsistent no_funcs
no_funcs-IsConsistent = record {
  distinct = refl;
  complete = λ f m. cc;
  sound = λ i f h. cc;
  below = λ i f h. cc;
}

one_func-IsConsistent : IsConsistent one_func
one_func-IsConsistent =
    insert_func-IsConsistent 4 assigning one_scope no_funcs no_funcs-IsConsistent refl refl
      (omega arith)

add_outer_func-IsConsistent_example :
    ((is_some (one_func.scopes.parent 2) ≡ true)
      × (add_outer_func 5 2 (lit "g") none one_func ≡ panic scope_added_twice))
    ⊎ ((is_some (one_func.scopes.parent 2) ≡ false)
        × ((q : Program) × (add_outer_func 5 2 (lit "g") none one_func ≡ ok q)
            × FuncAdded 5 one_func q))
add_outer_func-IsConsistent_example =
    add_outer_func-IsConsistent 5 2 (lit "g") none one_func one_func-IsConsistent refl (omega arith)

remove_funcs-IsConsistent_example :
    ((mem one_func.init_func (4 ∷ []) ≡ true)
      × (remove_funcs (4 ∷ []) one_func ≡ panic init_removed))
    ⊎ ((mem one_func.init_func (4 ∷ []) ≡ false)
        × ((q : Program) × (remove_funcs (4 ∷ []) one_func ≡ ok q) × Remaining (4 ∷ []) one_func q))
remove_funcs-IsConsistent_example =
    remove_funcs-IsConsistent (4 ∷ []) one_func one_func-IsConsistent (λ f m. m)

abbrev found : Result VarInfo → VarInfo
found (ok i) = i
found (panic _) = new_var_info no_funcs

find_var_info-IsTotalled_example : IsTotalled one_func.funcs (found (find_var_info one_func 2))
unfolding find_var_info note_scopes
find_var_info-IsTotalled_example =
    find_var_info-IsTotalled 2 one_func (found (find_var_info one_func 2)) refl refl

note_scopes-terminates_example :
    note_scopes one_func 2 (0 ∷ []) (new_var_info one_func) ≢ panic out_of_fuel
note_scopes-terminates_example =
    note_scopes-terminates one_func (λ _. 1) 2 (0 ∷ []) (new_var_info one_func) (λ s. omega arith)
      (omega arith)

-- A function that panics.
abbrev panicking : Func
panicking = record a_func { body_of = body 1 (next (return_stmt [] true) end) }

abbrev two_funcs : Program
two_funcs = insert_func 5 panicking one_scope one_func

-- The first function calls the second one.
abbrev calling : CallGraph
calling = write_call 4 5 [] [] (add_func 5 (new_func_call_graph (some 4)))

abbrev components : List (List ℕ)
components = (5 ∷ []) ∷ (4 ∷ []) ∷ []

calling-IsOrdered : IsOrdered (λ f. set_at f calling.caller_to_callees) [] components
unfolding add_func new_func_call_graph
calling-IsOrdered = (
  refl,
  λ h m. refl,
  λ f b m c. ground (arith, m, c),
  (refl, λ h m. ground (arith, m), λ f b m c. ground (arith, m, c), tt),
)

analyze_panics_lem_example :
    (analyze_panics two_funcs components calling).can_panic_externally 4 ≡ true
unfolding analyze_panics add_func new_func_call_graph
analyze_panics_lem_example =
    analyze_panics_lem two_funcs components calling calling-IsOrdered 4 5 refl refl refl

abbrev plain : Signature
plain = record { recv = none; shape = 0 }

abbrev call_of_five : CallStmt
call_of_five = record {
  callee = static 5;
  callee_signature = plain;
  call_kind = call_kind;
  args = [];
  arg_requires_copy = [];
  results = [];
  result_requires_copy = [];
}

-- The function calls the panicking one.
abbrev caller_func : Func
caller_func = record a_func { body_of = body 1 (next (call call_of_five) end) }

abbrev calling_funcs : Program
calling_funcs = insert_func 5 panicking one_scope (insert_func 4 caller_func one_scope no_funcs)

unfoldable lone : CallGraph
unfolding new_func_call_graph
lone = new_func_call_graph (some 4)

lone-IsValid : Dynamic.IsValid lone
unfolding lone add_func new_func_call_graph
lone-IsValid = record {
  symmetric = record { same_funcs = λ f. refl; backwards = λ a b. ground arith };
  linked = tt;
}

add_calls_to_graph_lem_example :
    (h : CallGraph) × (add_calls_to_graph calling_funcs
        (λ _. true)
        0
        (4 ∷ 5 ∷ [])
        (add_funcs_to_graph (4 ∷ 5 ∷ []) lone)
      ≡ ok h)
    × Dynamic.IsValid h
    × ((f : ℕ) → is_known f h ≡ (mem f (4 ∷ 5 ∷ []) || is_known f lone))
    × ((a b : ℕ) → contains_edge a b lone ≡ true → contains_edge a b h ≡ true)
    × ((a b : ℕ)
        → (mem a (4 ∷ 5 ∷ [])
            && some_of
                (λ s.
                  calls calling_funcs
                    (λ _. true)
                    0
                    (λ x. mem x (4 ∷ 5 ∷ []) || is_known x lone)
                    b
                    s.0)
                (walk_stmts (calling_funcs.func_at a).body_of))
          ≡ true
        → contains_edge a b h ≡ true)
unfolding walk_stmts
add_calls_to_graph_lem_example =
    add_calls_to_graph_lem calling_funcs (λ _. true) 0 (4 ∷ 5 ∷ []) lone lone-IsValid
      ((refl, tt), ((refl, tt), tt))
