-- ===== src/Uppaal/Process.antt =====
-- uppaal/process.go: a process and the operations that change its states and transitions.
-- A set or map of the source is a list in the order in which a `range` over it goes.
pub mod Lookup
pub mod Invariant
pub mod Names
pub mod AddState
pub mod RemoveState
pub mod InitialState
pub mod Reach
pub mod Groups
pub mod Placement
pub mod Print
pub mod Xml
pub mod AddTransition
pub mod RemoveTransition
use toph.Prelude.{
  ℕ, zero, suc, ◌+◌, ◌==◌, Bool, true, false, List, [], ◌∷◌, ◌++◌, Option, none, some, Text, lit,
  text_eq, decimal, length, mem, erase, is_empty, find, put, delete, lookup, insert, remove,
  if◌then◌else◌, Result, ok, panic, ◌>>=◌, unknown_initial_state, name_collision, unknown_state,
  state_in_use, unknown_start, unknown_end, unknown_transition, nil_map, out_of_fuel, is_some,
}
use toph.Uppaal.Objects.{State, Heap, update, modify_state, new_state, new_trans}
use toph.Uppaal.Declarations.{Declarations, init_declarations}
use toph.Uppaal.Query.{Query}

pub data RenamingOption : Type 0 where
  no_renaming renaming : RenamingOption

-- `states` and `transitions` are the sets of pointers of the two maps to `struct{}`.
pub record Process : Type 0 where
  pub name : Text
  pub params : List Text
  pub decls : Declarations
  pub initial_state : Option ℕ
  pub states : List ℕ
  pub state_lookup : List (Text × ℕ)
  pub transitions : List ℕ
  pub transition_lookup : List (ℕ × List (ℕ × List ℕ))
  pub queries : List Query

-- The heap, and the process that a method is called on.
pub record Env : Type 0 where
  pub heap : Heap
  pub process : Process

unfoldable pub new_process : Text → Process
new_process name = record {
  name = name;
  params = [];
  decls = init_declarations (lit "Place local declarations here.");
  initial_state = none;
  states = [];
  state_lookup = [];
  transitions = [];
  transition_lookup = [];
  queries = [];
}

abbrev pub add_parameter : Text → Process → Process
add_parameter param p = record p { params = p.params ++ param ∷ [] }

abbrev pub add_query : Query → Process → Process
add_query query p = record p { queries = p.queries ++ query ∷ [] }

-- Writes the flag of the state that a pointer names; a nil pointer is left alone.
abbrev flag_initial : Bool → Option ℕ → Heap → Heap
flag_initial b none h = h
flag_initial b (some s) h = modify_state s (λ o. record o { is_initial = b }) h

abbrev pub is_known : Option ℕ → Process → Bool
is_known none p = true
is_known (some s) p = mem s p.states

unfoldable pub set_initial_state : Option ℕ → Env → Result Env
set_initial_state state e =
    if is_known state e.process
    then ok (record {
      heap = flag_initial true state (flag_initial false e.process.initial_state e.heap);
      process = record (e.process) { initial_state = state };
    })
    else panic unknown_initial_state

-- The loop of `AddState` over candidate names, from `i` on.
fresh_name : ℕ → Text → ℕ → List (Text × ℕ) → Result Text
fresh_name zero base i names = panic out_of_fuel
fresh_name (suc fuel) base i names =
    let rest = fresh_name fuel base (i + 1) names in
    if is_some (lookup (base ++ decimal i) names) then rest else ok (base ++ decimal i)

abbrev pub base_name : Text → Text
base_name name = if text_eq name [] then lit "L" else name

-- The name that the new state gets. One candidate more than there are names is enough.
pub chosen_name : Text → RenamingOption → Process → Result Text
unfolding fresh_name
chosen_name name no_renaming p =
    if is_some (lookup name p.state_lookup) then panic name_collision else ok name
chosen_name name renaming p =
    fresh_name (suc (length p.state_lookup)) (base_name name) 0 p.state_lookup

-- The allocation and the entries for a state of a given name.
abbrev pub insert_state : Text → Env → Env
insert_state name e =
    let s = e.heap.next_state in
    record {
      heap = record (e.heap) { state = update e.heap.state s (new_state name); next_state = suc s };
      process = record (e.process) {
        states = e.process.states ++ s ∷ [];
        state_lookup = insert name s e.process.state_lookup;
        transition_lookup = put s [] e.process.transition_lookup;
      };
    }

unfoldable pub add_state : Text → RenamingOption → Env → Result (ℕ × Env)
add_state name opt e =
    chosen_name name opt e.process >>= λ chosen. ok (e.heap.next_state, insert_state chosen e)

-- `p.initialState = nil` where it was the state that goes.
abbrev pub forget_initial : ℕ → Option ℕ → Option ℕ
forget_initial s none = none
forget_initial s (some i) = if i == s then none else some i

abbrev drop_state : ℕ → Env → Env
drop_state s e = record e {
  process = record (e.process) {
    initial_state = forget_initial s e.process.initial_state;
    states = erase s e.process.states;
    state_lookup = remove (e.heap.state s).name e.process.state_lookup;
    transition_lookup = delete s e.process.transition_lookup;
  };
}

unfoldable pub remove_state : ℕ → Env → Result Env
remove_state s e =
    if mem s e.process.states
    then (if is_empty (e.heap.state s).transitions then ok (drop_state s e) else panic state_in_use)
    else panic unknown_state

-- `p.transitionLookup[start][end]`, which is nil where a key is missing.
abbrev pub between : ℕ → ℕ → List (ℕ × List (ℕ × List ℕ)) → List ℕ
between start end m = elim (find start m) [
  | none ↦ []
  | some ends ↦ elim (find end ends) [ none ↦ [] | some ts ↦ ts ]
]

-- `p.transitionLookup[start][end] = ts`, which panics where the inner map is nil.
abbrev set_between :
    ℕ → ℕ → List ℕ → List (ℕ × List (ℕ × List ℕ)) → Result (List (ℕ × List (ℕ × List ℕ)))
set_between start end ts m = elim (find start m) [
  | none ↦ panic nil_map
  | some ends ↦ ok (put start (put end ts ends) m)
]

abbrev push_transition : ℕ → State → State
push_transition t s = record s { transitions = s.transitions ++ t ∷ [] }

-- The allocation of a transition, and its entries at the two states.
abbrev link : ℕ → ℕ → Heap → Heap
link start end h =
    let t = h.next_trans in
    let h' = record h { trans = update h.trans t (new_trans start end); next_trans = suc t } in
    let h'' = modify_state start (push_transition t) h' in
    if start == end then h'' else modify_state end (push_transition t) h''

-- The process after a transition was put into the lookup.
abbrev record_transition : ℕ → List (ℕ × List (ℕ × List ℕ)) → Process → Process
record_transition t lookup p = record p {
  transitions = p.transitions ++ t ∷ [];
  transition_lookup = lookup;
}

-- `AddTransition` behind its two guards.
insert_transition : ℕ → ℕ → Env → Result (ℕ × Env)
insert_transition start end e =
    let t = e.heap.next_trans in
    let m = e.process.transition_lookup in
    set_between start end (between start end m ++ t ∷ []) m >>= λ lookup.
    ok (t, record { heap = link start end e.heap; process = record_transition t lookup e.process })

unfoldable pub add_transition : ℕ → ℕ → Env → Result (ℕ × Env)
unfolding insert_transition
add_transition start end e =
    if mem start e.process.states
    then (if mem end e.process.states then insert_transition start end e else panic unknown_end)
    else panic unknown_start

abbrev pull_transition : ℕ → State → State
pull_transition t s = record s { transitions = erase t s.transitions }

-- The loop of `RemoveTransition` over `p.transitionLookup[start][end]` writes only where it finds
-- the transition.
abbrev erase_between :
    ℕ → ℕ → ℕ → List (ℕ × List (ℕ × List ℕ)) → Result (List (ℕ × List (ℕ × List ℕ)))
erase_between t start end m =
    if mem t (between start end m)
    then set_between start end (erase t (between start end m)) m
    else ok m

-- The loop over the start and the end state, which are one state for a loop.
abbrev unlink : ℕ → Heap → Heap
unlink t h =
    modify_state (h.trans t).end (pull_transition t)
      (modify_state (h.trans t).start (pull_transition t) h)

abbrev forget_transition : ℕ → List (ℕ × List (ℕ × List ℕ)) → Process → Process
forget_transition t lookup p = record p {
  transitions = erase t p.transitions;
  transition_lookup = lookup;
}

-- `RemoveTransition` behind its guard.
drop_transition : ℕ → Env → Result Env
drop_transition t e =
    let o = e.heap.trans t in
    erase_between t o.start o.end e.process.transition_lookup >>= λ lookup.
    ok (record { heap = unlink t e.heap; process = forget_transition t lookup e.process })

unfoldable pub remove_transition : ℕ → Env → Result Env
unfolding drop_transition
remove_transition t e =
    if mem t e.process.transitions then drop_transition t e else panic unknown_transition
