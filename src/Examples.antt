-- ===== src/Examples.antt =====
-- A small process: the states a, b and c, a transition from a to b and two from b to c. It starts
-- at a.
pub mod Processes
pub mod Reducers
pub mod Systems
pub mod Graphs
pub mod Scopes
pub mod Types
pub mod Programs
pub mod Bodies
pub mod Calls
use toph.Prelude.{Text, Result, ok, [], ap, lit, mem, refl, subst, sym, true, ℕ, ◌≡◌, panic, some}
use toph.Uppaal.Objects.{Heap, new_state, new_trans}
use toph.Uppaal.Process.{Env, new_process, insert_state, add_transition, set_initial_state}
use toph.Uppaal.Process.Invariant.{IsWellFormed, new_process-IsWellFormed}
use toph.Uppaal.Process.AddState.{insert_state-StateAdded}
use toph.Uppaal.Process.AddTransition.{add_transition-Added}
use toph.Uppaal.Process.InitialState.{set_initial_state-IsWellFormed}

abbrev pub no_objects : Heap
no_objects = record {
  state = λ _. new_state [];
  trans = λ _. new_trans 0 0;
  next_state = 0;
  next_trans = 0;
}

unfoldable pub no_states : Env
unfolding new_process
no_states = record { heap = no_objects; process = new_process (lit "P") }

pub no_states-IsWellFormed : IsWellFormed no_states
unfolding no_states
no_states-IsWellFormed = new_process-IsWellFormed no_objects (lit "P")

unfoldable pub three_states : Env
unfolding no_states
three_states = insert_state (lit "c") (insert_state (lit "b") (insert_state (lit "a") no_states))

pub three_states-IsWellFormed : IsWellFormed three_states
unfolding three_states no_states
three_states-IsWellFormed =
    let one =
      (insert_state-StateAdded (lit "a") no_states no_states-IsWellFormed refl).well_formed in
    let two =
      (insert_state-StateAdded (lit "b") (insert_state (lit "a") no_states) one refl).well_formed in
    (insert_state-StateAdded (lit "c") (insert_state (lit "b") (insert_state (lit "a") no_states))
      two refl).well_formed

-- The environment behind an operation, or the one before it where it panicked.
abbrev behind : {A : Type 0} → Env → Result (A × Env) → Env
behind e (ok (_, e')) = e'
behind e (panic _) = e

unfoldable pub joined : ℕ → ℕ → Env → Env
unfolding add_transition
joined start end e = behind e (add_transition start end e)

joined-IsWellFormed :
    (start end : ℕ) (e : Env)
    → IsWellFormed e
    → mem start e.process.states ≡ true
    → mem end e.process.states ≡ true
    → IsWellFormed (joined start end e)
unfolding joined
joined-IsWellFormed start end e w p q =
    let (e', r, a) = add_transition-Added start end e w p q in
    subst IsWellFormed (sym (ap (behind e) r)) a.well_formed

unfoldable pub three_transitions : Env
unfolding joined three_states
three_transitions = joined 1 2 (joined 1 2 (joined 0 1 three_states))

pub three_transitions-IsWellFormed : IsWellFormed three_transitions
unfolding three_transitions joined three_states no_states add_transition new_process
three_transitions-IsWellFormed =
    joined-IsWellFormed 1 2 (joined 1 2 (joined 0 1 three_states))
      (joined-IsWellFormed 1 2 (joined 0 1 three_states)
        (joined-IsWellFormed 0 1 three_states three_states-IsWellFormed refl refl) refl refl)
      refl refl

abbrev started : Env → Result Env → Env
started e (ok e') = e'
started e (panic _) = e

unfoldable pub sample : Env
unfolding three_transitions set_initial_state
sample = started three_transitions (set_initial_state (some 0) three_transitions)

pub sample-IsWellFormed : IsWellFormed sample
unfolding sample three_transitions joined three_states no_states add_transition new_process
    set_initial_state
sample-IsWellFormed =
    let (e', r, w, _, _, _) =
      (set_initial_state-IsWellFormed (some 0) three_transitions three_transitions-IsWellFormed).1
        refl in
    subst IsWellFormed (sym (ap (started three_transitions) r)) w

pub sample-initial : sample.process.initial_state ≡ some 0
unfolding sample three_transitions joined three_states no_states add_transition new_process
    set_initial_state
sample-initial = refl
