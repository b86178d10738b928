-- ===== src/Examples/Processes.antt =====
-- Runs of the operations on processes.
use toph.Uppaal.Process.AddTransition.{add_transition-Added}
use toph.Uppaal.Process.RemoveTransition.{remove_transition-Removed}
use toph.Uppaal.Process.AddState.{add_state-StateAdded}
use toph.Uppaal.Process.RemoveState.{remove_state-StateRemoved}
use toph.Uppaal.Process.InitialState.{set_initial_state-IsWellFormed}
use toph.Uppaal.Process.Print.Laws.{transitions_xta_lem}
use toph.Uppaal.Process.Xml.Laws.{references_lem, IsPlain}
use toph.Uppaal.Process.Xml.{as_xml}
use toph.Uppaal.Process.Xml.References.{references, init_ref}
use toph.Uppaal.Process.Xml.Pieces.{trans_references}
use toph.Uppaal.Process.Xml.States.{state_references}
use toph.Prelude.{
  lit, ok, panic, unknown_state, unknown_initial_state, state_in_use, unknown_transition, ◌++◌,
  IsNodup, [], false, get_elem?, if◌then◌else◌, is_empty, join, map, mem, refl, some, true, ℕ, ◌≡◌,
  length, ◌∷◌,
}
use toph.Uppaal.Process.{
  new_process, Env, is_known, base_name, renaming, add_state, remove_state, set_initial_state,
  remove_transition, add_transition,
}
use toph.Uppaal.Process.AddTransition.{Added}
use toph.Uppaal.Process.RemoveTransition.{Removed}
use toph.Uppaal.Process.AddState.{StateAdded}
use toph.Uppaal.Process.RemoveState.{StateRemoved}
use toph.Uppaal.Process.Names.{IsFirst, candidate}
use toph.Uppaal.Process.Print.{transitions_xta}
use toph.Uppaal.Process.Print.Laws.{listed, line}
use toph.Uppaal.Process.Xml.{state_index, init_index}
use toph.Examples.{
  sample, three_transitions, sample-IsWellFormed, set_initial_state, joined, IsWellFormed,
  three_states, no_states, add_transition,
}
use toph.Uppaal.Process.Invariant.{IsWellFormed, is_pointer}

add_transition-Added_example :
    (e' : Env) × (add_transition 0 2 sample ≡ ok (sample.heap.next_trans, e')) × Added 0 2 sample e'
unfolding sample three_transitions joined three_states no_states add_transition new_process
    set_initial_state
add_transition-Added_example = add_transition-Added 0 2 sample sample-IsWellFormed refl refl

remove_transition-Removed_example :
    (mem 1 sample.process.transitions ≡ true
      → (e' : Env) × (remove_transition 1 sample ≡ ok e') × Removed 1 sample e')
    × (mem 1 sample.process.transitions ≡ false
        → remove_transition 1 sample ≡ panic unknown_transition)
remove_transition-Removed_example = remove_transition-Removed 1 sample sample-IsWellFormed

add_state-StateAdded_example :
    (j : ℕ) × (e' : Env) × (add_state (lit "a") renaming sample ≡ ok (sample.heap.next_state, e'))
    × IsFirst (base_name (lit "a")) 0 sample.process.state_lookup j
    × StateAdded (candidate (base_name (lit "a")) j) sample e'
add_state-StateAdded_example = add_state-StateAdded (lit "a") sample sample-IsWellFormed

remove_state-StateRemoved_example :
    (mem 1 sample.process.states ≡ false → remove_state 1 sample ≡ panic unknown_state)
    × (mem 1 sample.process.states ≡ true
        → is_empty (sample.heap.state 1).transitions ≡ false
        → remove_state 1 sample ≡ panic state_in_use)
    × (mem 1 sample.process.states ≡ true
        → is_empty (sample.heap.state 1).transitions ≡ true
        → (e' : Env) × (remove_state 1 sample ≡ ok e') × StateRemoved 1 sample e')
remove_state-StateRemoved_example = remove_state-StateRemoved 1 sample sample-IsWellFormed

set_initial_state-IsWellFormed_example :
    (is_known (some 2) sample.process ≡ false
      → set_initial_state (some 2) sample ≡ panic unknown_initial_state)
    × (is_known (some 2) sample.process ≡ true
        → (e' : Env) × (set_initial_state (some 2) sample ≡ ok e')
          × IsWellFormed e'
          × (e'.process.initial_state ≡ (some 2))
          × (e'.process.states ≡ sample.process.states)
          × ((s : ℕ)
              → mem s sample.process.states ≡ true
              → (e'.heap.state s).is_initial ≡ is_pointer (some 2) s))
set_initial_state-IsWellFormed_example =
    set_initial_state-IsWellFormed (some 2) sample sample-IsWellFormed

transitions_xta_lem_example :
    IsNodup (listed sample)
    × ((t : ℕ) → mem t (listed sample) ≡ mem t sample.process.transitions)
    × (transitions_xta sample.heap (length sample.process.transitions) 0 (listed sample) ≡ (
        if is_empty (listed sample)
        then []
        else join (lit ",\n") (map (line sample.heap) (listed sample)) ++ lit ";\n"))
transitions_xta_lem_example = transitions_xta_lem sample sample-IsWellFormed

sample-IsPlain : IsPlain sample.heap (lit " ") sample.process
unfolding sample three_transitions joined three_states no_states add_transition new_process
    set_initial_state join
sample-IsPlain = record {
  plain_indent = refl;
  plain_name = refl;
  plain_params = refl;
  plain_states = (refl, (refl, (refl, tt)));
}

references_lem_example :
    (references (as_xml sample.heap (lit " ") sample.process) ≡ (
      state_references sample.heap 0 sample.process.states
      ++ init_ref (init_index sample.process)
        ∷ trans_references sample.heap sample.process.states sample.process.transitions))
    × ((t : ℕ)
        → mem t sample.process.transitions ≡ true
        → (get_elem? sample.process.states
              (state_index (sample.heap.trans t).start sample.process.states)
            ≡ some (sample.heap.trans t).start)
          × (get_elem? sample.process.states
                (state_index (sample.heap.trans t).end sample.process.states)
              ≡ some (sample.heap.trans t).end))
    × ((i : ℕ)
        → sample.process.initial_state ≡ some i
        → get_elem? sample.process.states (init_index sample.process) ≡ some i)
references_lem_example = references_lem sample (lit " ") sample-IsWellFormed sample-IsPlain
