-- ===== src/Examples/Reducers.antt =====
-- Runs of the two reducers.
use toph.Optimizer.States.Correct.{reduce_states-Shrunk}
use toph.Optimizer.States.Visit.{sorted_states-Found}
use toph.Optimizer.Transitions.Correct.{reduce_transitions-Reduced}
use toph.Optimizer.States.Labels.{is_removable-IsAtomic, merge-Merged}
use toph.Optimizer.States.Bypass.{bypass-Bypassed}
use toph.Prelude.{lit, ok, List, false, mem, refl, some, true, ℕ, ◌↔◌, ◌≡◌}
use toph.Uppaal.Location.{origin}
use toph.Uppaal.Objects.{Trans, new_trans, set_guard, set_sync}
use toph.Uppaal.Process.Invariant.{IsWellFormed}
use toph.Uppaal.Process.Reach.{Reach}
use toph.Optimizer.States.{reduce_states_in_process, sorted_states, bypass, is_removable}
use toph.Optimizer.States.Visit.{Found}
use toph.Optimizer.States.Bypass.{Bypassed}
use toph.Optimizer.States.Labels.{IsAtomic}
use toph.Optimizer.Transitions.{reduce_transitions_in_process}
use toph.Optimizer.Transitions.Correct.{IsOrder, Reduced}
use toph.Uppaal.Process.{new_process, add_transition, set_initial_state, Env}
use toph.Optimizer.States.{merge}
use toph.Optimizer.States.Labels.{fresh, Merged}
use toph.Examples.{
  sample, sample-IsWellFormed, three_transitions, joined, sample-initial, three_states, no_states,
}

abbrev guarded : Trans
guarded = set_guard (lit "x > 0") false (new_trans 0 1)

abbrev synced : Trans
synced = set_sync (lit "c!") (new_trans 1 2)

list-IsOrder : IsOrder (λ ts. ts)
list-IsOrder = record { elements = λ ts t. refl; once = λ ts h. h }

reduce_states-Shrunk_example :
    (e' : Env) × (reduce_states_in_process sample ≡ ok e')
    × IsWellFormed e'
    × (e'.process.initial_state ≡ some 0)
    × ((x : ℕ) → mem x e'.process.states ≡ true → mem x sample.process.states ≡ true)
    × ((x : ℕ)
        → mem x sample.process.states ≡ true
        → ¬ Reach sample 0 x
        → mem x e'.process.states ≡ true)
    × ((x : ℕ) → mem x e'.process.states ≡ true → Reach e' 0 x ↔ Reach sample 0 x)
reduce_states-Shrunk_example = reduce_states-Shrunk sample 0 sample-IsWellFormed sample-initial

sorted_states-Found_example :
    (ss : List ℕ) × (sorted_states sample ≡ ok ss) × Found sample (sample-IsWellFormed) 0 ss
sorted_states-Found_example = sorted_states-Found sample sample-IsWellFormed 0 sample-initial

reduce_transitions-Reduced_example :
    (e' : Env) × (reduce_transitions_in_process (λ ts. ts) sample ≡ ok e') × Reduced sample e'
reduce_transitions-Reduced_example =
    reduce_transitions-Reduced (λ ts. ts) sample list-IsOrder sample-IsWellFormed

is_removable-IsAtomic_example : IsAtomic (sample.heap.trans 0) (sample.heap.trans 1)
unfolding sample three_transitions joined three_states no_states add_transition new_process
    set_initial_state is_removable
is_removable-IsAtomic_example = is_removable-IsAtomic sample.heap 1 0 1 refl refl refl

merge-Merged_example :
    Merged origin guarded synced (merge origin guarded synced (fresh origin guarded synced))
merge-Merged_example = merge-Merged origin guarded synced

bypass-Bypassed_example : (e' : Env) × (bypass 1 sample ≡ ok e') × Bypassed 1 sample e'
unfolding sample three_transitions joined three_states no_states add_transition new_process
    set_initial_state is_removable
bypass-Bypassed_example = bypass-Bypassed 1 sample sample-IsWellFormed refl refl
