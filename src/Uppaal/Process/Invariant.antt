-- ===== src/Uppaal/Process/Invariant.antt =====
-- The bookkeeping invariant of a process: its sets, its lookups, the lists of transitions at its
-- states and the flag of the initial state agree.
use toph.Prelude.{
  is_some, ℕ, ◌≡◌, ◌<◌, ◌==◌, refl, Bool, true, false, Option, none, some, ◌&&◌, ◌||◌, mem, IsNodup,
  find, lookup, Text,
}
use toph.Uppaal.Objects.{Heap}
use toph.Uppaal.Process.Lookup.{is_distinct}
use toph.Uppaal.Process.{Env, between, new_process}

-- Whether a transition begins at one state and ends at the other.
abbrev pub joins : Heap → ℕ → ℕ → ℕ → Bool
joins h t a b = (h.trans t).start == a && (h.trans t).end == b

-- Whether a transition begins or ends at the state.
abbrev pub touches : Heap → ℕ → ℕ → Bool
touches h t s = (h.trans t).start == s || (h.trans t).end == s

abbrev pub is_pointer : Option ℕ → ℕ → Bool
is_pointer none s = false
is_pointer (some i) s = i == s

pub record IsWellFormed (e : Env) : Type 0 where
  pub states_nodup : IsNodup e.process.states
  pub transitions_nodup : IsNodup e.process.transitions
  pub states_below : (s : ℕ) → mem s e.process.states ≡ true → s < e.heap.next_state
  pub transitions_below : (t : ℕ) → mem t e.process.transitions ≡ true → t < e.heap.next_trans
  pub named :
      (s : ℕ)
      → mem s e.process.states ≡ true
      → lookup (e.heap.state s).name e.process.state_lookup ≡ some s
  pub lookup_known :
      (n : Text) (s : ℕ) → lookup n e.process.state_lookup ≡ some s → mem s e.process.states ≡ true
  pub lookup_named :
      (n : Text) (s : ℕ) → lookup n e.process.state_lookup ≡ some s → (e.heap.state s).name ≡ n
  pub start_known :
      (t : ℕ)
      → mem t e.process.transitions ≡ true
      → mem (e.heap.trans t).start e.process.states ≡ true
  pub end_known :
      (t : ℕ)
      → mem t e.process.transitions ≡ true
      → mem (e.heap.trans t).end e.process.states ≡ true
  pub keys : (s : ℕ) → is_some (find s e.process.transition_lookup) ≡ mem s e.process.states
  pub distinct : is_distinct e.process.transition_lookup ≡ true
  pub between_nodup : (a b : ℕ) → IsNodup (between a b e.process.transition_lookup)
  pub between_mem :
      (a b t : ℕ)
      → mem t (between a b e.process.transition_lookup)
        ≡ (mem t e.process.transitions && joins e.heap t a b)
  pub at_state_nodup :
      (s : ℕ) → mem s e.process.states ≡ true → IsNodup (e.heap.state s).transitions
  pub at_state_mem :
      (s t : ℕ)
      → mem s e.process.states ≡ true
      → mem t (e.heap.state s).transitions ≡ (mem t e.process.transitions && touches e.heap t s)
  pub initial_known : (s : ℕ) → e.process.initial_state ≡ some s → mem s e.process.states ≡ true
  pub initial_flag :
      (s : ℕ)
      → mem s e.process.states ≡ true
      → (e.heap.state s).is_initial ≡ is_pointer e.process.initial_state s

-- A new process has no state, and is well formed.
pub new_process-IsWellFormed :
    (h : Heap) (name : Text) → IsWellFormed (record { heap = h; process = new_process name })
unfolding new_process
new_process-IsWellFormed h name = record {
  states_nodup = refl;
  transitions_nodup = refl;
  states_below = λ s m. cc;
  transitions_below = λ t m. cc;
  named = λ s m. cc;
  lookup_known = λ n s m. cc;
  lookup_named = λ n s m. cc;
  start_known = λ t m. cc;
  end_known = λ t m. cc;
  keys = λ s. refl;
  distinct = refl;
  between_nodup = λ a b. refl;
  between_mem = λ a b t. refl;
  at_state_nodup = λ s m. cc;
  at_state_mem = λ s t m. cc;
  initial_known = λ s m. cc;
  initial_flag = λ s m. cc;
}
