-- ===== src/Uppaal/Process/AddState.antt =====
-- `AddState` of uppaal/process.go.
use toph.Prelude.{
  ℕ, ◌≡◌, ◌==◌, refl, true, false, [], ◌∷◌, ◌++◌, none, some, ◌||◌, ◌∙◌, mem, find-put, lookup,
  lookup-insert, text_eq_iff, Text, arith, ok, panic, mem-append, append-IsNodup, name_collision,
}
use toph.Uppaal.Objects.{new_state}
use toph.Uppaal.Process.{
  Env, no_renaming, renaming, between, insert_state, base_name, chosen_name, add_state,
}
use toph.Uppaal.Process.Lookup.{put-is_distinct, between-put}
use toph.Uppaal.Process.Names.{candidate, IsFirst, chosen_name-IsFirst, chosen_name-free}
use toph.Uppaal.Process.Invariant.{IsWellFormed, touches}

module _ (name : Text) (e : Env) (w : IsWellFormed e)
    (free : lookup name e.process.state_lookup ≡ none) where
  open w use {
    states_nodup, transitions_nodup, states_below, transitions_below, named, lookup_known,
    lookup_named, start_known, end_known, keys, distinct, between_nodup, between_mem,
    at_state_nodup, at_state_mem, initial_known, initial_flag,
  }

  abbrev after : Env
  after = insert_state name e

  abbrev fresh : ℕ
  fresh = e.heap.next_state

  fresh-unknown : mem fresh e.process.states ≡ false
  fresh-unknown = ground (arith, states_below fresh)

  after-mem : (s : ℕ) → mem s after.process.states ≡ (mem s e.process.states || fresh == s)
  after-mem s = ground (arith, mem-append s e.process.states (fresh ∷ []))

  after-named :
      (s : ℕ)
      → mem s after.process.states ≡ true
      → lookup (after.heap.state s).name after.process.state_lookup ≡ some s
  after-named s h = ground (
    arith,
    after-mem s,
    named s,
    lookup-insert name (after.heap.state s).name fresh e.process.state_lookup,
    text_eq_iff name (after.heap.state s).name,
    fresh-unknown,
  )

  after-lookup :
      (n : Text) (s : ℕ)
      → lookup n after.process.state_lookup ≡ some s
      → (mem s after.process.states ≡ true) × ((after.heap.state s).name ≡ n)
  after-lookup n s h = ground (
    arith,
    after-mem s,
    lookup-insert name n fresh e.process.state_lookup,
    text_eq_iff name n,
    lookup_known n s,
    lookup_named n s,
    fresh-unknown,
  )

  after-between :
      (a b : ℕ)
      → between a b after.process.transition_lookup ≡ between a b e.process.transition_lookup
  after-between a b = between-put fresh a b e.process.transition_lookup (keys fresh ∙ fresh-unknown)

  -- No transition of the process leads to or from the new state.
  after-touches : (t : ℕ) → mem t e.process.transitions ≡ true → touches e.heap t fresh ≡ false
  after-touches t h = ground (arith, start_known t, end_known t, fresh-unknown)

  pub after-IsWellFormed : IsWellFormed after
  after-IsWellFormed = record {
    states_nodup = append-IsNodup fresh _ states_nodup fresh-unknown;
    transitions_nodup = transitions_nodup;
    states_below = λ s h. ground (arith, states_below s, after-mem s);
    transitions_below = transitions_below;
    named = after-named;
    lookup_known = λ n s h. (after-lookup n s h).0;
    lookup_named = λ n s h. (after-lookup n s h).1;
    start_known = λ t h. ground (arith, start_known t h, after-mem (e.heap.trans t).start);
    end_known = λ t h. ground (arith, end_known t h, after-mem (e.heap.trans t).end);
    keys =
        λ s. ground (arith, find-put fresh s [] e.process.transition_lookup, keys s, after-mem s);
    distinct = put-is_distinct fresh e.process.transition_lookup distinct;
    between_nodup = λ a b. ground (arith, after-between a b, between_nodup a b);
    between_mem = λ a b t. ground (arith, after-between a b, between_mem a b t);
    at_state_nodup = λ s h. ground (arith, at_state_nodup s, after-mem s);
    at_state_mem = λ s t h. ground (arith, at_state_mem s t, after-mem s, after-touches t);
    initial_known = λ s h. ground (arith, initial_known s, after-mem s);
    initial_flag =
        λ s h. ground (arith, initial_flag s, after-mem s, initial_known fresh, fresh-unknown);
  }

-- What `AddState` does when it has chosen a name.
pub record StateAdded (name : Text) (e e' : Env) : Type 0 where
  pub well_formed : IsWellFormed e'
  pub object : e'.heap.state e.heap.next_state ≡ new_state name
  pub found : lookup name e'.process.state_lookup ≡ some e.heap.next_state
  pub states : e'.process.states ≡ e.process.states ++ e.heap.next_state ∷ []
  pub transitions : e'.process.transitions ≡ e.process.transitions
  pub initial : e'.process.initial_state ≡ e.process.initial_state
  pub others : (s : ℕ) → mem s e.process.states ≡ true → e'.heap.state s ≡ e.heap.state s

pub insert_state-StateAdded :
    (name : Text) (e : Env)
    → IsWellFormed e
    → lookup name e.process.state_lookup ≡ none
    → StateAdded name e (insert_state name e)
insert_state-StateAdded name e w free = record {
  well_formed = after-IsWellFormed name e w free;
  object = ground arith;
  found = ground (
    arith,
    lookup-insert name name e.heap.next_state e.process.state_lookup,
    text_eq_iff name name,
  );
  states = refl;
  transitions = refl;
  initial = refl;
  others = λ s h. ground (arith, w.states_below s);
}

-- On a well-formed process `AddState` with renaming always returns, with a pointer that was not in
-- use. The state is named by the base name and the least number that no state's name has, is found
-- under that name, and is no initial state. The process is well formed again, and all that it held
-- is as before.
pub add_state-StateAdded :
    (name : Text) (e : Env)
    → IsWellFormed e
    → (j : ℕ) × (e' : Env) × (add_state name renaming e ≡ ok (e.heap.next_state, e'))
      × IsFirst (base_name name) 0 e.process.state_lookup j
      × StateAdded (candidate (base_name name) j) e e'
unfolding add_state
add_state-StateAdded name e w =
    let (j, chosen, first) = chosen_name-IsFirst name e.process in
    let n = candidate (base_name name) j in
    (
      j,
      insert_state n e,
      ground (arith, chosen),
      first,
      insert_state-StateAdded n e w (chosen_name-free name n renaming e.process chosen),
    )

-- Without renaming `AddState` takes the name as it is, and panics exactly where a state has it.
pub add_state_exact :
    (name : Text) (e : Env)
    → IsWellFormed e
    → ((s : ℕ)
        → lookup name e.process.state_lookup ≡ some s
        → add_state name no_renaming e ≡ panic name_collision)
      × (lookup name e.process.state_lookup ≡ none
          → (e' : Env) × (add_state name no_renaming e ≡ ok (e.heap.next_state, e'))
            × StateAdded name e e')
unfolding add_state chosen_name
add_state_exact name e w = (
  λ s taken. ground (arith, taken),
  λ free. (insert_state name e, ground (arith, free), insert_state-StateAdded name e w free),
)
