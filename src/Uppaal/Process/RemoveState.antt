-- ===== src/Uppaal/Process/RemoveState.antt =====
-- `RemoveState` of uppaal/process.go.
use toph.Prelude.{
  ℕ, ◌≡◌, ◌==◌, refl, true, false, some, ◌&&◌, mem, erase, erase-IsNodup, mem-erase, is_empty,
  find-delete, lookup, lookup-remove, text_eq_iff, Text, arith, ok, panic, if◌then◌else◌,
  unknown_state, state_in_use,
}
use toph.Uppaal.Process.{Env, between, forget_initial, drop_state, remove_state}
use toph.Uppaal.Process.Lookup.{between-delete, delete-is_distinct}
use toph.Uppaal.Process.Invariant.{IsWellFormed, joins, touches, is_pointer}

module _ (s : ℕ) (e : Env) (w : IsWellFormed e) (known : mem s e.process.states ≡ true)
    (unused : is_empty (e.heap.state s).transitions ≡ true) where
  open w use {
    states_nodup, transitions_nodup, states_below, transitions_below, named, lookup_known,
    lookup_named, start_known, end_known, keys, distinct, between_nodup, between_mem,
    at_state_nodup, at_state_mem, initial_known, initial_flag,
  }

  abbrev after : Env
  after = drop_state s e

  after-mem :
      (x : ℕ) → mem x after.process.states ≡ (if s == x then false else mem x e.process.states)
  after-mem x = mem-erase x s e.process.states states_nodup

  not-touches : (t : ℕ) → mem t e.process.transitions ≡ true → touches e.heap t s ≡ false
  not-touches t h = ground (arith, at_state_mem s t known)

  after-named :
      (x : ℕ)
      → mem x after.process.states ≡ true
      → lookup (e.heap.state x).name after.process.state_lookup ≡ some x
  after-named x h = ground (
    arith,
    after-mem x,
    named x,
    named s known,
    lookup-remove (e.heap.state s).name (e.heap.state x).name e.process.state_lookup,
    text_eq_iff (e.heap.state s).name (e.heap.state x).name,
  )

  after-lookup :
      (n : Text) (x : ℕ)
      → lookup n after.process.state_lookup ≡ some x
      → (mem x after.process.states ≡ true) × ((e.heap.state x).name ≡ n)
  after-lookup n x h = ground (
    arith,
    after-mem x,
    lookup-remove (e.heap.state s).name n e.process.state_lookup,
    text_eq_iff (e.heap.state s).name n,
    lookup_known n x,
    lookup_named n x,
  )

  after-between-mem :
      (a b t : ℕ)
      → mem t (between a b after.process.transition_lookup)
        ≡ (mem t e.process.transitions && joins e.heap t a b)
  after-between-mem a b t =
      ground
        (arith, between-delete s a b e.process.transition_lookup, between_mem a b t, not-touches t)

  after-initial :
      (x : ℕ)
      → (is_pointer after.process.initial_state x)
        ≡ (if s == x then false else is_pointer e.process.initial_state x)
  after-initial x = ground arith

  pub after-IsWellFormed : IsWellFormed after
  after-IsWellFormed = record {
    states_nodup = erase-IsNodup s _ states_nodup;
    transitions_nodup = transitions_nodup;
    states_below = λ x h. ground (arith, states_below x, after-mem x);
    transitions_below = transitions_below;
    named = after-named;
    lookup_known = λ n x h. (after-lookup n x h).0;
    lookup_named = λ n x h. (after-lookup n x h).1;
    start_known =
        λ t h. ground (arith, start_known t h, after-mem (e.heap.trans t).start, not-touches t h);
    end_known =
        λ t h. ground (arith, end_known t h, after-mem (e.heap.trans t).end, not-touches t h);
    keys = λ x. ground (arith, find-delete s x e.process.transition_lookup, keys x, after-mem x);
    distinct = delete-is_distinct s e.process.transition_lookup distinct;
    between_nodup =
        λ a b. ground (arith, between-delete s a b e.process.transition_lookup, between_nodup a b);
    between_mem = after-between-mem;
    at_state_nodup = λ x h. ground (arith, at_state_nodup x, after-mem x);
    at_state_mem = λ x t h. ground (arith, at_state_mem x t, after-mem x);
    initial_known = λ x h. ground (arith, initial_known x, after-mem x);
    initial_flag = λ x h. ground (arith, initial_flag x, after-mem x, after-initial x);
  }

-- What `RemoveState` does to a state without transitions.
pub record StateRemoved (s : ℕ) (e e' : Env) : Type 0 where
  pub well_formed : IsWellFormed e'
  pub heap : e'.heap ≡ e.heap
  pub states : e'.process.states ≡ erase s e.process.states
  pub transitions : e'.process.transitions ≡ e.process.transitions
  pub initial : e'.process.initial_state ≡ forget_initial s e.process.initial_state

-- On a well-formed process `RemoveState` of a state without transitions does not panic: the state
-- leaves the set, the initial state is kept unless it is that state, no object changes, and the
-- process is well formed again. A state of another process and one with transitions panic.
pub remove_state-StateRemoved :
    (s : ℕ) (e : Env)
    → IsWellFormed e
    → (mem s e.process.states ≡ false → remove_state s e ≡ panic unknown_state)
      × (mem s e.process.states ≡ true
          → is_empty (e.heap.state s).transitions ≡ false
          → remove_state s e ≡ panic state_in_use)
      × (mem s e.process.states ≡ true
          → is_empty (e.heap.state s).transitions ≡ true
          → (e' : Env) × (remove_state s e ≡ ok e') × StateRemoved s e e')
unfolding remove_state
remove_state-StateRemoved s e w = (
  λ unknown. rw unknown,
  λ known used. rw (known, used),
  λ known unused. (
    drop_state s e,
    rw (known, unused),
    record {
      well_formed = after-IsWellFormed s e w known unused;
      heap = refl;
      states = refl;
      transitions = refl;
      initial = refl;
    },
  ),
)
