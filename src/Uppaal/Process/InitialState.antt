-- ===== src/Uppaal/Process/InitialState.antt =====
-- `SetInitialState` of uppaal/process.go.
use toph.Prelude.{
  ℕ, ◌≡◌, ◌∙◌, refl, Bool, true, false, Option, none, some, mem, arith, ok, panic, if◌then◌else◌,
  unknown_initial_state,
}
use toph.Uppaal.Objects.{Heap}
use toph.Uppaal.Process.{Env, is_known, flag_initial, set_initial_state}
use toph.Uppaal.Process.Invariant.{IsWellFormed, is_pointer}

-- Writing the flag of an initial state changes no other field.
flag_frame :
    (b : Bool) (o : Option ℕ) (h : Heap) (s : ℕ)
    → ((flag_initial b o h).trans ≡ h.trans)
      × ((flag_initial b o h).next_state ≡ h.next_state)
      × ((flag_initial b o h).next_trans ≡ h.next_trans)
      × (((flag_initial b o h).state s).name ≡ (h.state s).name)
      × (((flag_initial b o h).state s).transitions ≡ (h.state s).transitions)
      × (((flag_initial b o h).state s).is_initial
          ≡ (if is_pointer o s then b else (h.state s).is_initial))
flag_frame b none h s = (refl, refl, refl, refl, refl, refl)
flag_frame b (some i) h s = (refl, refl, refl, ground arith, ground arith, ground arith)

-- A pointer of a state of the process, or nil.
is_known-mem :
    (o : Option ℕ) (e : Env) (s : ℕ)
    → is_known o e.process ≡ true
    → o ≡ some s
    → mem s e.process.states ≡ true
is_known-mem none e s k h = cc
is_known-mem (some i) e s k h = ground arith

module _ (state : Option ℕ) (e : Env) (w : IsWellFormed e)
    (known : is_known state e.process ≡ true) where
  open w use {
    states_nodup, transitions_nodup, states_below, transitions_below, named, lookup_known,
    lookup_named, start_known, end_known, keys, distinct, between_nodup, between_mem,
    at_state_nodup, at_state_mem, initial_known, initial_flag,
  }

  abbrev cleared : Heap
  cleared = flag_initial false e.process.initial_state e.heap

  abbrev after : Env
  after = record {
    heap = flag_initial true state cleared;
    process = record (e.process) { initial_state = state };
  }

  same_name : (s : ℕ) → (after.heap.state s).name ≡ (e.heap.state s).name
  same_name s =
      (flag_frame true state cleared s).3 ∙ (flag_frame false e.process.initial_state e.heap s).3

  trans-Sameitions : (s : ℕ) → (after.heap.state s).transitions ≡ (e.heap.state s).transitions
  trans-Sameitions s =
      (flag_frame true state cleared s).4 ∙ (flag_frame false e.process.initial_state e.heap s).4

  trans-Same : after.heap.trans ≡ e.heap.trans
  trans-Same =
      (flag_frame true state cleared 0).0 ∙ (flag_frame false e.process.initial_state e.heap 0).0

  flags :
      (s : ℕ)
      → (after.heap.state s).is_initial ≡ (
          if is_pointer state s
          then true
          else (if is_pointer e.process.initial_state s
              then false
              else (e.heap.state s).is_initial))
  flags s = ground (
    arith,
    (flag_frame true state cleared s).5,
    (flag_frame false e.process.initial_state e.heap s).5,
  )

  same_next :
      (after.heap.next_state ≡ e.heap.next_state) × (after.heap.next_trans ≡ e.heap.next_trans)
  same_next =
      let p = flag_frame true state cleared 0 in
      let q = flag_frame false e.process.initial_state e.heap 0 in (p.1 ∙ q.1, p.2 ∙ q.2)

  pub after-IsWellFormed : IsWellFormed after
  after-IsWellFormed = record {
    states_nodup = states_nodup;
    transitions_nodup = transitions_nodup;
    states_below = λ s h. rw (same_next.0) (states_below s h);
    transitions_below = λ t h. rw (same_next.1) (transitions_below t h);
    named = λ s h. rw (same_name s) (named s h);
    lookup_known = lookup_known;
    lookup_named = λ n s h. same_name s ∙ lookup_named n s h;
    start_known = λ t h. rw trans-Same (start_known t h);
    end_known = λ t h. rw trans-Same (end_known t h);
    keys = keys;
    distinct = distinct;
    between_nodup = between_nodup;
    between_mem = λ a b t. rw trans-Same (between_mem a b t);
    at_state_nodup = λ s h. rw (trans-Sameitions s) (at_state_nodup s h);
    at_state_mem = λ s t h. rw (trans-Sameitions s, trans-Same) (at_state_mem s t h);
    initial_known = λ s h. is_known-mem state e s known h;
    initial_flag = λ s h. ground (arith, flags s, initial_flag s h);
  }

-- `SetInitialState` to nil or to a state of a well-formed process does not panic. The pointer is
-- the given one, exactly the state that it points to has its flag set among the states of the
-- process, which stay, and the process is well formed again. Any other state makes it panic.
pub set_initial_state-IsWellFormed :
    (state : Option ℕ) (e : Env)
    → IsWellFormed e
    → (is_known state e.process ≡ false → set_initial_state state e ≡ panic unknown_initial_state)
      × (is_known state e.process ≡ true
          → (e' : Env) × (set_initial_state state e ≡ ok e')
            × IsWellFormed e'
            × (e'.process.initial_state ≡ state)
            × (e'.process.states ≡ e.process.states)
            × ((s : ℕ)
                → mem s e.process.states ≡ true
                → (e'.heap.state s).is_initial ≡ is_pointer state s))
unfolding set_initial_state
set_initial_state-IsWellFormed state e w = (
  λ unknown. rw unknown,
  λ known.
      let well = after-IsWellFormed state e w known in
      (after state e w known, rw known, well, refl, refl, well.initial_flag),
)
