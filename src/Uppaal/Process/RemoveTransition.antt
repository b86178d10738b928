-- ===== src/Uppaal/Process/RemoveTransition.antt =====
-- `RemoveTransition` of uppaal/process.go.
use toph.Prelude.{
  ℕ, ◌≡◌, ◌==◌, refl, true, false, List, ◌&&◌, ◌∙◌, mem, erase, IsNodup, arith, ok, panic,
  mem-erase, erase-IsNodup, if◌then◌else◌, unknown_transition,
}
use toph.Uppaal.Process.{Env, between, erase_between, unlink, forget_transition, remove_transition}
use toph.Uppaal.Process.Lookup.{
  erase_between-is_distinct, erase_between_ok, between-erase-between, key-erase_between,
}
use toph.Uppaal.Process.Invariant.{IsWellFormed, joins, touches}

module _ (t : ℕ) (e : Env) (w : IsWellFormed e) (known : mem t e.process.transitions ≡ true)
    (m : List (ℕ × List (ℕ × List ℕ)))
    (erased : erase_between t
        (e.heap.trans t).start
        (e.heap.trans t).end
        e.process.transition_lookup
      ≡ ok m) where
  open w use {
    states_nodup, transitions_nodup, states_below, transitions_below, named, lookup_known,
    lookup_named, start_known, end_known, keys, distinct, between_nodup, between_mem,
    at_state_nodup, at_state_mem, initial_known, initial_flag,
  }

  abbrev after : Env
  after = record { heap = unlink t e.heap; process = forget_transition t m e.process }

  after-mem :
      (u : ℕ)
      → mem u after.process.transitions ≡ (if t == u then false else mem u e.process.transitions)
  after-mem u = mem-erase u t e.process.transitions transitions_nodup

  after-between-mem :
      (a b u : ℕ)
      → mem u (between a b m) ≡ (mem u (erase t e.process.transitions) && joins after.heap u a b)
  after-between-mem a b u = ground (
    arith,
    between-erase-between t (e.heap.trans t).start (e.heap.trans t).end e.process.transition_lookup
        erased a b,
    after-mem u,
    mem-erase u t (between a b e.process.transition_lookup) (between_nodup a b),
    between_mem a b u,
  )

  after-between-IsNodup : (a b : ℕ) → IsNodup (between a b m)
  after-between-IsNodup a b = ground (
    arith,
    between-erase-between t (e.heap.trans t).start (e.heap.trans t).end e.process.transition_lookup
        erased a b,
    erase-IsNodup t (between a b e.process.transition_lookup),
    between_nodup a b,
  )

  after-at_state-IsNodup :
      (s : ℕ) → mem s e.process.states ≡ true → IsNodup (after.heap.state s).transitions
  after-at_state-IsNodup s h = ground (
    arith,
    erase-IsNodup t (e.heap.state s).transitions,
    erase-IsNodup t (erase t (e.heap.state s).transitions),
    at_state_nodup s h,
  )

  after-at_state_mem :
      (s u : ℕ)
      → mem s e.process.states ≡ true
      → mem u (after.heap.state s).transitions
        ≡ (mem u (erase t e.process.transitions) && touches after.heap u s)
  after-at_state_mem s u h = ground (
    arith,
    after-mem u,
    mem-erase u t (e.heap.state s).transitions,
    erase-IsNodup t (e.heap.state s).transitions,
    mem-erase u t (erase t (e.heap.state s).transitions),
    at_state_nodup s h,
    at_state_mem s u h,
  )

  pub after-IsWellFormed : IsWellFormed after
  after-IsWellFormed = record {
    states_nodup = states_nodup;
    transitions_nodup = erase-IsNodup t _ transitions_nodup;
    states_below = λ s h. ground (arith, states_below s);
    transitions_below = λ u h. ground (arith, transitions_below u, after-mem u);
    named = λ s h. ground (arith, named s);
    lookup_known = lookup_known;
    lookup_named = λ n s h. ground (arith, lookup_named n s);
    start_known = λ u h. ground (arith, start_known u, after-mem u);
    end_known = λ u h. ground (arith, end_known u, after-mem u);
    keys = λ s. key-erase_between t _ _ _ erased s ∙ keys s;
    distinct =
        erase_between-is_distinct t (e.heap.trans t).start (e.heap.trans t).end
          e.process.transition_lookup erased distinct;
    between_nodup = after-between-IsNodup;
    between_mem = after-between-mem;
    at_state_nodup = after-at_state-IsNodup;
    at_state_mem = after-at_state_mem;
    initial_known = initial_known;
    initial_flag = λ s h. ground (arith, initial_flag s);
  }

-- What `RemoveTransition` does to a transition of the process. The objects of all transitions,
-- that of the removed one too, stay as they are.
pub record Removed (t : ℕ) (e e' : Env) : Type 0 where
  pub well_formed : IsWellFormed e'
  pub objects : e'.heap.trans ≡ e.heap.trans
  pub next : e'.heap.next_trans ≡ e.heap.next_trans
  pub transitions : e'.process.transitions ≡ erase t e.process.transitions
  pub states : e'.process.states ≡ e.process.states
  pub initial : e'.process.initial_state ≡ e.process.initial_state

-- On a well-formed process, `RemoveTransition` of a transition of its set does not panic. The set
-- loses that transition alone, states, initial state and the objects stay, and the process is
-- well formed again. Any other transition makes it panic.
pub remove_transition-Removed :
    (t : ℕ) (e : Env)
    → IsWellFormed e
    → (mem t e.process.transitions ≡ true
        → (e' : Env) × (remove_transition t e ≡ ok e') × Removed t e e')
      × (mem t e.process.transitions ≡ false → remove_transition t e ≡ panic unknown_transition)
unfolding remove_transition
remove_transition-Removed t e w = (
  λ known.
      let (m, erased) =
        erase_between_ok t (e.heap.trans t).start (e.heap.trans t).end
          e.process.transition_lookup in
      (
        after t e w known m erased,
        rw (known, erased),
        record {
          well_formed = after-IsWellFormed t e w known m erased;
          objects = refl;
          next = refl;
          transitions = refl;
          states = refl;
          initial = refl;
        },
      ),
  λ unknown. rw unknown,
)
