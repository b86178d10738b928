-- ===== src/Uppaal/Process/AddTransition.antt =====
-- `AddTransition` of uppaal/process.go.
use toph.Prelude.{
  ℕ, ◌≡◌, refl, true, false, List, [], ◌∷◌, ◌++◌, ◌&&◌, ◌∙◌, mem, IsNodup, arith, ok, panic,
  mem-append, append-IsNodup, unknown_start, unknown_end, suc, ◌≢◌,
}
use toph.Uppaal.Objects.{new_trans}
use toph.Uppaal.Process.{Env, between, set_between, link, record_transition, add_transition}
use toph.Uppaal.Process.Lookup.{
  set_between-is_distinct, set_between_ok, between-set_between, key-set_between,
}
use toph.Uppaal.Process.Invariant.{IsWellFormed, joins, touches}

module _ (start end : ℕ) (e : Env) (w : IsWellFormed e)
    (known_start : mem start e.process.states ≡ true) (known_end : mem end e.process.states ≡ true)
    (m : List (ℕ × List (ℕ × List ℕ)))
    (placed : set_between start end
        (between start end e.process.transition_lookup ++ e.heap.next_trans ∷ [])
        e.process.transition_lookup
      ≡ ok m) where
  open w use {
    states_nodup, transitions_nodup, states_below, transitions_below, named, lookup_known,
    lookup_named, start_known, end_known, keys, distinct, between_nodup, between_mem,
    at_state_nodup, at_state_mem, initial_known, initial_flag,
  }

  abbrev after : Env
  after = record {
    heap = link start end e.heap;
    process = record_transition e.heap.next_trans m e.process;
  }

  abbrev fresh : ℕ
  fresh = e.heap.next_trans

  fresh-unknown : mem fresh e.process.transitions ≡ false
  fresh-unknown = ground (arith, transitions_below fresh)

  after-between-mem :
      (a b t : ℕ)
      → mem t (between a b m)
        ≡ (mem t (e.process.transitions ++ fresh ∷ []) && joins after.heap t a b)
  after-between-mem a b t = ground (
    arith,
    between-set_between start end _ _ placed a b,
    mem-append t e.process.transitions (fresh ∷ []),
    mem-append t (between a b e.process.transition_lookup) (fresh ∷ []),
    between_mem a b t,
    fresh-unknown,
  )

  after-between-IsNodup : (a b : ℕ) → IsNodup (between a b m)
  after-between-IsNodup a b = ground (
    arith,
    between-set_between start end _ _ placed a b,
    append-IsNodup fresh (between a b e.process.transition_lookup),
    between_nodup a b,
    between_mem a b fresh,
    fresh-unknown,
  )

  after-at_state-IsNodup :
      (s : ℕ) → mem s e.process.states ≡ true → IsNodup (after.heap.state s).transitions
  after-at_state-IsNodup s h = ground (
    arith,
    append-IsNodup fresh (e.heap.state s).transitions,
    at_state_nodup s h,
    at_state_mem s fresh h,
    fresh-unknown,
  )

  after-at_state_mem :
      (s t : ℕ)
      → mem s e.process.states ≡ true
      → mem t (after.heap.state s).transitions
        ≡ (mem t (e.process.transitions ++ fresh ∷ []) && touches after.heap t s)
  after-at_state_mem s t h = ground (
    arith,
    mem-append t e.process.transitions (fresh ∷ []),
    mem-append t (e.heap.state s).transitions (fresh ∷ []),
    at_state_mem s t h,
    fresh-unknown,
  )

  pub after-IsWellFormed : IsWellFormed after
  after-IsWellFormed = record {
    states_nodup = states_nodup;
    transitions_nodup = append-IsNodup fresh _ transitions_nodup fresh-unknown;
    states_below = λ s h. ground (arith, states_below s);
    transitions_below =
        λ t h. ground (arith, transitions_below t, mem-append t e.process.transitions (fresh ∷ []));
    named = λ s h. ground (arith, named s);
    lookup_known = lookup_known;
    lookup_named = λ n s h. ground (arith, lookup_named n s);
    start_known =
        λ t h. ground (arith, start_known t, mem-append t e.process.transitions (fresh ∷ []));
    end_known = λ t h. ground (arith, end_known t, mem-append t e.process.transitions (fresh ∷ []));
    keys = λ s. key-set_between start end _ _ placed s ∙ keys s;
    distinct = set_between-is_distinct start end _ _ placed distinct;
    between_nodup = after-between-IsNodup;
    between_mem = after-between-mem;
    at_state_nodup = after-at_state-IsNodup;
    at_state_mem = after-at_state_mem;
    initial_known = initial_known;
    initial_flag = λ s h. ground (arith, initial_flag s);
  }

-- What `AddTransition` does where both states are known.
pub record Added (start end : ℕ) (e e' : Env) : Type 0 where
  pub well_formed : IsWellFormed e'
  pub object : e'.heap.trans e.heap.next_trans ≡ new_trans start end
  pub transitions : e'.process.transitions ≡ e.process.transitions ++ e.heap.next_trans ∷ []
  pub states : e'.process.states ≡ e.process.states
  pub initial : e'.process.initial_state ≡ e.process.initial_state
  pub next : e'.heap.next_trans ≡ suc e.heap.next_trans
  pub others : (t : ℕ) → t ≢ e.heap.next_trans → e'.heap.trans t ≡ e.heap.trans t

-- On a well-formed process whose set of states holds both states, `AddTransition` does not panic.
-- It returns a pointer that was not in use, the new object joins the two states and has no label,
-- every other object of a transition and the states stay, and the process is well formed again.
pub add_transition-Added :
    (start end : ℕ) (e : Env)
    → IsWellFormed e
    → mem start e.process.states ≡ true
    → mem end e.process.states ≡ true
    → (e' : Env) × (add_transition start end e ≡ ok (e.heap.next_trans, e')) × Added start end e e'
unfolding add_transition
add_transition-Added start end e w ks ke =
    let t = e.heap.next_trans in
    let (m, placed) =
      set_between_ok start end (between start end e.process.transition_lookup ++ t ∷ [])
        e.process.transition_lookup (w.keys start ∙ ks) in
    (
      after start end e w ks ke m placed,
      ground (arith, placed),
      record {
        well_formed = after-IsWellFormed start end e w ks ke m placed;
        object = ground arith;
        transitions = refl;
        states = refl;
        initial = refl;
        next = ground arith;
        others = λ u h. ground arith;
      },
    )

-- With an unknown start state, or else with an unknown end state, `AddTransition` panics so.
pub add_transition_panics :
    (start end : ℕ) (e : Env)
    → (mem start e.process.states ≡ false → add_transition start end e ≡ panic unknown_start)
      × (mem start e.process.states ≡ true
          → mem end e.process.states ≡ false
          → add_transition start end e ≡ panic unknown_end)
unfolding add_transition
add_transition_panics start end e = (λ h. rw h, λ h k. rw (h, k))
