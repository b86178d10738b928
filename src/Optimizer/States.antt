-- ===== src/Optimizer/States.antt =====
-- uppaal/optimizer/states_reducer.go: states are removed whose incoming and outgoing transitions
-- can be joined.
pub mod Visit
pub mod Correct
pub mod Paths
pub mod Bypass
pub mod Joins
pub mod Labels
use toph.Prelude.{
  text_eq, ◌>>=◌, nil_dereference, out_of_fuel, lit, is_empty, length, ◌&&◌, ◌++◌, ◌==◌, Bool, List,
  [], false, if◌then◌else◌, none, not, some, suc, true, zero, ◌||◌, ℕ, ◌∷◌, Result, Text, mem,
  some_of, panic, ok,
}
use toph.Uppaal.Location.{Location}
use toph.Uppaal.Objects.{
  State, Trans, Heap, StateType, normal, committed, urgent, incoming_transitions,
  outgoing_transitions, uses_globals, set_guard, set_guard_location, set_sync, set_sync_location,
  add_update, set_update_location, add_nail, modify_trans,
}
use toph.Uppaal.Process.{Env, remove_transition, remove_state, add_transition}
use toph.Optimizer.Transitions.{remove_all}

-- What the search of the states has seen, and what waits in its queue.
pub record Search : Type 0 where
  pub seen : List ℕ
  pub queue : List ℕ

-- The body of the loop over the outgoing transitions.
abbrev pub offer : ℕ → Search → Search
offer child s =
    if mem child s.seen
    then s
    else record { seen = s.seen ++ child ∷ []; queue = s.queue ++ child ∷ [] }

pub offer_all : Heap → List ℕ → Search → Search
offer_all h [] s = s
offer_all h (t ∷ ts) s = offer_all h ts (offer (h.trans t).end s)

-- The state of the search after `current` left the head of the queue.
abbrev pub expand : Heap → ℕ → List ℕ → List ℕ → Search
expand h current rest seen =
    offer_all h (outgoing_transitions h current) (record { seen = seen; queue = rest })

-- The loop of the search, with the states that left the queue so far. A round takes a unit of fuel.
pub search_states : ℕ → Heap → Search → List ℕ → Result (List ℕ)
unfolding offer_all
search_states zero h s sorted = elim s.queue [ [] ↦ ok sorted | _ ∷ _ ↦ panic out_of_fuel ]
search_states (suc fuel) h s sorted = elim s.queue [
  | [] ↦ ok sorted
  | current ∷ rest ↦ search_states fuel h (expand h current rest s.seen) (sorted ++ current ∷ [])
]

-- The search starts at the initial state, and reads a nil pointer where there is none. Each state
-- of the process enters the queue once at most.
pub sorted_states : Env → Result (List ℕ)
unfolding search_states
sorted_states e = elim e.process.initial_state [
  | none ↦ panic nil_dereference
  | some i ↦
      search_states (length e.process.states) e.heap (record { seen = i ∷ []; queue = i ∷ [] }) []
]

abbrev pub is_normal : StateType → Bool
is_normal normal = true
is_normal _ = false

-- The test on a transition at the state.
abbrev pub blocks : Heap → ℕ → Bool
blocks h t =
    (h.trans t).start == (h.trans t).end
    || (not (is_normal (h.state (h.trans t).start).state_type)
        || (not (is_normal (h.state (h.trans t).end).state_type)
            || not (text_eq (h.trans t).select_stmts [])))

pub record TransProps : Type 0 where
  pub has_guard : Bool
  pub has_sync : Bool
  pub has_update : Bool
  pub has_globals : Bool

abbrev has_text : Text → Bool
has_text s = not (text_eq s [])

-- `analyze` of a list of transitions: whether one has the property.
abbrev pub analyze : Heap → List ℕ → TransProps
analyze h ts = record {
  has_guard = some_of (λ t. has_text (h.trans t).guard_expr) ts;
  has_sync = some_of (λ t. has_text (h.trans t).sync_stmt) ts;
  has_update = some_of (λ t. has_text (h.trans t).update_stmts) ts;
  has_globals = some_of (λ t. uses_globals (h.trans t)) ts;
}

-- The tests on the properties of both sides under which the state stays.
abbrev pub conflicts : TransProps → TransProps → Bool
conflicts ins outs =
    ins.has_globals && outs.has_globals
    || ((ins.has_sync || ins.has_update) && outs.has_guard || ins.has_update && outs.has_sync)

-- All tests of `removeStateIfPossible`: whether the state is removed.
unfoldable pub is_removable : Heap → ℕ → Bool
is_removable h s =
    not ((h.state s).is_initial || not (is_normal (h.state s).state_type))
    && (not (some_of (blocks h) (h.state s).transitions)
        && (not (is_empty (outgoing_transitions h s))
            && not (
                conflicts (analyze h (incoming_transitions h s))
                  (analyze h (outgoing_transitions h s)))))

abbrev merge_guard : Trans → Trans → Trans → Trans
merge_guard old_in old_out t =
    if has_text old_in.guard_expr
    then (if has_text old_out.guard_expr
        then set_guard_location old_in.guard_location (
            set_guard
              (lit "("
                ++ (old_in.guard_expr ++ (lit ") && \n(" ++ (old_out.guard_expr ++ lit ")"))))
              (old_in.guard_uses_globals || old_out.guard_uses_globals) t)
        else set_guard_location old_in.guard_location
            (set_guard old_in.guard_expr old_in.guard_uses_globals t))
    else (if has_text old_out.guard_expr
        then set_guard_location old_out.guard_location
            (set_guard old_out.guard_expr old_out.guard_uses_globals t)
        else t)

abbrev merge_sync : Trans → Trans → Trans → Trans
merge_sync old_in old_out t =
    if has_text old_in.sync_stmt
    then set_sync_location old_in.sync_location (set_sync old_in.sync_stmt t)
    else (if has_text old_out.sync_stmt
        then set_sync_location old_out.sync_location (set_sync old_out.sync_stmt t)
        else t)

abbrev merge_update : Trans → Trans → Trans → Trans
merge_update old_in old_out t =
    if has_text old_in.update_stmts
    then (if has_text old_out.update_stmts
        then set_update_location old_in.update_location (
            add_update (lit "\n" ++ old_out.update_stmts) old_out.update_uses_globals
              (add_update old_in.update_stmts old_in.update_uses_globals t))
        else set_update_location old_in.update_location
            (add_update old_in.update_stmts old_in.update_uses_globals t))
    else (if has_text old_out.update_stmts
        then set_update_location old_out.update_location
            (add_update old_out.update_stmts old_out.update_uses_globals t)
        else t)

abbrev add_nails : List Location → Trans → Trans
add_nails [] t = t
add_nails (n ∷ ns) t = add_nails ns (add_nail n t)

-- The labels and nails that the new transition gets, behind the removed state's location.
pub merge : Location → Trans → Trans → Trans → Trans
merge location old_in old_out t = add_nails old_out.nails (
    add_nail location (
      add_nails old_in.nails
        (merge_update old_in old_out (merge_sync old_in old_out (merge_guard old_in old_out t)))))

-- The body of the two loops over the pairs of transitions.
pub join_pair : Location → ℕ → ℕ → Env → Result Env
unfolding merge
join_pair location i o e =
    add_transition (e.heap.trans i).start (e.heap.trans o).end e >>= λ (t, e'). ok (record e' {
      heap = modify_trans t (merge location (e'.heap.trans i) (e'.heap.trans o)) e'.heap;
    })

pub join_outs : Location → ℕ → List ℕ → Env → Result Env
unfolding join_pair
join_outs location i [] e = ok e
join_outs location i (o ∷ outs) e = join_pair location i o e >>= join_outs location i outs

pub join_all : Location → List ℕ → List ℕ → Env → Result Env
unfolding join_outs
join_all location [] outs e = ok e
join_all location (i ∷ ins) outs e = join_outs location i outs e >>= join_all location ins outs

-- The removal of the state and the new transitions.
pub bypass : ℕ → Env → Result Env
unfolding join_all remove_all remove_transition remove_state
bypass s e = remove_all (e.heap.state s).transitions e >>= λ e₁.
    remove_state s e₁
    >>= join_all (e.heap.state s).location (incoming_transitions e.heap s)
        (outgoing_transitions e.heap s)

pub remove_state_if_possible : ℕ → Env → Result Env
unfolding bypass is_removable
remove_state_if_possible s e = if is_removable e.heap s then bypass s e else ok e

pub remove_states : List ℕ → Env → Result Env
unfolding remove_state_if_possible
remove_states [] e = ok e
remove_states (s ∷ ss) e = remove_state_if_possible s e >>= remove_states ss

pub reduce_states_in_process : Env → Result Env
unfolding sorted_states remove_states
reduce_states_in_process e = sorted_states e >>= λ ss. remove_states ss e
