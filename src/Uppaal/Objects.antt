-- ===== src/Uppaal/Objects.antt =====
-- uppaal/state.go and uppaal/transition.go: the objects of a process. A pointer is a number, and
-- the heap maps it to the object's fields; an object that left its process keeps its fields.
use toph.Prelude.{
  ℕ, ◌==◌, Bool, false, ◌||◌, not, List, [], ◌∷◌, ◌++◌, Text, lit, text_eq, keep, if◌then◌else◌,
}
use toph.Uppaal.Location
use toph.Uppaal.Location.{Location, origin, point}

pub data StateType : Type 0 where
  normal committed urgent : StateType

-- Field `transitions` holds the pointers of the transitions that begin or end at the state.
pub record State : Type 0 where
  pub name : Text
  pub is_initial : Bool
  pub state_type : StateType
  pub comment : Text
  pub transitions : List ℕ
  pub location : Location
  pub name_location : Location
  pub comment_location : Location

-- `start` and `end` are pointers of states.
pub record Trans : Type 0 where
  pub start : ℕ
  pub end : ℕ
  pub select_stmts : Text
  pub guard_expr : Text
  pub guard_uses_globals : Bool
  pub sync_stmt : Text
  pub update_stmts : Text
  pub update_uses_globals : Bool
  pub nails : List Location
  pub select_location : Location
  pub guard_location : Location
  pub sync_location : Location
  pub update_location : Location

-- The pointers below `next_state` and `next_trans` are allocated.
pub record Heap : Type 0 where
  pub state : ℕ → State
  pub trans : ℕ → Trans
  pub next_state : ℕ
  pub next_trans : ℕ

-- A write through one pointer.
abbrev pub update {ℓ} : {A : Type ℓ} → (ℕ → A) → ℕ → A → ℕ → A
update f p v q = if p == q then v else f q

abbrev pub modify_state : ℕ → (State → State) → Heap → Heap
modify_state s f h = record h { state = update h.state s (f (h.state s)) }

abbrev pub modify_trans : ℕ → (Trans → Trans) → Heap → Heap
modify_trans t f h = record h { trans = update h.trans t (f (h.trans t)) }

abbrev pub new_state : Text → State
new_state name = record {
  name = name;
  is_initial = false;
  state_type = normal;
  comment = [];
  transitions = [];
  location = origin;
  name_location = origin;
  comment_location = origin;
}

abbrev pub new_trans : ℕ → ℕ → Trans
new_trans start end = record {
  start = start;
  end = end;
  select_stmts = [];
  guard_expr = [];
  guard_uses_globals = false;
  sync_stmt = [];
  update_stmts = [];
  update_uses_globals = false;
  nails = [];
  select_location = origin;
  guard_location = origin;
  sync_location = origin;
  update_location = origin;
}

-- The setters, on the fields of the object.
abbrev pub set_type : StateType → State → State
set_type t s = record s { state_type = t }

abbrev pub set_comment : Text → State → State
set_comment comment s = record s { comment = comment }

abbrev pub set_location : Location → State → State
set_location location s = record s { location = location }

abbrev pub set_name_location : Location → State → State
set_name_location location s = record s { name_location = location }

abbrev pub set_comment_location : Location → State → State
set_comment_location location s = record s { comment_location = location }

unfoldable pub set_location_and_reset_name_and_comment_location : Location → State → State
set_location_and_reset_name_and_comment_location location s = record s {
  location = location;
  name_location = Location.add location (point 4 16);
  comment_location = Location.add location (point 4 34);
}

abbrev pub incoming_transitions : Heap → ℕ → List ℕ
incoming_transitions h s = keep (λ t. (h.trans t).end == s) (h.state s).transitions

abbrev pub outgoing_transitions : Heap → ℕ → List ℕ
outgoing_transitions h s = keep (λ t. (h.trans t).start == s) (h.state s).transitions

-- What `AddSelect` and `AddUpdate` do to the statements.
abbrev add_stmt : Text → Text → Text
add_stmt stmts stmt = if text_eq stmts [] then stmt else stmts ++ (lit ", " ++ stmt)

abbrev pub add_select : Text → Trans → Trans
add_select stmt t = record t { select_stmts = add_stmt t.select_stmts stmt }

abbrev pub set_guard : Text → Bool → Trans → Trans
set_guard guard uses_globals t = record t { guard_expr = guard; guard_uses_globals = uses_globals }

abbrev pub set_sync : Text → Trans → Trans
set_sync sync t = record t { sync_stmt = sync }

abbrev pub add_update : Text → Bool → Trans → Trans
add_update stmt uses_globals t = record t {
  update_stmts = add_stmt t.update_stmts stmt;
  update_uses_globals = t.update_uses_globals || uses_globals;
}

abbrev pub uses_globals : Trans → Bool
uses_globals t = t.guard_uses_globals || not (text_eq t.sync_stmt []) || t.update_uses_globals

abbrev pub add_nail : Location → Trans → Trans
add_nail nail t = record t { nails = t.nails ++ nail ∷ [] }

abbrev pub set_select_location : Location → Trans → Trans
set_select_location location t = record t { select_location = location }

abbrev pub set_guard_location : Location → Trans → Trans
set_guard_location location t = record t { guard_location = location }

abbrev pub set_sync_location : Location → Trans → Trans
set_sync_location location t = record t { sync_location = location }

abbrev pub set_update_location : Location → Trans → Trans
set_update_location location t = record t { update_location = location }
