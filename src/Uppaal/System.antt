-- ===== src/Uppaal/System.antt =====
-- uppaal/system.go and uppaal/process_instance.go: a system of processes and process instances.
-- A process is reached by a pointer, whose object changes after it was added.
pub mod Print
pub mod Queries
pub mod Names
pub mod Sorting
use toph.Prelude.{
  lookup, insert, is_some, text_eq, lit, join, name_collision, unknown_process, ◌&&◌, ◌++◌, ◌==◌,
  Bool, List, Result, Text, [], false, if◌then◌else◌, is_empty, ltb, suc, true, ◌||◌, ℕ, ◌∷◌, panic,
  ok,
}
use toph.Uppaal.Declarations.{Declarations, init_declarations}
use toph.Uppaal.Query.{Query}
use toph.Uppaal.Process.{Process, new_process}

-- Field `proc` is a pointer of a process.
pub record ProcessInstance : Type 0 where
  pub proc : ℕ
  pub name : Text
  pub params : List Text

-- The pointers of processes below `next_process` are allocated.
pub record System : Type 0 where
  pub decls : Declarations
  pub processes : List (Text × ℕ)
  pub instances : List (Text × ProcessInstance)
  pub progress_measures : List Text
  pub queries : List Query
  pub process_at : ℕ → Process
  pub next_process : ℕ

abbrev pub new_process_instance : ℕ → Text → ProcessInstance
new_process_instance proc name = record { proc = proc; name = name; params = [] }

abbrev pub add_instance_parameter : Text → ProcessInstance → ProcessInstance
add_instance_parameter param i = record i { params = i.params ++ param ∷ [] }

abbrev pub can_skip_declaration : System → ProcessInstance → Bool
can_skip_declaration s i = text_eq (s.process_at i.proc).name i.name && is_empty i.params

unfoldable pub instance_xta : System → ProcessInstance → Text
unfolding join
instance_xta s i =
    i.name
    ++ (lit " = "
        ++ ((s.process_at i.proc).name ++ (lit "(" ++ (join (lit ", ") i.params ++ lit ");"))))

unfoldable pub new_system : (ℕ → Process) → ℕ → System
new_system process_at next_process = record {
  decls = init_declarations (lit "Place global declarations here.");
  processes = [];
  instances = [];
  progress_measures = [];
  queries = [];
  process_at = process_at;
  next_process = next_process;
}

abbrev pub insert_process : Text → System → System
insert_process name s = record s {
  processes = insert name s.next_process s.processes;
  process_at = λ p. if s.next_process == p then new_process name else s.process_at p;
  next_process = suc s.next_process;
}

unfoldable pub add_process : Text → System → Result (ℕ × System)
add_process name s =
    if is_some (lookup name s.processes) || is_some (lookup name s.instances)
    then panic name_collision
    else ok (s.next_process, insert_process name s)

abbrev pub insert_instance : ℕ → Text → System → System
insert_instance proc name s = record s {
  instances = insert name (new_process_instance proc name) s.instances;
}

unfoldable pub add_process_instance : ℕ → Text → System → Result (ProcessInstance × System)
add_process_instance proc name s =
    if is_some (lookup name s.instances)
    then panic name_collision
    else (if is_some (lookup (s.process_at proc).name s.processes)
        then ok (new_process_instance proc name, insert_instance proc name s)
        else panic unknown_process)

abbrev pub add_progress_measure : Text → System → System
add_progress_measure measure s = record s {
  progress_measures = s.progress_measures ++ measure ∷ [];
}

abbrev pub add_query : Query → System → System
add_query query s = record s { queries = s.queries ++ query ∷ [] }

-- Go's `<` of strings.
abbrev pub text_lt : Text → Text → Bool
text_lt [] [] = false
text_lt [] (y ∷ ys) = true
text_lt (x ∷ xs) [] = false
text_lt (x ∷ xs) (y ∷ ys) = ltb x y || x == y && text_lt xs ys

-- `sort.Slice` by a name that the elements have.
module _ {A : Type 0} (name : A → Text) where
  unfoldable pub insert_sorted : A → List A → List A
  insert_sorted a [] = a ∷ []
  insert_sorted a (b ∷ bs) =
      if text_lt (name b) (name a) then b ∷ insert_sorted a bs else a ∷ b ∷ bs

  unfoldable pub sort_by : List A → List A
  unfolding insert_sorted
  sort_by [] = []
  sort_by (a ∷ as_) = insert_sorted a (sort_by as_)

abbrev pub values {ℓ} : {V : Type ℓ} → List (Text × V) → List V
values [] = []
values ((_, v) ∷ m) = v ∷ values m

unfoldable pub sorted_processes : System → List ℕ
unfolding sort_by
sorted_processes s = sort_by (λ p. (s.process_at p).name) (values s.processes)

unfoldable pub sorted_instances : System → List ProcessInstance
unfolding sort_by
sorted_instances s = sort_by (λ i. i.name) (values s.instances)
