-- ===== src/Uppaal/System/Names.antt =====
-- The names of processes and instances: the invariant of AddProcess and AddProcessInstance.
use mathlib.Core.Logic.{◌≢◌}
use toph.Prelude.{
  Text, ok, ◌++◌, ◌<◌, All, List, [], arith, false, if◌then◌else◌, insert, is_some, lookup, refl,
  some, text_eq, ℕ, ◌∷◌, ◌≡◌, All-map, lookup-insert, suc, text_eq_iff, true, ◌||◌, panic,
  name_collision,
}
use toph.Uppaal.Process.{Process, new_process}
use toph.Uppaal.System.{
  System, ProcessInstance, new_system, add_process, add_process_instance, values,
  new_process_instance, insert_process, insert_instance,
}

-- An instance that the map holds under its name, of a process that the other map holds.
abbrev pub IsEntry : System → ProcessInstance → Type 0
IsEntry s i =
    (lookup i.name s.instances ≡ some i)
    × (lookup (s.process_at i.proc).name s.processes ≡ some i.proc)

pub record IsConsistent (s : System) : Type 0 where
  pub named : (k : Text) (p : ℕ) → lookup k s.processes ≡ some p → (s.process_at p).name ≡ k
  pub below : (k : Text) (p : ℕ) → lookup k s.processes ≡ some p → p < s.next_process
  pub entries : All (IsEntry s) (values s.instances)

pub new_system-IsConsistent : (f : ℕ → Process) (n : ℕ) → IsConsistent (new_system f n)
unfolding new_system
new_system-IsConsistent f n = record { named = λ k p h. cc; below = λ k p h. cc; entries = tt }

values-insert :
    {V : Type 0} (k : Text) (v : V) (m : List (Text × V))
    → is_some (lookup k m) ≡ false
    → values (insert k v m) ≡ values m ++ v ∷ []
values-insert k v [] h = refl
values-insert k v ((j, w) ∷ m) h = ground (arith, values-insert k v m)

All-append : {A : Type 0} (P : A → Type 0) (xs ys : List A) → All P xs → All P ys → All P (xs ++ ys)
All-append P [] ys h g = g
All-append P (x ∷ xs) ys h g = (h.0, All-append P xs ys h.1 g)

insert_process-named :
    (name : Text) (s : System) (k : Text) (p : ℕ)
    → IsConsistent s
    → is_some (lookup name s.processes) ≡ false
    → lookup k (insert_process name s).processes ≡ some p
    → (((insert_process name s).process_at p).name ≡ k) × (p < suc s.next_process)
unfolding new_process
insert_process-named name s k p w free e = ground (
  arith,
  lookup-insert name k s.next_process s.processes,
  text_eq_iff name k,
  w.named k p,
  w.below k p,
)

insert_process-IsEntry :
    (name : Text) (s : System) (i : ProcessInstance)
    → IsConsistent s
    → is_some (lookup name s.processes) ≡ false
    → IsEntry s i
    → IsEntry (insert_process name s) i
insert_process-IsEntry name s i w free (a, b) =
    let old : i.proc < s.next_process = w.below (s.process_at i.proc).name i.proc b in
    (
      a,
      ground (
        arith,
        lookup-insert name (s.process_at i.proc).name s.next_process s.processes,
        text_eq_iff name (s.process_at i.proc).name,
      ),
    )

insert_process-IsConsistent :
    (name : Text) (s : System)
    → IsConsistent s
    → is_some (lookup name s.processes) ≡ false
    → IsConsistent (insert_process name s)
insert_process-IsConsistent name s w free = record {
  named = λ k p h. (insert_process-named name s k p w free h).0;
  below = λ k p h. (insert_process-named name s k p w free h).1;
  entries =
      All-map (IsEntry s) (IsEntry (insert_process name s)) (values s.instances)
        (λ i. insert_process-IsEntry name s i w free) w.entries;
}

-- `AddProcess` panics exactly where a process or an instance of the name exists. Otherwise it gives
-- a process of the name that no name stood for before, adds it to the map and keeps the rest, and
-- the names of the system stay consistent.
pub add_process_lem :
    (name : Text) (s : System)
    → IsConsistent s
    → ((is_some (lookup name s.processes) || is_some (lookup name s.instances)) ≡ true
        → add_process name s ≡ panic name_collision)
      × ((is_some (lookup name s.processes) || is_some (lookup name s.instances)) ≡ false
          → (p : ℕ) × (t : System) × (add_process name s ≡ ok (p, t))
            × IsConsistent t
            × ((t.process_at p).name ≡ name)
            × ((k : Text) → lookup k s.processes ≢ some p)
            × ((k : Text)
                → lookup k t.processes ≡ (if text_eq name k then some p else lookup k s.processes))
            × (t.instances ≡ s.instances))
unfolding add_process new_process
add_process_lem name s w = (
  λ taken. ground (arith, taken),
  λ free. (
    s.next_process,
    insert_process name s,
    ground (arith, free),
    insert_process-IsConsistent name s w (ground (arith, free)),
    ground arith,
    λ k h. (ground (arith, w.below k s.next_process h)),
    λ k. lookup-insert name k s.next_process s.processes,
    refl,
  ),
)

insert_instance-IsEntry :
    (proc : ℕ) (name : Text) (s : System) (i : ProcessInstance)
    → is_some (lookup name s.instances) ≡ false
    → IsEntry s i
    → IsEntry (insert_instance proc name s) i
insert_instance-IsEntry proc name s i free (a, b) = (
  ground (
    arith,
    lookup-insert name i.name (new_process_instance proc name) s.instances,
    text_eq_iff name i.name,
  ),
  b,
)

insert_instance-IsConsistent :
    (proc : ℕ) (name : Text) (s : System)
    → IsConsistent s
    → lookup (s.process_at proc).name s.processes ≡ some proc
    → is_some (lookup name s.instances) ≡ false
    → IsConsistent (insert_instance proc name s)
insert_instance-IsConsistent proc name s w known free = record {
  named = w.named;
  below = w.below;
  entries = rw (values-insert name (new_process_instance proc name) s.instances free) (
      All-append (IsEntry (insert_instance proc name s)) (values s.instances)
        (new_process_instance proc name ∷ [])
        (All-map (IsEntry s) (IsEntry (insert_instance proc name s)) (values s.instances)
          (λ i. insert_instance-IsEntry proc name s i free) w.entries)
        (
          (
            ground (
              arith,
              lookup-insert name name (new_process_instance proc name) s.instances,
              text_eq_iff name name,
            ),
            known,
          ),
          tt,
        ));
}

-- `AddProcessInstance` of a process of the system panics exactly where an instance of the name
-- exists. A process of the name is no obstacle. Otherwise it gives an instance of the name and the
-- process, adds it to the map and keeps the rest, and the names of the system stay consistent.
pub add_process_instance_lem :
    (proc : ℕ) (name : Text) (s : System)
    → IsConsistent s
    → lookup (s.process_at proc).name s.processes ≡ some proc
    → (is_some (lookup name s.instances) ≡ true
        → add_process_instance proc name s ≡ panic name_collision)
      × (is_some (lookup name s.instances) ≡ false
          → (i : ProcessInstance) × (t : System) × (add_process_instance proc name s ≡ ok (i, t))
            × IsConsistent t
            × (i.name ≡ name)
            × (i.proc ≡ proc)
            × ((k : Text)
                → lookup k t.instances ≡ (if text_eq name k then some i else lookup k s.instances))
            × (t.processes ≡ s.processes))
unfolding add_process_instance
add_process_instance_lem proc name s w known = (
  λ taken. ground (arith, taken),
  λ free. (
    new_process_instance proc name,
    insert_instance proc name s,
    ground (arith, free, known),
    insert_instance-IsConsistent proc name s w known free,
    refl,
    refl,
    λ k. lookup-insert name k (new_process_instance proc name) s.instances,
    refl,
  ),
)
