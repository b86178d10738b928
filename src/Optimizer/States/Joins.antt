-- ===== src/Optimizer/States/Joins.antt =====
-- The loops of the reducer that add a joined transition for each pair.
use toph.Prelude.{
  mem-append, get_elem?, length, ◌>>=◌, ◌++◌, List, Result, [], ap, arith, refl, ℕ, ◌∷◌, ◌≡◌, ok,
  ◌&&◌, ◌+◌, ◌<◌, >>=_assoc, leb, ltb, mem, some, sym, true, ◌||◌, ◌∙◌, All, suc, zero,
  All-get_elem?, All-map,
}
use mathlib.Core.Path.{fun_ext}
use toph.Uppaal.Location.{Location}
use toph.Uppaal.Objects.{Trans, new_trans, modify_trans}
use toph.Uppaal.Process.{Env}
use toph.Optimizer.States.{join_outs, join_all, join_pair, merge}
use toph.Uppaal.Process.Invariant.{IsWellFormed}
use toph.Uppaal.Process.AddTransition.{Added, add_transition-Added}
use toph.Optimizer.States.Labels.{Merged, merge-Merged}

-- The pairs in the order of the loops.
abbrev pub pairs_of : ℕ → List ℕ → List (ℕ × ℕ)
pairs_of i [] = []
pairs_of i (o ∷ outs) = (i, o) ∷ pairs_of i outs

abbrev pub pairs : List ℕ → List ℕ → List (ℕ × ℕ)
pairs [] outs = []
pairs (i ∷ ins) outs = pairs_of i outs ++ pairs ins outs

-- A change of a transition that leaves its ends alone keeps a process well formed.
modify_trans-IsWellFormed :
    (t : ℕ) (f : Trans → Trans) (e : Env)
    → (f (e.heap.trans t)).start ≡ (e.heap.trans t).start
    → (f (e.heap.trans t)).end ≡ (e.heap.trans t).end
    → IsWellFormed e
    → IsWellFormed (record e { heap = modify_trans t f e.heap })
modify_trans-IsWellFormed t f e p q w = record {
  states_nodup = w.states_nodup;
  transitions_nodup = w.transitions_nodup;
  states_below = w.states_below;
  transitions_below = w.transitions_below;
  named = w.named;
  lookup_known = w.lookup_known;
  lookup_named = w.lookup_named;
  start_known = λ u h. ground (arith, w.start_known u h);
  end_known = λ u h. ground (arith, w.end_known u h);
  keys = w.keys;
  distinct = w.distinct;
  between_nodup = w.between_nodup;
  between_mem = λ a b u. ground (arith, w.between_mem a b u);
  at_state_nodup = w.at_state_nodup;
  at_state_mem = λ s u h. ground (arith, w.at_state_mem s u h);
  initial_known = w.initial_known;
  initial_flag = w.initial_flag;
}

module _ (location : Location) where
  pub join_pairs : List (ℕ × ℕ) → Env → Result Env
  join_pairs [] e = ok e
  join_pairs ((i, o) ∷ ps) e = join_pair location i o e >>= join_pairs ps

  join_outs-pairs :
      (i : ℕ) (outs : List ℕ) (e : Env)
      → join_outs location i outs e ≡ join_pairs (pairs_of i outs) e
  unfolding join_outs join_pairs
  join_outs-pairs i [] e = refl
  join_outs-pairs i (o ∷ outs) e =
      ap (λ f. join_pair location i o e >>= f) (fun_ext (join_outs-pairs i outs))

  join_pairs-append :
      (ps qs : List (ℕ × ℕ)) (e : Env)
      → join_pairs (ps ++ qs) e ≡ (join_pairs ps e >>= join_pairs qs)
  unfolding join_pairs
  join_pairs-append [] qs e = refl
  join_pairs-append ((i, o) ∷ ps) qs e =
      ap (λ f. join_pair location i o e >>= f) (fun_ext (join_pairs-append ps qs))
      ∙ sym (>>=_assoc (join_pair location i o e) (join_pairs ps) (join_pairs qs))

  pub join_all-pairs :
      (ins outs : List ℕ) (e : Env) → join_all location ins outs e ≡ join_pairs (pairs ins outs) e
  unfolding join_all join_pairs
  join_all-pairs [] outs e = refl
  join_all-pairs (i ∷ ins) outs e =
      ap (λ m. m >>= join_all location ins outs) (join_outs-pairs i outs e)
      ∙ ap (λ f. join_pairs (pairs_of i outs) e >>= f) (fun_ext (join_all-pairs ins outs))
      ∙ sym (join_pairs-append (pairs_of i outs) (pairs ins outs) e)

-- What the loops do to a process, for the pairs that they go through.
pub record Joined (location : Location) (ps : List (ℕ × ℕ)) (e e' : Env) : Type 0 where
  pub well_formed : IsWellFormed e'
  pub states : e'.process.states ≡ e.process.states
  pub initial : e'.process.initial_state ≡ e.process.initial_state
  pub next : e'.heap.next_trans ≡ e.heap.next_trans + length ps
  pub old : (t : ℕ) → t < e.heap.next_trans → e'.heap.trans t ≡ e.heap.trans t
  pub new :
      (k i o : ℕ)
      → get_elem? ps k ≡ some (i, o)
      → e'.heap.trans (e.heap.next_trans + k)
        ≡ merge location
            (e.heap.trans i)
            (e.heap.trans o)
            (new_trans (e.heap.trans i).start (e.heap.trans o).end)
  pub transitions :
      (t : ℕ)
      → mem t e'.process.transitions ≡ (
          mem t e.process.transitions
          || leb e.heap.next_trans t && ltb t (e.heap.next_trans + length ps))

-- The pair names allocated transitions, from and to states of the process.
abbrev pub IsJoinable : Env → ℕ × ℕ → Type 0
IsJoinable e (i, o) =
    (i < e.heap.next_trans)
    × (o < e.heap.next_trans)
    × (mem (e.heap.trans i).start e.process.states ≡ true)
    × (mem (e.heap.trans o).end e.process.states ≡ true)

module _ (location : Location) (i o : ℕ) (e e₁ : Env) (j : IsJoinable e (i, o))
    (a : Added (e.heap.trans i).start (e.heap.trans o).end e e₁) where
  abbrev fresh : ℕ
  fresh = e.heap.next_trans

  abbrev labels : Trans → Trans
  labels = merge location (e₁.heap.trans i) (e₁.heap.trans o)

  abbrev after : Env
  after = record e₁ { heap = modify_trans fresh labels e₁.heap }

  same_in : e₁.heap.trans i ≡ e.heap.trans i
  same_in = a.others i (omega (arith, j.0))

  same_out : e₁.heap.trans o ≡ e.heap.trans o
  same_out = a.others o (omega (arith, j.1))

  abbrev joined : Trans
  joined =
      merge location (e.heap.trans i) (e.heap.trans o)
        (new_trans (e.heap.trans i).start (e.heap.trans o).end)

  joined-Merged : Merged location (e.heap.trans i) (e.heap.trans o) joined
  joined-Merged = merge-Merged location (e.heap.trans i) (e.heap.trans o)

  labels-joined : labels (e₁.heap.trans fresh) ≡ joined
  labels-joined = rw (same_in, same_out, a.object) refl

  after-new :
      (k i' o' : ℕ)
      → get_elem? {A = ℕ × ℕ} ((i, o) ∷ []) k ≡ some (i', o')
      → after.heap.trans (fresh + k)
        ≡ merge location
            (e.heap.trans i')
            (e.heap.trans o')
            (new_trans (e.heap.trans i').start (e.heap.trans o').end)
  after-new zero i' o' h =
      let p : i ≡ i' = ground arith in
      let q : o ≡ o' = ground arith in rw (← p, ← q) (ground (arith, labels-joined))
  after-new (suc k) i' o' h = cc

  after-Joined : Joined location ((i, o) ∷ []) e after
  after-Joined = record {
    well_formed =
        modify_trans-IsWellFormed fresh labels e₁
          (ap (λ t. t.start) labels-joined ∙ joined-Merged.start ∙ sym (ap (λ t. t.start) a.object))
          (ap (λ t. t.end) labels-joined ∙ joined-Merged.end ∙ sym (ap (λ t. t.end) a.object))
          a.well_formed;
    states = a.states;
    initial = a.initial;
    next = omega (arith, a.next);
    old = λ t h. ground (arith, a.others t);
    new = after-new;
    transitions =
        λ t. ground (arith, a.transitions, mem-append t e.process.transitions (fresh ∷ []));
  }

Joined-nil : (location : Location) (e : Env) → IsWellFormed e → Joined location [] e e
Joined-nil location e w = record {
  well_formed = w;
  states = refl;
  initial = refl;
  next = omega arith;
  old = λ t h. refl;
  new = λ k i o h. cc;
  transitions = λ t. ground arith;
}

module _ (location : Location) (i o : ℕ) (ps : List (ℕ × ℕ)) (e e₁ e₂ : Env)
    (js : All (IsJoinable e) ps) (a : Joined location ((i, o) ∷ []) e e₁)
    (b : Joined location ps e₁ e₂) where
  cons-new :
      (k i' o' : ℕ)
      → get_elem? {A = ℕ × ℕ} ((i, o) ∷ ps) k ≡ some (i', o')
      → e₂.heap.trans (e.heap.next_trans + k)
        ≡ merge location
            (e.heap.trans i')
            (e.heap.trans o')
            (new_trans (e.heap.trans i').start (e.heap.trans o').end)
  cons-new zero i' o' h = b.old (e.heap.next_trans + 0) (omega (arith, a.next)) ∙ a.new 0 i' o' h
  cons-new (suc k) i' o' h =
      let (old_in, old_out, _, _) = All-get_elem? (IsJoinable e) ps k js h in
      let index : e.heap.next_trans + suc k ≡ e₁.heap.next_trans + k = omega (arith, a.next) in
      rw (index, ← a.old i' old_in, ← a.old o' old_out) (b.new k i' o' h)

Joined-cons :
    (location : Location) (i o : ℕ) (ps : List (ℕ × ℕ)) (e e₁ e₂ : Env)
    → IsJoinable e (i, o)
    → All (IsJoinable e) ps
    → Joined location ((i, o) ∷ []) e e₁
    → Joined location ps e₁ e₂
    → Joined location ((i, o) ∷ ps) e e₂
Joined-cons location i o ps e e₁ e₂ j js a b = record {
  well_formed = b.well_formed;
  states = b.states ∙ a.states;
  initial = b.initial ∙ a.initial;
  next = omega (arith, a.next, b.next);
  old = λ t h. b.old t (omega (arith, a.next)) ∙ a.old t h;
  new = cons-new location i o ps e e₁ e₂ js a b;
  transitions = λ t. ground (arith, a.next, a.transitions t, b.transitions t);
}

IsJoinable-old :
    (location : Location) (ps : List (ℕ × ℕ)) (e e' : Env)
    → Joined location ps e e'
    → (p : ℕ × ℕ) → IsJoinable e p
    → IsJoinable e' p
IsJoinable-old location ps e e' a (i, o) (hi, ho, ks, ke) = (
  omega (arith, a.next),
  omega (arith, a.next),
  rw (a.old i hi, a.states) ks,
  rw (a.old o ho, a.states) ke,
)

join_pair-Joined :
    (location : Location) (i o : ℕ) (e : Env)
    → IsWellFormed e
    → IsJoinable e (i, o)
    → (e' : Env) × (join_pair location i o e ≡ ok e') × Joined location ((i, o) ∷ []) e e'
unfolding join_pair
join_pair-Joined location i o e w j =
    let (e₁, done, a) =
      add_transition-Added (e.heap.trans i).start (e.heap.trans o).end e w j.2 j.3 in
    (after location i o e e₁ j a, rw done refl, after-Joined location i o e e₁ j a)

-- On a well-formed process and transitions that are allocated, from and to its states, the loops
-- do not panic.
pub join_pairs-Joined :
    (location : Location) (ps : List (ℕ × ℕ)) (e : Env)
    → IsWellFormed e
    → All (IsJoinable e) ps
    → (e' : Env) × (join_pairs location ps e ≡ ok e') × Joined location ps e e'
unfolding join_pairs
join_pairs-Joined location [] e w js = (e, refl, Joined-nil location e w)
join_pairs-Joined location ((i, o) ∷ ps) e w js =
    let (e₁, done₁, a) = join_pair-Joined location i o e w js.0 in
    let (e₂, done₂, b) = join_pairs-Joined location ps e₁ a.well_formed (
      All-map (IsJoinable e) (IsJoinable e₁) ps (IsJoinable-old location ((i, o) ∷ []) e e₁ a)
        js.1) in
    (e₂, rw done₁ done₂, Joined-cons location i o ps e e₁ e₂ js.0 js.1 a b)
