-- ===== src/Optimizer/States/Correct.antt =====
-- The reducer of states as a whole.
use toph.Prelude.{
  mem-erase, ◌==◌, Bool-cases, IsNodup, List, [], arith, false, if◌then◌else◌, inl, inr, mem, refl,
  some, true, ℕ, ◌↔◌, ◌∙◌, ◌∷◌, ◌≡◌, ◌≢◌,
}
use toph.Uppaal.Process.{Env}
use toph.Uppaal.Process.Reach.{Reach}
use toph.Optimizer.States.{
  remove_state_if_possible, remove_states, reduce_states_in_process, is_removable, ok,
}
use toph.Uppaal.Process.Invariant.{IsWellFormed}
use toph.Optimizer.States.Visit.{sorted_states-Found}
use toph.Optimizer.States.Bypass.{Bypassed, bypass-Bypassed, not_initial}
use toph.Optimizer.States.Paths.{backward, forward}

-- What trying to remove the states of a list makes of a process.
pub record Shrunk (ss : List ℕ) (e e' : Env) : Type 0 where
  pub well_formed : IsWellFormed e'
  pub initial : e'.process.initial_state ≡ e.process.initial_state
  pub subset : (x : ℕ) → mem x e'.process.states ≡ true → mem x e.process.states ≡ true
  pub others :
      (x : ℕ) → mem x ss ≡ false → mem x e.process.states ≡ true → mem x e'.process.states ≡ true
  pub reach :
      (i b : ℕ)
      → e.process.initial_state ≡ some i
      → mem b e'.process.states ≡ true
      → Reach e' i b ↔ Reach e i b

module _ (s : ℕ) (e : Env) (w : IsWellFormed e) (known : mem s e.process.states ≡ true)
    (removable : is_removable e.heap s ≡ true) where
  mem-left :
      (e' : Env)
      → Bypassed s e e'
      → (x : ℕ) → mem x e'.process.states ≡ (if s == x then false else mem x e.process.states)
  mem-left e' b x = ground (arith, b.states, mem-erase x s e.process.states w.states_nodup)

  Bypassed-Shrunk : (e' : Env) → Bypassed s e e' → Shrunk (s ∷ []) e e'
  Bypassed-Shrunk e' b = record {
    well_formed = b.well_formed;
    initial = b.initial;
    subset = λ x m. ground (arith, mem-left e' b x);
    others = λ x out m. ground (arith, mem-left e' b x);
    reach = λ i x start m.
        let hi = not_initial s e w known removable i start in
        let hx : x ≢ s = λ p. ground (arith, mem-left e' b x) in
        (backward s e e' w known removable b i x, forward s e e' w known removable b i x hi hx);
  }

-- A state that is not removed leaves the process as it is.
Shrunk-refl : (ss : List ℕ) (e : Env) → IsWellFormed e → Shrunk ss e e
Shrunk-refl ss e w = record {
  well_formed = w;
  initial = refl;
  subset = λ x m. m;
  others = λ x out m. m;
  reach = λ i b start m. (λ r. r, λ r. r);
}

Shrunk-trans :
    (s : ℕ) (ss : List ℕ) (e e₁ e₂ : Env)
    → Shrunk (s ∷ []) e e₁
    → Shrunk ss e₁ e₂
    → Shrunk (s ∷ ss) e e₂
Shrunk-trans s ss e e₁ e₂ a b = record {
  well_formed = b.well_formed;
  initial = b.initial ∙ a.initial;
  subset = λ x m. a.subset x (b.subset x m);
  others = λ x out m. b.others x (ground arith) (a.others x (ground arith) m);
  reach = λ i x start m.
      let first = a.reach i x start (b.subset x m) in
      let second = b.reach i x (a.initial ∙ start) m in
      (λ r. first.0 (second.0 r), λ r. second.1 (first.1 r));
}

-- `removeStateIfPossible` does not panic on a state of a well-formed process.
pub remove_state_if_possible-Shrunk :
    (s : ℕ) (e : Env)
    → IsWellFormed e
    → mem s e.process.states ≡ true
    → (e' : Env) × (remove_state_if_possible s e ≡ ok e') × Shrunk (s ∷ []) e e'
unfolding remove_state_if_possible
remove_state_if_possible-Shrunk s e w known = elim (Bool-cases (is_removable e.heap s)) [
  | inl yes_ ↦
      let (e', done, b) = bypass-Bypassed s e w known yes_ in
      (e', rw yes_ done, Bypassed-Shrunk s e w known yes_ e' b)
  | inr no_ ↦ (e, rw no_ refl, Shrunk-refl (s ∷ []) e w)
]

pub remove_states-Shrunk :
    (ss : List ℕ) (e : Env)
    → IsWellFormed e
    → IsNodup ss
    → ((x : ℕ) → mem x ss ≡ true → mem x e.process.states ≡ true)
    → (e' : Env) × (remove_states ss e ≡ ok e') × Shrunk ss e e'
unfolding remove_states
remove_states-Shrunk [] e w n inside = (e, refl, Shrunk-refl [] e w)
remove_states-Shrunk (s ∷ ss) e w n inside =
    let (e₁, d₁, a) = remove_state_if_possible-Shrunk s e w (inside s (ground arith)) in
    let (e₂, d₂, b) =
      remove_states-Shrunk ss e₁ a.well_formed (ground arith)
        (λ x m. a.others x (ground arith) (inside x (ground arith))) in
    (e₂, rw d₁ d₂, Shrunk-trans s ss e e₁ e₂ a b)

-- On a well-formed process with an initial state the reducer of states does not panic, and leaves
-- a well-formed process with the same initial state. Its states are states of before, among them
-- all that could not be reached from the initial state, and each of them can be reached in the new
-- process exactly if it could be in the old one.
pub reduce_states-Shrunk :
    (e : Env) (i : ℕ)
    → IsWellFormed e
    → e.process.initial_state ≡ some i
    → (e' : Env) × (reduce_states_in_process e ≡ ok e')
      × IsWellFormed e'
      × (e'.process.initial_state ≡ some i)
      × ((x : ℕ) → mem x e'.process.states ≡ true → mem x e.process.states ≡ true)
      × ((x : ℕ) → mem x e.process.states ≡ true → ¬ Reach e i x → mem x e'.process.states ≡ true)
      × ((x : ℕ) → mem x e'.process.states ≡ true → Reach e' i x ↔ Reach e i x)
unfolding reduce_states_in_process
reduce_states-Shrunk e i w start =
    let (ss, sorted, found) = sorted_states-Found e w i start in
    let (e', done, b) = remove_states-Shrunk ss e w found.nodup found.known in
    (
      e',
      rw sorted done,
      b.well_formed,
      b.initial ∙ start,
      b.subset,
      λ x m out.
          b.others x
            (elim (Bool-cases (mem x ss)) [ inl p ↦ absurd (out (found.sound x p)) | inr p ↦ p ]) m,
      λ x m. b.reach i x start m,
    )
