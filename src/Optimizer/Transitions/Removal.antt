-- ===== src/Optimizer/Transitions/Removal.antt =====
-- The loop of the reducer that removes the marked transitions.
use toph.Prelude.{
  mem-erase, List, [], arith, false, if◌then◌else◌, refl, true, ℕ, ◌∙◌, ◌∷◌, ◌≡◌, IsNodup,
}
use toph.Uppaal.Process.{Env}
use toph.Optimizer.Transitions.{remove_all, mem, ok}
use toph.Uppaal.Process.Invariant.{IsWellFormed}
use toph.Uppaal.Process.RemoveTransition.{remove_transition-Removed, Removed}

-- What removing a list of transitions leaves.
pub record AllRemoved (ts : List ℕ) (e e' : Env) : Type 0 where
  pub well_formed : IsWellFormed e'
  pub objects : e'.heap.trans ≡ e.heap.trans
  pub next : e'.heap.next_trans ≡ e.heap.next_trans
  pub states : e'.process.states ≡ e.process.states
  pub initial : e'.process.initial_state ≡ e.process.initial_state
  pub transitions :
      (t : ℕ)
      → mem t e'.process.transitions ≡ (if mem t ts then false else mem t e.process.transitions)

AllRemoved-cons :
    (t : ℕ) (ts : List ℕ) (e e₁ e₂ : Env)
    → IsNodup e.process.transitions
    → Removed t e e₁
    → AllRemoved ts e₁ e₂
    → AllRemoved (t ∷ ts) e e₂
AllRemoved-cons t ts e e₁ e₂ n r s = record {
  well_formed = s.well_formed;
  objects = s.objects ∙ r.objects;
  next = s.next ∙ r.next;
  states = s.states ∙ r.states;
  initial = s.initial ∙ r.initial;
  transitions =
      λ x. ground (arith, r.transitions, s.transitions x, mem-erase x t e.process.transitions n);
}

pub remove_all-AllRemoved :
    (ts : List ℕ) (e : Env)
    → IsWellFormed e
    → IsNodup ts
    → ((t : ℕ) → mem t ts ≡ true → mem t e.process.transitions ≡ true)
    → (e' : Env) × (remove_all ts e ≡ ok e') × AllRemoved ts e e'
unfolding remove_all
remove_all-AllRemoved [] e w n inside = (
  e,
  refl,
  record {
    well_formed = w;
    objects = refl;
    next = refl;
    states = refl;
    initial = refl;
    transitions = λ t. refl;
  },
)
remove_all-AllRemoved (t ∷ ts) e w n inside =
    let (e₁, done₁, r₁) = (remove_transition-Removed t e w).0 (inside t (ground arith)) in
    let (e₂, done₂, r₂) = remove_all-AllRemoved ts e₁ r₁.well_formed (ground arith) (λ x m.
      ground (
        arith,
        r₁.transitions,
        mem-erase x t e.process.transitions w.transitions_nodup,
        inside x,
      )) in
    (e₂, ground (arith, done₁, done₂), AllRemoved-cons t ts e e₁ e₂ w.transitions_nodup r₁ r₂)
