-- ===== src/Optimizer/States/Bypass.antt =====
-- The removal of one state: every path through it is replaced by a joined transition.
use toph.Prelude.{
  mem-keep, ◌&&◌, ◌+◌, ◌++◌, ◌-◌, ◌<◌, ◌==◌, All, Bool, List, [], ap, arith, erase, false,
  get_elem?, is_empty, length, mem, not, refl, some, some_of, true, ℕ, ◌∷◌, ◌≡◌, ◌≢◌, ◌≤◌, Option,
  get_elem?-lt, mem-erase, none, subst, sym, ◌∙◌,
}
use toph.Uppaal.Objects.{outgoing_transitions, incoming_transitions}
use toph.Uppaal.Process.{Env, forget_initial, remove_state}
use toph.Uppaal.Process.Invariant.{IsWellFormed, touches}
use toph.Optimizer.States.Joins.{
  pairs_of, pairs, IsJoinable, Joined, join_pairs-Joined, join_all-pairs,
}
use toph.Optimizer.States.{
  is_removable, blocks, incoming_transitions, outgoing_transitions, bypass, ok, join_all,
  remove_all, remove_state,
}
use toph.Optimizer.States.Labels.{Merged, merge-Merged}
use toph.Optimizer.Transitions.Removal.{AllRemoved, remove_all-AllRemoved}
use toph.Uppaal.Process.RemoveState.{StateRemoved, remove_state-StateRemoved}
use toph.Optimizer.Transitions.{remove_all}

some_of-none :
    (p : ℕ → Bool) (t : ℕ) (ts : List ℕ) → some_of p ts ≡ false → mem t ts ≡ true → p t ≡ false
some_of-none p t [] h m = cc
some_of-none p t (x ∷ ts) h m = ground (arith, some_of-none p t ts, ap p {x = x} {y = t})

is_empty_of : (ts : List ℕ) → ((t : ℕ) → mem t ts ≡ false) → is_empty ts ≡ true
is_empty_of [] h = refl
is_empty_of (t ∷ ts) h = ground (arith, h t)

All-pairs_of :
    (P : ℕ × ℕ → Type 0) (i : ℕ) (outs : List ℕ)
    → ((o : ℕ) → mem o outs ≡ true → P (i, o))
    → All P (pairs_of i outs)
All-pairs_of P i [] h = tt
All-pairs_of P i (o ∷ outs) h =
    (h o (ground arith), All-pairs_of P i outs (λ x m. h x (ground arith)))

All-append : (P : ℕ × ℕ → Type 0) (ps qs : List (ℕ × ℕ)) → All P ps → All P qs → All P (ps ++ qs)
All-append P [] qs h k = k
All-append P (p ∷ ps) qs h k = (h.0, All-append P ps qs h.1 k)

pub All-pairs :
    (P : ℕ × ℕ → Type 0) (ins outs : List ℕ)
    → ((i o : ℕ) → mem i ins ≡ true → mem o outs ≡ true → P (i, o))
    → All P (pairs ins outs)
All-pairs P [] outs h = tt
All-pairs P (i ∷ ins) outs h =
    All-append P (pairs_of i outs) (pairs ins outs)
      (All-pairs_of P i outs (λ o m. h i o (ground arith) m))
      (All-pairs P ins outs (λ x o m n. h x o (ground arith) n))

-- What the removal does to a process.
pub record Bypassed (s : ℕ) (e e' : Env) : Type 0 where
  pub well_formed : IsWellFormed e'
  pub states : e'.process.states ≡ erase s e.process.states
  pub initial : e'.process.initial_state ≡ e.process.initial_state
  pub old : (t : ℕ) → t < e.heap.next_trans → e'.heap.trans t ≡ e.heap.trans t
  pub kept :
      (t : ℕ)
      → t < e.heap.next_trans
      → mem t e'.process.transitions ≡ (mem t e.process.transitions && not (touches e.heap t s))
  pub joined :
      (k i o : ℕ)
      → get_elem? (pairs (incoming_transitions e.heap s) (outgoing_transitions e.heap s)) k
        ≡ some (i, o)
      → (mem (e.heap.next_trans + k) e'.process.transitions ≡ true)
        × Merged
            (e.heap.state s).location
            (e.heap.trans i)
            (e.heap.trans o)
            (e'.heap.trans (e.heap.next_trans + k))
  pub only_joined :
      (t : ℕ)
      → mem t e'.process.transitions ≡ true
      → e.heap.next_trans ≤ t
      → t - e.heap.next_trans
        < length (pairs (incoming_transitions e.heap s) (outgoing_transitions e.heap s))

module _ (s : ℕ) (e : Env) (w : IsWellFormed e) (known : mem s e.process.states ≡ true)
    (removable : is_removable e.heap s ≡ true) where
  abbrev ins : List ℕ
  ins = incoming_transitions e.heap s

  abbrev outs : List ℕ
  outs = outgoing_transitions e.heap s

  not_blocked : (t : ℕ) → mem t (e.heap.state s).transitions ≡ true → blocks e.heap t ≡ false
  unfolding is_removable
  not_blocked t m = some_of-none (blocks e.heap) t (e.heap.state s).transitions (ground arith) m

  -- An incoming transition is one of the process, and begins elsewhere.
  pub incoming_known :
      (t : ℕ)
      → mem t ins ≡ true
      → (mem t e.process.transitions ≡ true)
        × ((e.heap.trans t).end ≡ s)
        × ((e.heap.trans t).start ≢ s)
  incoming_known t m =
      let at = mem-keep (λ u. (e.heap.trans u).end == s) t (e.heap.state s).transitions in
      let listed : mem t (e.heap.state s).transitions ≡ true = ground (arith, at) in
      (
        ground (arith, w.at_state_mem s t known),
        ground (arith, at),
        λ p. ground (arith, at, not_blocked t listed),
      )

  pub outgoing_known :
      (t : ℕ)
      → mem t outs ≡ true
      → (mem t e.process.transitions ≡ true)
        × ((e.heap.trans t).start ≡ s)
        × ((e.heap.trans t).end ≢ s)
  outgoing_known t m =
      let at = mem-keep (λ u. (e.heap.trans u).start == s) t (e.heap.state s).transitions in
      let listed : mem t (e.heap.state s).transitions ≡ true = ground (arith, at) in
      (
        ground (arith, w.at_state_mem s t known),
        ground (arith, at),
        λ p. ground (arith, at, not_blocked t listed),
      )

  pub not_initial : (i : ℕ) → e.process.initial_state ≡ some i → i ≢ s
  unfolding is_removable
  not_initial i h p = ground (arith, w.initial_flag s known)

  -- The two removals, and then the loops over the pairs.
  module _ (e₁ e₂ e₃ : Env) (r₁ : AllRemoved (e.heap.state s).transitions e e₁)
      (r₂ : StateRemoved s e₁ e₂)
      (r₃ : Joined (e.heap.state s).location (pairs ins outs) e₂ e₃) where
    same_objects : e₂.heap.trans ≡ e.heap.trans
    same_objects = ap (λ h. h.trans) r₂.heap ∙ r₁.objects

    same_next : e₂.heap.next_trans ≡ e.heap.next_trans
    same_next = ap (λ h. h.next_trans) r₂.heap ∙ r₁.next

    left_states : e₂.process.states ≡ erase s e.process.states
    left_states = r₂.states ∙ ap (erase s) r₁.states

    left :
        (t : ℕ)
        → mem t e₂.process.transitions ≡ (mem t e.process.transitions && not (touches e.heap t s))
    left t = ground (arith, r₂.transitions, r₁.transitions t, w.at_state_mem s t known)

    forget_other : (o : Option ℕ) → ((i : ℕ) → o ≡ some i → i ≢ s) → forget_initial s o ≡ o
    forget_other none h = refl
    forget_other (some i) h = let p = h i refl in ground arith

    bypassed_joined :
        (k i o : ℕ)
        → get_elem? (pairs ins outs) k ≡ some (i, o)
        → (mem (e.heap.next_trans + k) e₃.process.transitions ≡ true)
          × Merged
              (e.heap.state s).location
              (e.heap.trans i)
              (e.heap.trans o)
              (e₃.heap.trans (e.heap.next_trans + k))
    bypassed_joined k i o h =
        let below = get_elem?-lt (pairs ins outs) k h in
        let object = r₃.new k i o h in
        (
          ground (arith, r₃.transitions (e.heap.next_trans + k), same_next),
          subst (λ t. Merged (e.heap.state s).location (e.heap.trans i) (e.heap.trans o) t)
              (sym (rw (← same_next, ← same_objects) object))
              (merge-Merged (e.heap.state s).location (e.heap.trans i) (e.heap.trans o)),
        )

    parts-Bypassed : Bypassed s e e₃
    parts-Bypassed = record {
      well_formed = r₃.well_formed;
      states = r₃.states ∙ left_states;
      initial =
          r₃.initial
          ∙ r₂.initial
          ∙ ap (forget_initial s) r₁.initial
          ∙ forget_other e.process.initial_state not_initial;
      old = λ t h. r₃.old t (rw same_next h) ∙ ap (λ f. f t) same_objects;
      kept = λ t h. ground (arith, r₃.transitions t, left t, same_next);
      joined = bypassed_joined;
      only_joined =
          λ t m h. ground (arith, r₃.transitions t, left t, same_next, w.transitions_below t);
    }

  ends-IsJoinable :
      (e₂ : Env) (i o : ℕ)
      → e₂.heap.trans ≡ e.heap.trans
      → e₂.heap.next_trans ≡ e.heap.next_trans
      → e₂.process.states ≡ erase s e.process.states
      → mem i ins ≡ true
      → mem o outs ≡ true
      → IsJoinable e₂ (i, o)
  ends-IsJoinable e₂ i o same next states mi mo =
      let (ki, _, si) = incoming_known i mi in
      let (ko, _, so) = outgoing_known o mo in
      (
        ground (arith, next, w.transitions_below i),
        ground (arith, next, w.transitions_below o),
        rw (same, states)
            (ground (
              arith,
              mem-erase (e.heap.trans i).start s e.process.states w.states_nodup,
              w.start_known i,
            )),
        rw (same, states)
            (ground (
              arith,
              mem-erase (e.heap.trans o).end s e.process.states w.states_nodup,
              w.end_known o,
            )),
      )

  cleared :
      (e₁ e₂ : Env) × (remove_all (e.heap.state s).transitions e ≡ ok e₁)
      × (remove_state s e₁ ≡ ok e₂)
      × AllRemoved (e.heap.state s).transitions e e₁
      × StateRemoved s e₁ e₂
  cleared =
      let (e₁, d₁, r₁) =
        remove_all-AllRemoved (e.heap.state s).transitions e w (w.at_state_nodup s known)
          (λ t m. ground (arith, w.at_state_mem s t known)) in
      let known₁ : mem s e₁.process.states ≡ true = ground (arith, r₁.states) in
      let unused : is_empty (e₁.heap.state s).transitions ≡ true =
        is_empty_of (e₁.heap.state s).transitions (λ t. ground (
          arith,
          r₁.well_formed.at_state_mem s t known₁,
          r₁.transitions t,
          r₁.objects,
          w.at_state_mem s t known,
        )) in
      let (e₂, d₂, r₂) = (remove_state-StateRemoved s e₁ r₁.well_formed).2 known₁ unused in
      (e₁, e₂, d₁, d₂, r₁, r₂)

  rejoined :
      (e₁ e₂ : Env)
      → AllRemoved (e.heap.state s).transitions e e₁
      → StateRemoved s e₁ e₂
      → (e₃ : Env) × (join_all (e.heap.state s).location ins outs e₂ ≡ ok e₃)
        × Joined (e.heap.state s).location (pairs ins outs) e₂ e₃
  rejoined e₁ e₂ r₁ r₂ =
      let (e₃, done, r₃) =
        join_pairs-Joined (e.heap.state s).location (pairs ins outs) e₂ r₂.well_formed (
          All-pairs (IsJoinable e₂) ins outs (λ i o mi mo.
            ends-IsJoinable e₂ i o (ap (λ h. h.trans) r₂.heap ∙ r₁.objects)
              (ap (λ h. h.next_trans) r₂.heap ∙ r₁.next) (r₂.states ∙ ap (erase s) r₁.states) mi
              mo)) in
      (e₃, join_all-pairs (e.heap.state s).location ins outs e₂ ∙ done, r₃)

  -- On a well-formed process and a state of its set that passes the reducer's test for
  -- removal, the removal does not panic. The state leaves the set, exactly the transitions at it leave, and for each pair of an incoming and an outgoing one a
  -- new transition with the merged labels joins their other ends, and no more. Older objects stay,
  -- and the process is well formed again.
  pub bypass-Bypassed : (e' : Env) × (bypass s e ≡ ok e') × Bypassed s e e'
  unfolding bypass
  bypass-Bypassed =
      let (e₁, e₂, d₁, d₂, r₁, r₂) = cleared in
      let (e₃, d₃, r₃) = rejoined e₁ e₂ r₁ r₂ in
      (e₃, rw (d₁, d₂) d₃, parts-Bypassed e₁ e₂ e₃ r₁ r₂ r₃)
