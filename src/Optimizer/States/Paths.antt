-- ===== src/Optimizer/States/Paths.antt =====
-- The removal of states keeps what can be reached.
use toph.Prelude.{
  mem-keep, lt-get_elem?, All-get_elem?, ◌+◌, ◌++◌, ◌==◌, ==_iff, Bool-cases, List, [], ap, arith,
  get_elem?, inl, inr, length, mem, some, subst, suc, true, zero, ℕ, ◌∙◌, ◌∷◌, ◌≡◌, ◌≢◌, ◌⊎◌, ◌-◌,
  ◌<◌, sym, ◌≤◌,
}
use native.Mathlib.Decide.{dec_lt}
use Prim.Native.Nat.add
use toph.Uppaal.Objects.{outgoing_transitions, incoming_transitions}
use toph.Uppaal.Process.{Env}
use toph.Uppaal.Process.Reach.{Reach, Edge, here, step}
use toph.Optimizer.States.Joins.{pairs_of, pairs}
use toph.Uppaal.Process.Invariant.{IsWellFormed}
use toph.Optimizer.States.{is_removable, incoming_transitions, outgoing_transitions}
use toph.Optimizer.States.Bypass.{Bypassed, outgoing_known, incoming_known, All-pairs}

get_elem?-append_right :
    (ps qs : List (ℕ × ℕ)) (k : ℕ) {p : ℕ × ℕ}
    → get_elem? qs k ≡ some p
    → get_elem? (ps ++ qs) (length ps + k) ≡ some p
get_elem?-append_right [] qs k h = rw (add.zero k) h
get_elem?-append_right (x ∷ ps) qs k h =
    rw (add.suc (length ps) k) (get_elem?-append_right ps qs k h)

get_elem?-append_left :
    (ps qs : List (ℕ × ℕ)) (k : ℕ) {p : ℕ × ℕ}
    → get_elem? ps k ≡ some p
    → get_elem? (ps ++ qs) k ≡ some p
get_elem?-append_left [] qs k h = cc
get_elem?-append_left (x ∷ ps) qs zero h = h
get_elem?-append_left (x ∷ ps) qs (suc k) h = get_elem?-append_left ps qs k h

pairs_of-index :
    (i o : ℕ) (outs : List ℕ)
    → mem o outs ≡ true
    → (k : ℕ) × (get_elem? (pairs_of i outs) k ≡ some (i, o))
pairs_of-index i o [] h = cc
pairs_of-index i o (x ∷ outs) h = elim (Bool-cases (x == o)) [
  | inl e ↦ (0, ap (λ y. some (i, y)) ((==_iff x o).0 e))
  | inr e ↦ let (k, p) = pairs_of-index i o outs (ground arith) in (suc k, p)
]

-- Each pair stands somewhere in the list of pairs.
pairs-index :
    (i o : ℕ) (ins outs : List ℕ)
    → mem i ins ≡ true
    → mem o outs ≡ true
    → (k : ℕ) × (get_elem? (pairs ins outs) k ≡ some (i, o))
pairs-index i o [] outs hi ho = cc
pairs-index i o (x ∷ ins) outs hi ho = elim (Bool-cases (x == i)) [
  | inl e ↦
      let (k, p) = pairs_of-index i o outs ho in
      (k, get_elem?-append_left (pairs_of x outs) (pairs ins outs) k (rw ((==_iff x i).0 e) p))
  | inr e ↦
      let (k, p) = pairs-index i o ins outs (ground arith) ho in
      (length (pairs_of x outs) + k, get_elem?-append_right (pairs_of x outs) (pairs ins outs) k p)
]

module _ (s : ℕ) (e e' : Env) (w : IsWellFormed e) (known : mem s e.process.states ≡ true)
    (removable : is_removable e.heap s ≡ true) (b : Bypassed s e e') where
  abbrev ins : List ℕ
  ins = incoming_transitions e.heap s

  abbrev outs : List ℕ
  outs = outgoing_transitions e.heap s

  mem-ins :
      (t : ℕ) → mem t e.process.transitions ≡ true → (e.heap.trans t).end ≡ s → mem t ins ≡ true
  mem-ins t m p = ground (
    arith,
    mem-keep (λ u. (e.heap.trans u).end == s) t (e.heap.state s).transitions,
    w.at_state_mem s t known,
  )

  mem-outs :
      (t : ℕ) → mem t e.process.transitions ≡ true → (e.heap.trans t).start ≡ s → mem t outs ≡ true
  mem-outs t m p = ground (
    arith,
    mem-keep (λ u. (e.heap.trans u).start == s) t (e.heap.state s).transitions,
    w.at_state_mem s t known,
  )

  -- A transition that does not touch the removed state is still there.
  kept-Edge : (x y : ℕ) → Edge e x y → x ≢ s → y ≢ s → Edge e' x y
  kept-Edge x y edge hx hy =
      let t = edge.trans in
      let below = w.transitions_below t edge.known in
      record {
        trans = t;
        known = ground (arith, b.kept t below, edge.known, edge.starts, edge.ends);
        starts = ap (λ o. o.start) (b.old t below) ∙ edge.starts;
        ends = ap (λ o. o.end) (b.old t below) ∙ edge.ends;
      }

  -- A path through the removed state is one joined transition.
  joined-Edge :
      (i o : ℕ)
      → mem i ins ≡ true
      → mem o outs ≡ true
      → Edge e' (e.heap.trans i).start (e.heap.trans o).end
  joined-Edge i o mi mo =
      let (k, at) = pairs-index i o ins outs mi mo in
      let (there, merged) = b.joined k i o at in
      record {
        trans = e.heap.next_trans + k;
        known = there;
        starts = merged.start;
        ends = merged.end;
      }

  -- Where a path of the old process stands in the new one: at the same state, or before an
  -- incoming transition of the removed state.
  abbrev Image : ℕ → ℕ → Type 0
  Image a x =
      (x ≢ s) × Reach e' a x
      ⊎ (x ≡ s) × ((i : ℕ) × (mem i ins ≡ true) × Reach e' a (e.heap.trans i).start)

  extend : (a x y : ℕ) → Image a x → Edge e x y → Image a y
  extend a x y (inl (hx, r)) edge = elim (Bool-cases (y == s)) [
    | inl p ↦
        let q = (==_iff y s).0 p in
        inr (q, (edge.trans, mem-ins edge.trans edge.known (edge.ends ∙ q), rw edge.starts r))
    | inr p ↦ let hy : y ≢ s = ground arith in inl (hy, step r (kept-Edge x y edge hx hy))
  ]
  extend a x y (inr (q, (i, mi, r))) edge =
      let o = edge.trans in
      let mo = mem-outs o edge.known (edge.starts ∙ q) in
      let away = (outgoing_known s e w known removable o mo).2 in
      inl (
        λ p. away (edge.ends ∙ p),
        step r (subst (Edge e' (e.heap.trans i).start) edge.ends (joined-Edge i o mi mo)),
      )

  image : (a x : ℕ) → a ≢ s → Reach e a x → Image a x
  image a x ha here = inl (ha, here)
  image a x ha (step {x = z} r edge) = extend a z x (image a z ha r) edge

  old-Edge : (x y : ℕ) (edge : Edge e' x y) → edge.trans < e.heap.next_trans → Edge e x y
  old-Edge x y edge below =
      let t = edge.trans in
      record {
        trans = t;
        known = ground (arith, b.kept t below, edge.known);
        starts = sym (ap (λ o. o.start) (b.old t below)) ∙ edge.starts;
        ends = sym (ap (λ o. o.end) (b.old t below)) ∙ edge.ends;
      }

  -- The pair that a new transition joins.
  pair_of :
      (x y : ℕ) (edge : Edge e' x y)
      → e.heap.next_trans ≤ edge.trans
      → (i o : ℕ) × (mem i ins ≡ true)
        × (mem o outs ≡ true)
        × ((e.heap.trans i).start ≡ x)
        × ((e.heap.trans o).end ≡ y)
  pair_of x y edge above =
      let k = edge.trans - e.heap.next_trans in
      let ((i, o), at) =
        lt-get_elem? (pairs ins outs) k (b.only_joined edge.trans edge.known above) in
      let (mi, mo) =
        All-get_elem? (λ p. (mem p.0 ins ≡ true) × (mem p.1 outs ≡ true)) (pairs ins outs) k
          (All-pairs (λ p. (mem p.0 ins ≡ true) × (mem p.1 outs ≡ true)) ins outs
            (λ i o m n. (m, n)))
          at in
      let merged = (b.joined k i o at).1 in
      let same : e.heap.next_trans + k ≡ edge.trans = omega arith in
      (
        i,
        o,
        mi,
        mo,
        sym merged.start ∙ ap (λ t. (e'.heap.trans t).start) same ∙ edge.starts,
        sym merged.end ∙ ap (λ t. (e'.heap.trans t).end) same ∙ edge.ends,
      )

  -- A step of the new process is a step or two of the old one.
  back : (a x y : ℕ) → Reach e a x → Edge e' x y → Reach e a y
  back a x y r edge = elim (dec_lt edge.trans e.heap.next_trans) [
    | yes below ↦ step r (old-Edge x y edge below)
    | no above ↦
        let (i, o, mi, mo, p, q) = pair_of x y edge (omega arith) in
        let (ki, ei, _) = incoming_known s e w known removable i mi in
        let (ko, so, _) = outgoing_known s e w known removable o mo in
        step (step r (record { trans = i; known = ki; starts = p; ends = ei }))
          (record { trans = o; known = ko; starts = so; ends = q })
  ]

  pub backward : (a x : ℕ) → Reach e' a x → Reach e a x
  backward a x here = here
  backward a x (step {x = z} r edge) = back a z x (backward a z r) edge

  pub forward : (a x : ℕ) → a ≢ s → x ≢ s → Reach e a x → Reach e' a x
  forward a x ha hx r = elim (image a x ha r) [ inl (_, r') ↦ r' | inr (p, _) ↦ absurd (hx p) ]
