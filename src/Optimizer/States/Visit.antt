-- ===== src/Optimizer/States/Visit.antt =====
-- The search of the reducer: it ends, and finds exactly the states that can be reached.
use toph.Prelude.{
  append-IsNodup, mem-append, mem-keep, length-append, length-le_of_subset, ◌&&◌, ◌+◌, ◌++◌, ◌<◌,
  ◌==◌, List, [], ap, arith, false, inl, inr, refl, some, subst, suc, sym, true, zero, ◌||◌, ℕ, ◌∙◌,
  ◌∷◌, ◌≡◌, ◌≤◌, mem, some_of, Bool-cases, IsNodup, ==_iff, length,
}
use mathlib.Core.List.{append_assoc, append-nil}
use toph.Uppaal.Objects.{Heap}
use toph.Uppaal.Process.{Env}
use toph.Optimizer.States.{
  offer_all, sorted_states, outgoing_transitions, ok, Search, search_states, offer, expand,
}
use toph.Uppaal.Process.Invariant.{IsWellFormed}
use toph.Uppaal.Process.Reach.{Reach, Edge, step, here}

module _ (h : Heap) where
  mem-offer_all :
      (x : ℕ) (ts : List ℕ) (s : Search)
      → mem x (offer_all h ts s).seen ≡ (mem x s.seen || some_of (λ t. (h.trans t).end == x) ts)
  unfolding offer_all
  mem-offer_all x [] s = ground arith
  mem-offer_all x (t ∷ ts) s = ground (
    arith,
    mem-offer_all x ts (offer (h.trans t).end s),
    mem-append x s.seen ((h.trans t).end ∷ []),
  )

  offer_all-IsNodup : (ts : List ℕ) (s : Search) → IsNodup s.seen → IsNodup (offer_all h ts s).seen
  unfolding offer_all
  offer_all-IsNodup [] s n = n
  offer_all-IsNodup (t ∷ ts) s n =
      offer_all-IsNodup ts (offer (h.trans t).end s)
        (ground (arith, append-IsNodup (h.trans t).end s.seen))

  -- What was seen is what left the queue, and then the queue.
  offer_all-queue :
      (sorted ts : List ℕ) (s : Search)
      → s.seen ≡ sorted ++ s.queue
      → (offer_all h ts s).seen ≡ sorted ++ (offer_all h ts s).queue
  unfolding offer_all
  offer_all-queue sorted [] s p = p
  offer_all-queue sorted (t ∷ ts) s p =
      offer_all-queue sorted ts (offer (h.trans t).end s)
        (ground (arith, append_assoc sorted s.queue ((h.trans t).end ∷ [])))

  some_of_end :
      (x : ℕ) (ts : List ℕ)
      → some_of (λ t. (h.trans t).end == x) ts ≡ true
      → (t : ℕ) × (mem t ts ≡ true) × ((h.trans t).end ≡ x)
  some_of_end x [] m = cc
  some_of_end x (t ∷ ts) m = elim (Bool-cases ((h.trans t).end == x)) [
    | inl e ↦ (t, ground arith, ground arith)
    | inr e ↦ let (u, k, q) = some_of_end x ts (ground arith) in (u, ground arith, q)
  ]

  some_of-mem :
      (x t : ℕ) (ts : List ℕ)
      → mem t ts ≡ true
      → (h.trans t).end ≡ x
      → some_of (λ t. (h.trans t).end == x) ts ≡ true
  some_of-mem x t [] m e = cc
  some_of-mem x t (u ∷ ts) m e = ground (arith, some_of-mem x t ts)

module _ (e : Env) (w : IsWellFormed e) (i : ℕ) where
  mem-outgoing :
      (s t : ℕ)
      → mem s e.process.states ≡ true
      → mem t (outgoing_transitions e.heap s)
        ≡ (mem t e.process.transitions && (e.heap.trans t).start == s)
  mem-outgoing s t k = ground (
    arith,
    mem-keep (λ u. (e.heap.trans u).start == s) t (e.heap.state s).transitions,
    w.at_state_mem s t k,
  )

  record Inv (s : Search) (sorted : List ℕ) : Type 0 where
    split : s.seen ≡ sorted ++ s.queue
    nodup : IsNodup s.seen
    source : mem i s.seen ≡ true
    known : (x : ℕ) → mem x s.seen ≡ true → mem x e.process.states ≡ true
    sound : (x : ℕ) → mem x s.seen ≡ true → Reach e i x
    closed : (x y : ℕ) → mem x sorted ≡ true → Edge e x y → mem y s.seen ≡ true

  Inv-start : mem i e.process.states ≡ true → Inv (record { seen = i ∷ []; queue = i ∷ [] }) []
  Inv-start k = record {
    split = refl;
    nodup = refl;
    source = ground arith;
    known = λ x m. ground arith;
    sound = λ x m. subst (Reach e i) ((==_iff i x).0 (ground arith)) here;
    closed = λ x y m. cc;
  }

  module _ (current : ℕ) (rest seen sorted : List ℕ)
      (inv : Inv (record { seen = seen; queue = current ∷ rest }) sorted) where
    abbrev next : Search
    next = expand e.heap current rest seen

    current_seen : mem current seen ≡ true
    current_seen = ground (arith, inv.split, mem-append current sorted (current ∷ rest))

    mem-next :
        (x : ℕ)
        → mem x next.seen ≡ (
            mem x seen
            || some_of (λ t. (e.heap.trans t).end == x) (outgoing_transitions e.heap current))
    mem-next x = mem-offer_all e.heap x (outgoing_transitions e.heap current) _

    -- What the round adds is an end of a transition from the current state.
    next-Edge : (x : ℕ) → mem x next.seen ≡ true → mem x seen ≡ false → Edge e current x
    next-Edge x m k =
        let (t, mt, ends) =
          some_of_end e.heap x (outgoing_transitions e.heap current) (ground (arith, mem-next x)) in
        let known = inv.known current current_seen in
        record {
          trans = t;
          known = ground (arith, mem-outgoing current t known);
          starts = ground (arith, mem-outgoing current t known);
          ends = ends;
        }

    Edge-next : (y : ℕ) → Edge e current y → mem y next.seen ≡ true
    Edge-next y edge = ground (
      arith,
      mem-next y,
      some_of-mem e.heap y edge.trans (outgoing_transitions e.heap current),
      mem-outgoing current edge.trans (inv.known current current_seen),
      edge.known,
      edge.starts,
      edge.ends,
    )

    Inv-next : Inv next (sorted ++ current ∷ [])
    Inv-next = record {
      split =
          offer_all-queue e.heap (sorted ++ current ∷ []) (outgoing_transitions e.heap current) _
            (inv.split ∙ sym (append_assoc sorted (current ∷ []) rest));
      nodup = offer_all-IsNodup e.heap (outgoing_transitions e.heap current) _ inv.nodup;
      source = ground (arith, mem-next i, inv.source);
      known = λ x m. elim (Bool-cases (mem x seen)) [
        | inl old ↦ inv.known x old
        | inr new ↦
            let edge = next-Edge x m new in
            subst (λ y. mem y e.process.states ≡ true) edge.ends (w.end_known edge.trans edge.known)
      ];
      sound = λ x m. elim (Bool-cases (mem x seen)) [
        | inl old ↦ inv.sound x old
        | inr new ↦ step (inv.sound current current_seen) (next-Edge x m new)
      ];
      closed = λ x y m edge. elim (Bool-cases (mem x sorted)) [
        | inl old ↦ ground (arith, mem-next y, inv.closed x y old edge)
        | inr new ↦
            let same : current ≡ x = ground (arith, mem-append x sorted (current ∷ [])) in
            Edge-next y (subst (λ z. Edge e z y) (sym same) edge)
      ];
    }

  -- While a state waits in the queue, fewer states left it than the process has.
  length-sorted-lt :
      (current : ℕ) (rest seen sorted : List ℕ)
      → Inv (record { seen = seen; queue = current ∷ rest }) sorted
      → length sorted < length e.process.states
  length-sorted-lt current rest seen sorted inv = omega (
    arith,
    length-le_of_subset seen e.process.states inv.nodup inv.known,
    ap length inv.split,
    length-append sorted (current ∷ rest),
  )

  -- Where the search ends.
  pub record Found (sorted : List ℕ) : Type 0 where
    pub nodup : IsNodup sorted
    pub source : mem i sorted ≡ true
    pub known : (x : ℕ) → mem x sorted ≡ true → mem x e.process.states ≡ true
    pub sound : (x : ℕ) → mem x sorted ≡ true → Reach e i x
    pub full : (x : ℕ) → Reach e i x → mem x sorted ≡ true

  Inv-Found :
      (seen sorted : List ℕ) → Inv (record { seen = seen; queue = [] }) sorted → Found sorted
  Inv-Found seen sorted inv = record {
    nodup = subst IsNodup same inv.nodup;
    source = ground (arith, same, inv.source);
    known = λ x m. inv.known x (ground (arith, same));
    sound = λ x m. inv.sound x (ground (arith, same));
    full = full;
  }
    where
      same : seen ≡ sorted
      same = inv.split ∙ append-nil sorted

      full : (x : ℕ) → Reach e i x → mem x sorted ≡ true
      full x here = ground (arith, same, inv.source)
      full x (step {x = z} r edge) = ground (arith, same, inv.closed z x (full z r) edge)

  search_states-Found :
      (fuel : ℕ) (seen queue sorted : List ℕ)
      → Inv (record { seen = seen; queue = queue }) sorted
      → length e.process.states ≤ fuel + length sorted
      → (ss : List ℕ) × (search_states fuel e.heap (record { seen = seen; queue = queue }) sorted
          ≡ ok ss)
        × Found ss
  unfolding search_states
  search_states-Found zero seen [] sorted inv enough = (sorted, refl, Inv-Found seen sorted inv)
  search_states-Found (suc fuel) seen [] sorted inv enough =
      (sorted, refl, Inv-Found seen sorted inv)
  search_states-Found zero seen (c ∷ rest) sorted inv enough =
      absurd (omega (arith, length-sorted-lt c rest seen sorted inv))
  search_states-Found (suc fuel) seen (c ∷ rest) sorted inv enough =
      let s = next c rest seen sorted inv in
      search_states-Found fuel s.seen s.queue (sorted ++ c ∷ []) (Inv-next c rest seen sorted inv)
        (omega (arith, length-append sorted (c ∷ [])))

-- On a well-formed process with an initial state the search ends within as many rounds as the
-- process has states. It lists, each once, exactly the states that can be reached from the initial
-- state, which are states of the process.
pub sorted_states-Found :
    (e : Env) (w : IsWellFormed e) (i : ℕ)
    → e.process.initial_state ≡ some i
    → (ss : List ℕ) × (sorted_states e ≡ ok ss) × Found e w i ss
unfolding sorted_states
sorted_states-Found e w i h =
    let (ss, done, found) =
      search_states-Found e w i (length e.process.states) (i ∷ []) (i ∷ []) []
        (Inv-start e w i (w.initial_known i h)) (omega arith) in
    (ss, ground (arith, h, done), found)
