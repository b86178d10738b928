-- ===== src/Optimizer/Transitions/Correct.antt =====
-- What the reducer keeps and what it removes.
use toph.Uppaal.Objects.{Trans}
use toph.Prelude.{
  text_eq_iff, ◌&&◌, ◌==◌, List, [], arith, refl, true, ℕ, ◌≡◌, mem, IsNodup, is_nodup, set,
}
use toph.Optimizer.Transitions.{same_labels, duplicates, ok, reduce_transitions_in_process}
use toph.Uppaal.Process.{Env}
use toph.Optimizer.Transitions.Groups.{
  scan_all, scan_all_frame, scan_starts-groups, scan_all-IsNodup, scan_all_unique, scan_all_cover,
}
use toph.Uppaal.Process.Groups.{all_of, mates, groups}
use toph.Uppaal.Process.Invariant.{IsWellFormed}
use toph.Uppaal.Process.Placement.{IsWellFormed-IsPlaced, mates-groups, mem-groups, groups-nodup}
use toph.Optimizer.Transitions.Removal.{AllRemoved, remove_all-AllRemoved}

-- An order of a `range` over a set: it yields the elements of the set, each once.
pub record IsOrder (order : List ℕ → List ℕ) : Type 0 where
  pub elements : (xs : List ℕ) (x : ℕ) → mem x (order xs) ≡ mem x xs
  pub once : (xs : List ℕ) → IsNodup xs → IsNodup (order xs)

-- The four labels of two transitions are the same texts.
pub record HasSameLabels (t u : Trans) : Type 0 where
  pub select_stmts : t.select_stmts ≡ u.select_stmts
  pub guard_expr : t.guard_expr ≡ u.guard_expr
  pub sync_stmt : t.sync_stmt ≡ u.sync_stmt
  pub update_stmts : t.update_stmts ≡ u.update_stmts

same_labels-HasSameLabels : (t u : Trans) → same_labels t u ≡ true → HasSameLabels t u
same_labels-HasSameLabels t u h = record {
  select_stmts = (text_eq_iff t.select_stmts u.select_stmts).0 (ground (arith, h));
  guard_expr = (text_eq_iff t.guard_expr u.guard_expr).0 (ground (arith, h));
  sync_stmt = (text_eq_iff t.sync_stmt u.sync_stmt).0 (ground (arith, h));
  update_stmts = (text_eq_iff t.update_stmts u.update_stmts).0 (ground (arith, h));
}

HasSameLabels-same_labels : (t u : Trans) → HasSameLabels t u → same_labels t u ≡ true
HasSameLabels-same_labels t u h = ground (
  arith,
  (text_eq_iff t.select_stmts u.select_stmts).1 h.select_stmts,
  (text_eq_iff t.guard_expr u.guard_expr).1 h.guard_expr,
  (text_eq_iff t.sync_stmt u.sync_stmt).1 h.sync_stmt,
  (text_eq_iff t.update_stmts u.update_stmts).1 h.update_stmts,
)

-- What the reducer makes of a process.
pub record Reduced (e e' : Env) : Type 0 where
  pub well_formed : IsWellFormed e'
  pub objects : e'.heap.trans ≡ e.heap.trans
  pub states : e'.process.states ≡ e.process.states
  pub initial : e'.process.initial_state ≡ e.process.initial_state
  pub subset : (t : ℕ) → mem t e'.process.transitions ≡ true → mem t e.process.transitions ≡ true
  pub unique :
      (t u : ℕ)
      → mem t e'.process.transitions ≡ true
      → mem u e'.process.transitions ≡ true
      → (e.heap.trans t).start ≡ (e.heap.trans u).start
      → (e.heap.trans t).end ≡ (e.heap.trans u).end
      → HasSameLabels (e.heap.trans t) (e.heap.trans u)
      → t ≡ u
  pub covered :
      (t : ℕ)
      → mem t e.process.transitions ≡ true
      → (u : ℕ) × (mem u e'.process.transitions ≡ true)
        × ((e.heap.trans u).start ≡ (e.heap.trans t).start)
        × ((e.heap.trans u).end ≡ (e.heap.trans t).end)
        × HasSameLabels (e.heap.trans t) (e.heap.trans u)

module _ (e : Env) (w : IsWellFormed e) where
  abbrev m : List (ℕ × List (ℕ × List ℕ))
  m = e.process.transition_lookup

  abbrev start : ℕ → ℕ
  start t = (e.heap.trans t).start

  abbrev end : ℕ → ℕ
  end t = (e.heap.trans t).end

  mem-all_groups : (t : ℕ) → mem t (all_of (groups m)) ≡ mem t e.process.transitions
  mem-all_groups t = ground (
    arith,
    mem-groups start end t m w.distinct (IsWellFormed-IsPlaced e w),
    w.between_mem (start t) (end t) t,
  )

  mates-all :
      (t u : ℕ)
      → mates (groups m) t u ≡ (
          mem t e.process.transitions
          && (mem u e.process.transitions && (start t == start u && end t == end u)))
  mates-all t u = ground (
    arith,
    mates-groups start end t u m w.distinct (IsWellFormed-IsPlaced e w),
    w.between_mem (start t) (end t) t,
    w.between_mem (start u) (end u) u,
  )

  groups_once : is_nodup (all_of (groups m)) ≡ true
  groups_once = groups-nodup start end m w.distinct (IsWellFormed-IsPlaced e w)

  duplicates-scan : duplicates e ≡ scan_all e.heap (groups m) []
  unfolding duplicates
  duplicates-scan = scan_starts-groups e.heap m []

  duplicates-subset : (t : ℕ) → mem t (duplicates e) ≡ true → mem t e.process.transitions ≡ true
  duplicates-subset t h =
      ground (arith, duplicates-scan, scan_all_frame e.heap t (groups m) [], mem-all_groups t)

  duplicates-IsNodup : IsNodup (duplicates e)
  duplicates-IsNodup = rw duplicates-scan (scan_all-IsNodup e.heap (groups m) [] refl)

  -- What a run with the marked transitions removed in some order gives.
  AllRemoved-Reduced :
      (ts : List ℕ) (e' : Env)
      → ((t : ℕ) → mem t ts ≡ mem t (duplicates e))
      → AllRemoved ts e e'
      → Reduced e e'
  AllRemoved-Reduced ts e' set r = record {
    well_formed = r.well_formed;
    objects = r.objects;
    states = r.states;
    initial = r.initial;
    subset = λ t h. ground (arith, r.transitions t);
    unique = λ t u ht hu p q s.
        scan_all_unique e.heap t u (groups m) [] groups_once
          (ground (arith, mates-all t u, r.transitions t, r.transitions u))
          (ground (arith, duplicates-scan, set t, r.transitions t))
          (ground (arith, duplicates-scan, set u, r.transitions u))
          (HasSameLabels-same_labels (e.heap.trans t) (e.heap.trans u) s);
    covered = λ t h.
        let (u, mt, ku, s) =
          scan_all_cover e.heap t (groups m) [] groups_once (ground (arith, mem-all_groups t))
            refl in
        (
          u,
          ground (arith, mates-all t u, duplicates-scan, set u, r.transitions u),
          ground (arith, mates-all t u),
          ground (arith, mates-all t u),
          same_labels-HasSameLabels (e.heap.trans t) (e.heap.trans u) s,
        );
  }

-- On a well-formed process, in whatever order the set of marked transitions is gone through, the
-- reducer does not panic and leaves a well-formed process with the same states, initial state and
-- objects. No two transitions that remain have the same ends and labels, and every transition
-- of before has one that remains with its ends and labels.
pub reduce_transitions-Reduced :
    (order : List ℕ → List ℕ) (e : Env)
    → IsOrder order
    → IsWellFormed e
    → (e' : Env) × (reduce_transitions_in_process order e ≡ ok e') × Reduced e e'
unfolding reduce_transitions_in_process
reduce_transitions-Reduced order e o w =
    let set = o.elements (duplicates e) in
    let (e', done, r) =
      remove_all-AllRemoved (order (duplicates e)) e w
        (o.once (duplicates e) (duplicates-IsNodup e w))
        (λ t h. ground (arith, duplicates-subset e w t, set t)) in
    (e', done, AllRemoved-Reduced e w (order (duplicates e)) e' set r)
