-- ===== src/Optimizer/States/Labels.antt =====
-- What joining an incoming and an outgoing transition keeps of their labels.
use toph.Prelude.{
  lit, ◌++◌, List, Text, [], arith, if◌then◌else◌, refl, sym, text_eq, ◌∙◌, ◌∷◌, ◌≡◌, ◌&&◌, Bool,
  ap, false, mem, some_of, text_eq_iff, true, ◌||◌, ℕ,
}
use mathlib.Core.List.{append_assoc, append-nil}
use toph.Uppaal.Location.{Location}
use toph.Uppaal.Objects.{Trans, new_trans, add_nail}
use toph.Optimizer.States.{
  merge, merge_update, add_nails, merge_sync, merge_guard, uses_globals, is_removable, Heap,
  has_text, incoming_transitions, outgoing_transitions, conflicts, analyze,
}

-- Everything of a transition but its nails.
record SameButNails (t u : Trans) : Type 0 where
  start : t.start ≡ u.start
  end : t.end ≡ u.end
  select_stmts : t.select_stmts ≡ u.select_stmts
  guard_expr : t.guard_expr ≡ u.guard_expr
  guard_uses_globals : t.guard_uses_globals ≡ u.guard_uses_globals
  sync_stmt : t.sync_stmt ≡ u.sync_stmt
  update_stmts : t.update_stmts ≡ u.update_stmts
  update_uses_globals : t.update_uses_globals ≡ u.update_uses_globals

add_nails-SameButNails : (ns : List Location) (t : Trans) → SameButNails (add_nails ns t) t
add_nails-SameButNails [] t = record {
  start = refl;
  end = refl;
  select_stmts = refl;
  guard_expr = refl;
  guard_uses_globals = refl;
  sync_stmt = refl;
  update_stmts = refl;
  update_uses_globals = refl;
}
add_nails-SameButNails (n ∷ ns) t = ground (arith, add_nails-SameButNails ns (add_nail n t))

add_nails-nails : (ns : List Location) (t : Trans) → (add_nails ns t).nails ≡ t.nails ++ ns
add_nails-nails [] t = sym (append-nil t.nails)
add_nails-nails (n ∷ ns) t = add_nails-nails ns (add_nail n t) ∙ append_assoc t.nails (n ∷ []) ns

-- A label of two parts, either of which may be missing.
abbrev pub both : (Text → Text → Text) → Text → Text → Text
both f a b = if text_eq a [] then b else (if text_eq b [] then a else f a b)

abbrev pub guards : Text → Text → Text
guards a b = lit "(" ++ (a ++ (lit ") && \n(" ++ (b ++ lit ")")))

abbrev pub updates : Text → Text → Text
updates a b = a ++ (lit ", " ++ (lit "\n" ++ b))

-- The labels of the joined transition, in terms of those of the two.
pub record Merged (location : Location) (i o t : Trans) : Type 0 where
  pub start : t.start ≡ i.start
  pub end : t.end ≡ o.end
  pub select_stmts : t.select_stmts ≡ []
  pub guard_expr : t.guard_expr ≡ both guards i.guard_expr o.guard_expr
  pub sync_stmt : t.sync_stmt ≡ (if text_eq i.sync_stmt [] then o.sync_stmt else i.sync_stmt)
  pub update_stmts : t.update_stmts ≡ both updates i.update_stmts o.update_stmts
  pub nails : t.nails ≡ i.nails ++ location ∷ o.nails

module _ (location : Location) (i o : Trans) where
  abbrev pub fresh : Trans
  fresh = new_trans i.start o.end

  abbrev labelled : Trans
  labelled = merge_update i o (merge_sync i o (merge_guard i o fresh))

  merge-SameButNails : SameButNails (merge location i o fresh) labelled
  unfolding merge
  merge-SameButNails = ground (
    arith,
    add_nails-SameButNails o.nails (add_nail location (add_nails i.nails labelled)),
    add_nails-SameButNails i.nails labelled,
  )

  labelled-ends : (labelled.start ≡ i.start) × (labelled.end ≡ o.end) × (labelled.select_stmts ≡ [])
  labelled-ends = ground arith

  labelled-guard : labelled.guard_expr ≡ both guards i.guard_expr o.guard_expr
  labelled-guard = ground arith

  labelled-sync : labelled.sync_stmt ≡ (if text_eq i.sync_stmt [] then o.sync_stmt else i.sync_stmt)
  labelled-sync = ground (arith, text_eq_iff o.sync_stmt [])

  labelled-update : labelled.update_stmts ≡ both updates i.update_stmts o.update_stmts
  labelled-update = ground (arith, text_eq_iff o.update_stmts [], text_eq_iff i.update_stmts [])

  labelled-nails : labelled.nails ≡ []
  labelled-nails = ground arith

  merge-nails : (merge location i o fresh).nails ≡ i.nails ++ location ∷ o.nails
  unfolding merge
  merge-nails =
      add_nails-nails o.nails (add_nail location (add_nails i.nails labelled))
      ∙ ap (λ ns. (ns ++ location ∷ []) ++ o.nails)
          (add_nails-nails i.nails labelled ∙ ap (λ ns. ns ++ i.nails) labelled-nails)
      ∙ append_assoc i.nails (location ∷ []) o.nails

  -- The start is that of the incoming transition and the end that of the outgoing one. Guards are
  -- joined by a conjunction and updates are run in order where both have one. Nothing is selected,
  -- the sync statement is that of the side that has one, of the incoming side if both do, and the
  -- nails go along both transitions through the place of the removed state.
  pub merge-Merged : Merged location i o (merge location i o fresh)
  merge-Merged =
      let s = merge-SameButNails in
      record {
        start = s.start ∙ labelled-ends.0;
        end = s.end ∙ labelled-ends.1;
        select_stmts = s.select_stmts ∙ labelled-ends.2;
        guard_expr = s.guard_expr ∙ labelled-guard;
        sync_stmt = s.sync_stmt ∙ labelled-sync;
        update_stmts = s.update_stmts ∙ labelled-update;
        nails = merge-nails;
      }

  -- A flag for global variables is set only where there is a label that can use them.
  labelled-globals :
      (text_eq i.guard_expr [] ≡ true → i.guard_uses_globals ≡ false)
      → (text_eq o.guard_expr [] ≡ true → o.guard_uses_globals ≡ false)
      → (text_eq i.update_stmts [] ≡ true → i.update_uses_globals ≡ false)
      → (text_eq o.update_stmts [] ≡ true → o.update_uses_globals ≡ false)
      → (labelled.guard_uses_globals ≡ (i.guard_uses_globals || o.guard_uses_globals))
        × (labelled.update_uses_globals ≡ (i.update_uses_globals || o.update_uses_globals))
  labelled-globals gi go ui uo = (ground arith, ground arith)

-- A flag for global variables is set only where there is a label that can use them.
pub record HasTrueFlags (t : Trans) : Type 0 where
  pub guard : text_eq t.guard_expr [] ≡ true → t.guard_uses_globals ≡ false
  pub update : text_eq t.update_stmts [] ≡ true → t.update_uses_globals ≡ false

-- Where the flags of globals are set only for labels that are there, the joined transition uses
-- globals exactly if one of the two does.
pub merge-uses_globals :
    (location : Location) (i o : Trans)
    → HasTrueFlags i
    → HasTrueFlags o
    → uses_globals (merge location i o (new_trans i.start o.end))
      ≡ (uses_globals i || uses_globals o)
merge-uses_globals location i o hi ho =
    let s = merge-SameButNails location i o in
    let f = labelled-globals location i o hi.guard ho.guard hi.update ho.update in
    ground (
      arith,
      s.guard_uses_globals ∙ f.0,
      s.update_uses_globals ∙ f.1,
      s.sync_stmt ∙ labelled-sync location i o,
    )

some_of-mem :
    (p : ℕ → Bool) (t : ℕ) (ts : List ℕ) → mem t ts ≡ true → p t ≡ true → some_of p ts ≡ true
some_of-mem p t [] m k = cc
some_of-mem p t (x ∷ ts) m k = ground (arith, some_of-mem p t ts, ap p {x = x} {y = t})

-- What holds of the two transitions that are joined when a state is removed.
pub record IsAtomic (i o : Trans) : Type 0 where
  pub globals : (uses_globals i && uses_globals o) ≡ false
  pub guard : ((has_text i.sync_stmt || has_text i.update_stmts) && has_text o.guard_expr) ≡ false
  pub sync : (has_text i.update_stmts && has_text o.sync_stmt) ≡ false
  pub one_sync : (has_text i.sync_stmt && has_text o.sync_stmt) ≡ false

-- A state is removed only if, for each pair of an incoming and an outgoing transition, at most one
-- of the two uses globals, an outgoing guard does not come behind a sync or an update, an outgoing
-- sync does not come behind an update, and at most one of the two has a sync statement, so the
-- joined transition loses none.
pub is_removable-IsAtomic :
    (h : Heap) (s i o : ℕ)
    → is_removable h s ≡ true
    → mem i (incoming_transitions h s) ≡ true
    → mem o (outgoing_transitions h s) ≡ true
    → IsAtomic (h.trans i) (h.trans o)
unfolding is_removable
is_removable-IsAtomic h s i o r mi mo =
    let ins = incoming_transitions h s in
    let outs = outgoing_transitions h s in
    let quiet : conflicts (analyze h ins) (analyze h outs) ≡ false = ground arith in
    ground (
      arith,
      quiet,
      some_of-mem (λ t. has_text (h.trans t).guard_expr) o outs mo,
      some_of-mem (λ t. has_text (h.trans t).sync_stmt) i ins mi,
      some_of-mem (λ t. has_text (h.trans t).sync_stmt) o outs mo,
      some_of-mem (λ t. has_text (h.trans t).update_stmts) i ins mi,
      some_of-mem (λ t. uses_globals (h.trans t)) i ins mi,
      some_of-mem (λ t. uses_globals (h.trans t)) o outs mo,
    )
