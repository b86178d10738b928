-- ===== src/Ir/DeadCode/Runs.antt =====
-- The finished runs of statements, as traces of events. What a statement does that is not an if, a
-- loop or a return is given from outside.
use toph.Ir.Values.{RValue}
use toph.Ir.Stmts.{
  BranchKind, continue, break, ForProps, Stmt, if_stmt, for_stmt, return_stmt, Body, body, Stmts,
  end, next,
}
use toph.Prelude.{
  ◌++◌, ◌==◌, Bool, List, [], ap, false, if◌then◌else◌, inl, inr, refl, subst, sym, ℕ, ◌↔◌, ◌∙◌,
  ◌≡◌, ◌≢◌, ◌⊎◌,
}

-- How a run ends: behind the statement, in a return or panic, or at a branch to a labelled statement.
pub data Outcome : Type 0 where
  done : Outcome
  returned : List (ℕ × RValue) → Bool → Outcome
  jumped : ℕ → BranchKind → Outcome

abbrev pub Meaning : Type 0 → Type 1
Meaning E = List E → Outcome → Type 0

-- What a loop does after its body: it goes on, or ends with an outcome.
pub data After : Type 0 where
  on : After
  out : Outcome → After

abbrev pub after_body : ℕ → Outcome → After
after_body label done = on
after_body label (returned rs p) = out (returned rs p)
after_body label (jumped target continue) =
    if label == target then on else out (jumped target continue)
after_body label (jumped target break) =
    if label == target then out done else out (jumped target break)

-- The end of the body of a function is a return without results.
abbrev pub finish : Outcome → Outcome
finish done = returned [] false
finish o = o

module _ {E : Type 0} where
  -- Nothing happens.
  abbrev pub Silent : Meaning E
  Silent t o = (t ≡ []) × (o ≡ done)

  -- One part after the other; the second is left out where the first one does not end behind itself.
  abbrev pub Sequence : Meaning E → Meaning E → Meaning E
  Sequence P Q t o =
      ((t₁ : List E) × (t₂ : List E) × (t ≡ t₁ ++ t₂) × P t₁ done × Q t₂ o) ⊎ (P t o × (o ≢ done))

  pub data Loop (p : ForProps) (C B : Meaning E) : List E → Outcome → Type 0 where
    exit : (t : List E) → p.is_infinite ≡ false → C t done → Loop p C B t done
    left : (t : List E) (o : Outcome) → C t o → o ≢ done → Loop p C B t o
    again :
        (t t₁ t₂ t₃ : List E) (q o : Outcome)
        → t ≡ t₁ ++ (t₂ ++ t₃)
        → C t₁ done
        → B t₂ q
        → after_body p.label q ≡ on
        → Loop p C B t₃ o
        → Loop p C B t o
    ended :
        (t t₁ t₂ : List E) (q o : Outcome)
        → t ≡ t₁ ++ t₂
        → C t₁ done
        → B t₂ q
        → after_body p.label q ≡ out o
        → Loop p C B t o

  -- Two meanings with the same runs.
  abbrev pub Same : Meaning E → Meaning E → Type 0
  Same P Q = (t : List E) (o : Outcome) → P t o ↔ Q t o

  pub refl-Same : (P : Meaning E) → Same P P
  refl-Same P t o = (λ h. h, λ h. h)

  pub trans-Same : (P Q R : Meaning E) → Same P Q → Same Q R → Same P R
  trans-Same P Q R f g t o = (λ h. (g t o).0 ((f t o).0 h), λ h. (f t o).1 ((g t o).1 h))

  Loop-map :
      (p : ForProps) (C B C' B' : Meaning E)
      → ((t : List E) (o : Outcome) → C t o → C' t o)
      → ((t : List E) (o : Outcome) → B t o → B' t o)
      → (t : List E) (o : Outcome) → Loop p C B t o
      → Loop p C' B' t o
  Loop-map p C B C' B' f g _ _ (exit t i c) = exit t i (f t done c)
  Loop-map p C B C' B' f g _ _ (left t o c n) = left t o (f t o c) n
  Loop-map p C B C' B' f g _ _ (again t t₁ t₂ t₃ q o e c b a l) =
      again t t₁ t₂ t₃ q o e (f t₁ done c) (g t₂ q b) a (Loop-map p C B C' B' f g t₃ o l)
  Loop-map p C B C' B' f g _ _ (ended t t₁ t₂ q o e c b a) =
      ended t t₁ t₂ q o e (f t₁ done c) (g t₂ q b) a

  pub Loop-Same :
      (p : ForProps) (C B C' B' : Meaning E)
      → Same C C'
      → Same B B'
      → Same (Loop p C B) (Loop p C' B')
  Loop-Same p C B C' B' f g t o = (
    Loop-map p C B C' B' (λ u q. (f u q).0) (λ u q. (g u q).0) t o,
    Loop-map p C' B' C B (λ u q. (f u q).1) (λ u q. (g u q).1) t o,
  )

  Loop-silent : (p : ForProps) (t : List E) (o : Outcome) → Loop p Silent Silent t o → Silent t o
  Loop-silent p _ _ (exit t i c) = c
  Loop-silent p _ _ (left t o c n) = c
  Loop-silent p _ _ (again t t₁ t₂ t₃ q o e c b a l) =
      let (x, y) = Loop-silent p t₃ o l in (e ∙ rw (c.0, b.0, x) refl, y)
  Loop-silent p _ _ (ended t t₁ t₂ q o e c b a) =
      let w : on ≡ out o = sym (ap (after_body p.label) b.1) ∙ a in cc

  -- A loop that is not infinite and whose condition and body do nothing, does nothing.
  pub Loop-Silent : (p : ForProps) → p.is_infinite ≡ false → Same (Loop p Silent Silent) Silent
  Loop-Silent p i t o = (Loop-silent p t o, λ (x, y). rw y (exit t i (x, refl)))

  pub Sequence-Same :
      (P Q P' Q' : Meaning E) → Same P P' → Same Q Q' → Same (Sequence P Q) (Sequence P' Q')
  Sequence-Same P Q P' Q' f g t o = (
    λ h. elim h [
      | inl (t₁, t₂, e, p, q) ↦ inl (t₁, t₂, e, (f t₁ done).0 p, (g t₂ o).0 q)
      | inr (p, n) ↦ inr ((f t o).0 p, n)
    ],
    λ h. elim h [
      | inl (t₁, t₂, e, p, q) ↦ inl (t₁, t₂, e, (f t₁ done).1 p, (g t₂ o).1 q)
      | inr (p, n) ↦ inr ((f t o).1 p, n)
    ],
  )

  pub Sequence-Silent : (Q : Meaning E) → Same (Sequence Silent Q) Q
  Sequence-Silent Q t o = (
    λ h. elim h [
      | inl (t₁, t₂, e, (x, y), q) ↦ subst (λ u. Q u o) (sym (e ∙ ap (λ u. u ++ t₂) x)) q
      | inr ((x, y), n) ↦ absurd (n y)
    ],
    λ q. inl ([], t, refl, (refl, refl), q),
  )

  abbrev pub Finished : Meaning E → Meaning E
  Finished P t o = (q : Outcome) × P t q × (finish q ≡ o)

  pub Finished-Same : (P Q : Meaning E) → Same P Q → Same (Finished P) (Finished Q)
  Finished-Same P Q f t o = (λ (q, p, e). (q, (f t q).0 p, e), λ (q, p, e). (q, (f t q).1 p, e))

  Sequence-map :
      (P Q R : Meaning E)
      → ((t : List E) (o : Outcome) → Finished Q t o → Finished R t o)
      → (t : List E) (o : Outcome) → Finished (Sequence P Q) t o
      → Finished (Sequence P R) t o
  Sequence-map P Q R f t o (q, inl (t₁, t₂, e, p, x), h) =
      let (q', y, h') = f t₂ o (q, x, h) in (q', inl (t₁, t₂, e, p, y), h')
  Sequence-map P Q R f t o (q, inr x, h) = (q, inr x, h)

  -- The end of a sequence matters up to how it finishes.
  pub Sequence-Finished :
      (P Q R : Meaning E)
      → Same (Finished Q) (Finished R)
      → Same (Finished (Sequence P Q)) (Finished (Sequence P R))
  Sequence-Finished P Q R f t o =
      (Sequence-map P Q R (λ u q. (f u q).0) t o, Sequence-map P R Q (λ u q. (f u q).1) t o)

  -- The runs, where `Leaf` gives those of all other statements.
  module _ (Leaf : Stmt → Meaning E) where
    unfoldable mutual
      pub RunsStmt : Stmt → Meaning E
      RunsStmt (if_stmt a b) t o = RunsBody a t o ⊎ RunsBody b t o
      RunsStmt (for_stmt p c b) t o = Loop p (RunsBody c) (RunsBody b) t o
      RunsStmt (return_stmt rs p) t o = (t ≡ []) × (o ≡ returned rs p)
      RunsStmt s t o = Leaf s t o

      pub RunsBody : Body → Meaning E
      RunsBody (body _ ss) t o = RunsStmts ss t o

      pub RunsStmts : Stmts → Meaning E
      RunsStmts end t o = Silent t o
      RunsStmts (next s ss) t o = Sequence (RunsStmt s) (RunsStmts ss) t o

    abbrev pub RunsFunc : Body → Meaning E
    RunsFunc b = Finished (RunsBody b)
