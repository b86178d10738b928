-- ===== src/Ir/DeadCode/Program.antt =====
-- Which functions the elimination of dead code takes for empty.
use toph.Ir.Stmts.{Body, body, end, next}
use toph.Analyzer.CallGraph.{CallGraph}
use toph.Ir.DeadCode.{
  is_body_empty, without_dead_code, eliminate_dead_code_in_body, eliminate_func_calls,
  eliminate_func_calls_in_body, Progress, eliminate_in_funcs, note_empty_funcs,
  eliminate_in_components,
}
use toph.Prelude.{
  ◌&&◌, ◌==◌, Bool, List, [], if◌then◌else◌, refl, true, ℕ, ◌∷◌, ◌≡◌, ==_iff, arith, false, sym,
}

-- Every function that is noted has an empty body.
abbrev pub AreEmpty : Progress → Type 0
AreEmpty p = (f : ℕ) → p.empty_funcs f ≡ true → is_body_empty (p.bodies f) ≡ true

empty_stays :
    (callees : ℕ → Bool) (g : CallGraph) (b : Body)
    → is_body_empty b ≡ true
    → is_body_empty (eliminate_func_calls_in_body (eliminate_dead_code_in_body b true) callees g)
      ≡ true
unfolding without_dead_code eliminate_func_calls_in_body eliminate_func_calls
empty_stays callees g (body p end) h = refl
empty_stays callees g (body p (next s ss)) h = cc

kept_empty :
    (g : CallGraph) (f k : ℕ) (p : Progress) (same : Bool)
    → (f == k) ≡ same
    → is_body_empty (p.bodies k) ≡ true
    → is_body_empty (
        if same
        then eliminate_func_calls_in_body
            (eliminate_dead_code_in_body (p.bodies f) true)
            p.empty_funcs
            g
        else p.bodies k)
      ≡ true
kept_empty g f k p false e h = h
kept_empty g f k p true e h = empty_stays p.empty_funcs g (p.bodies f) (rw ((==_iff f k).0 e) h)

noted_empty :
    (f k : ℕ) (p : Progress) (new : Bool)
    → (f == k && is_body_empty (p.bodies f)) ≡ new
    → (if new then true else p.empty_funcs k) ≡ true
    → (p.empty_funcs k ≡ true → is_body_empty (p.bodies k) ≡ true)
    → is_body_empty (p.bodies k) ≡ true
noted_empty f k p false e n h = h n
noted_empty f k p true e n h =
    let u : f ≡ k = ground (arith, e) in
    let v : is_body_empty (p.bodies f) ≡ true = ground (arith, e) in rw (sym u) v

eliminate_in_funcs-AreEmpty :
    (g : CallGraph) (fs : List ℕ) (p : Progress) → AreEmpty p → AreEmpty (eliminate_in_funcs g fs p)
unfolding eliminate_in_funcs
eliminate_in_funcs-AreEmpty g [] p h = h
eliminate_in_funcs-AreEmpty g (f ∷ fs) p h =
    eliminate_in_funcs-AreEmpty g fs
      (record p {
        bodies = λ k.
            if f == k
            then eliminate_func_calls_in_body (eliminate_dead_code_in_body (p.bodies f) true)
                p.empty_funcs g
            else p.bodies k;
      })
      (λ k e. kept_empty g f k p (f == k) refl (h k e))

note_empty_funcs-AreEmpty :
    (fs : List ℕ) (p : Progress) → AreEmpty p → AreEmpty (note_empty_funcs fs p)
unfolding note_empty_funcs
note_empty_funcs-AreEmpty [] p h = h
note_empty_funcs-AreEmpty (f ∷ fs) p h =
    note_empty_funcs-AreEmpty fs
      (record p {
        empty_funcs = λ k. if f == k && is_body_empty (p.bodies f) then true else p.empty_funcs k;
      })
      (λ k e. noted_empty f k p (f == k && is_body_empty (p.bodies f)) refl e (h k))

-- If every function noted as empty has an empty body, then so it is when all components are done:
-- the bodies of functions noted before stay empty.
pub eliminate_in_components-AreEmpty :
    (g : CallGraph) (components : List (List ℕ)) (p : Progress)
    → AreEmpty p
    → AreEmpty (eliminate_in_components g components p)
unfolding eliminate_in_components
eliminate_in_components-AreEmpty g [] p h = h
eliminate_in_components-AreEmpty g (fs ∷ components) p h =
    eliminate_in_components-AreEmpty g components (note_empty_funcs fs (eliminate_in_funcs g fs p))
      (note_empty_funcs-AreEmpty fs (eliminate_in_funcs g fs p)
        (eliminate_in_funcs-AreEmpty g fs p h))
