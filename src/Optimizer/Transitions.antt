-- ===== src/Optimizer/Transitions.antt =====
-- uppaal/optimizer/trans_reducer.go: duplicate transitions are removed from a process.
pub mod Scan
pub mod Groups
pub mod Removal
pub mod Correct
use toph.Prelude.{
  text_eq, ◌>>=◌, ◌&&◌, ◌++◌, Bool, List, [], if◌then◌else◌, ℕ, ◌∷◌, Result, mem, ok,
}
use toph.Uppaal.Objects.{Trans, Heap}
use toph.Uppaal.Process.{Env, remove_transition}

abbrev pub same_labels : Trans → Trans → Bool
same_labels t u =
    text_eq t.select_stmts u.select_stmts
    && (text_eq t.guard_expr u.guard_expr
        && (text_eq t.sync_stmt u.sync_stmt && text_eq t.update_stmts u.update_stmts))

-- `removalSet[t] = true`
abbrev mark : ℕ → List ℕ → List ℕ
mark t removal = if mem t removal then removal else removal ++ t ∷ []

-- The inner loop, over the transitions behind `t`.
mark_equal : Heap → ℕ → List ℕ → List ℕ → List ℕ
mark_equal h t [] removal = removal
mark_equal h t (u ∷ rest) removal =
    mark_equal h t rest (if same_labels (h.trans t) (h.trans u) then mark u removal else removal)

-- The loop over the transitions between two states.
pub scan : Heap → List ℕ → List ℕ → List ℕ
unfolding mark_equal
scan h [] removal = removal
scan h (t ∷ rest) removal =
    scan h rest (if mem t removal then removal else mark_equal h t rest removal)

pub scan_ends : Heap → List (ℕ × List ℕ) → List ℕ → List ℕ
unfolding scan
scan_ends h [] removal = removal
scan_ends h ((_, ts) ∷ ends) removal = scan_ends h ends (scan h ts removal)

pub scan_starts : Heap → List (ℕ × List (ℕ × List ℕ)) → List ℕ → List ℕ
unfolding scan_ends
scan_starts h [] removal = removal
scan_starts h ((_, ends) ∷ m) removal = scan_starts h m (scan_ends h ends removal)

-- The set `removalSet` behind the loops.
pub duplicates : Env → List ℕ
unfolding scan_starts
duplicates e = scan_starts e.heap e.process.transition_lookup []

unfoldable pub remove_all : List ℕ → Env → Result Env
remove_all [] e = ok e
remove_all (t ∷ ts) e = remove_transition t e >>= remove_all ts

-- `order` is the order in which the last `range` goes over the set.
pub reduce_transitions_in_process : (List ℕ → List ℕ) → Env → Result Env
unfolding remove_all duplicates remove_transition
reduce_transitions_in_process order e = remove_all (order (duplicates e)) e
