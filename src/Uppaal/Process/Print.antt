-- ===== src/Uppaal/Process/Print.antt =====
-- The text of a process: AsXTA and AsUGI of uppaal/state.go, transition.go and process.go.
pub mod Laws
use toph.Uppaal.Process.Groups.{all_of, groups}
use toph.Prelude.{
  lit, text_eq, decimal, join, nil_dereference, length, is_empty, ◌+◌, ◌++◌, Bool, List, Result,
  Text, [], false, if◌then◌else◌, keep, ltb, none, some, true, ℕ, ◌∷◌, panic, ok,
}
use toph.Uppaal.Location
use toph.Uppaal.Location.{Location, absolute_to_trans_relative}
use toph.Uppaal.Objects.{State, Heap, StateType, normal, committed, urgent}
use toph.Uppaal.Declarations
use toph.Uppaal.Process.{Process}

unfoldable pub state_ugi : State → Text
state_ugi s =
    lit "location "
    ++ (s.name
        ++ (lit " "
            ++ (Location.as_ugi s.location
                ++ (lit ";\nlocationName "
                    ++ (s.name
                        ++ (Location.as_ugi (Location.sub s.name_location s.location)
                            ++ lit ";\n"))))))

-- A part of a transition's text, which is left out for an empty label.
abbrev part : Text → Text → Text
part keyword label = if text_eq label [] then [] else keyword ++ (label ++ lit "; ")

unfoldable pub trans_xta : Heap → ℕ → Text
trans_xta h t =
    let o = h.trans t in
    (h.state o.start).name
    ++ (lit " -> "
        ++ ((h.state o.end).name
            ++ (lit " { "
                ++ (part (lit "select ") o.select_stmts
                    ++ (part (lit "guard ") o.guard_expr
                        ++ (part (lit "sync ") o.sync_stmt
                            ++ (part (lit "assign ") o.update_stmts ++ lit "}")))))))

-- The identification of a transition: its states, and its index between them.
abbrev trans_id : Heap → ℕ → ℕ → Text
trans_id h t index =
    let o = h.trans t in
    (h.state o.start).name ++ (lit " " ++ ((h.state o.end).name ++ (lit " " ++ decimal index)))

abbrev position : Text → Text → Location → Location → Location → Text
position keyword id absolute start end =
    keyword
    ++ (id
        ++ (lit " "
            ++ (Location.as_ugi (absolute_to_trans_relative absolute start end) ++ lit ";\n")))

nails_ugi : Text → Location → Location → List Location → Text
nails_ugi id start end [] = []
nails_ugi id start end (n ∷ ns) =
    position (lit "trans ") id n start end ++ nails_ugi id start end ns

abbrev label_ugi : Text → Text → Text → Location → Location → Location → Text
label_ugi label keyword id absolute start end =
    if text_eq label [] then [] else position keyword id absolute start end

unfoldable pub trans_ugi : Heap → ℕ → Location → Location → ℕ → Text
unfolding nails_ugi
trans_ugi h t start end index =
    let o = h.trans t in
    let id = trans_id h t index in
    nails_ugi id start end o.nails
    ++ (label_ugi o.select_stmts (lit "select ") id o.select_location start end
        ++ (label_ugi o.guard_expr (lit "guard ") id o.guard_location start end
            ++ (label_ugi o.sync_stmt (lit "sync ") id o.sync_location start end
                ++ label_ugi o.update_stmts (lit "assign ") id o.update_location start end)))

-- The loops that write the names of states, with a comma behind each but the last.
names_xta : Heap → Bool → List ℕ → Text
names_xta h first [] = []
names_xta h first (s ∷ ss) =
    (if first then [] else lit ",\n") ++ (lit "    " ++ ((h.state s).name ++ names_xta h false ss))

abbrev same_type : StateType → StateType → Bool
same_type normal normal = true
same_type committed committed = true
same_type urgent urgent = true
same_type _ _ = false

abbrev pub states_with_type : Heap → StateType → Process → List ℕ
states_with_type h t p = keep (λ s. same_type (h.state s).state_type t) p.states

abbrev typed_xta : Heap → Text → StateType → Process → Text
typed_xta h keyword t p =
    if is_empty (states_with_type h t p)
    then []
    else keyword ++ (names_xta h true (states_with_type h t p) ++ lit ";\n")

-- The body of the nested loops over `p.transitionLookup`, with the counter `i` and the number of transitions.
unfoldable pub transitions_xta : Heap → ℕ → ℕ → List ℕ → Text
transitions_xta h count i [] = []
transitions_xta h count i (t ∷ ts) =
    lit "    "
    ++ (trans_xta h t
        ++ ((if ltb (i + 1) count then lit ",\n" else lit ";\n")
            ++ transitions_xta h count (i + 1) ts))

unfoldable pub as_xta : Heap → Process → Result Text
unfolding names_xta transitions_xta trans_xta
as_xta h p = elim p.initial_state [
  | none ↦ panic nil_dereference
  | some i ↦ ok (
      lit "process "
      ++ (p.name
          ++ (lit "("
              ++ (join (lit ", ") p.params
                  ++ (lit ") {\n"
                      ++ (Declarations.as_xta p.decls
                          ++ (lit "\n\nstate\n"
                              ++ (names_xta h true p.states
                                  ++ (lit ";\n"
                                      ++ (typed_xta h (lit "commit\n") committed p
                                          ++ (typed_xta h (lit "urgent\n") urgent p
                                              ++ (lit "init\n    "
                                                  ++ ((h.state i).name
                                                      ++ (lit ";\ntrans\n"
                                                          ++ (transitions_xta h
                                                            (length p.transitions) 0
                                                            (all_of (groups p.transition_lookup))
                                                            ++ lit "}")))))))))))))))
]

states_ugi : Heap → List ℕ → Text
unfolding state_ugi
states_ugi h [] = []
states_ugi h (s ∷ ss) = state_ugi (h.state s) ++ states_ugi h ss

module _ (h : Heap) (start : ℕ) where
  between_ugi : ℕ → ℕ → List ℕ → Text
  unfolding trans_ugi
  between_ugi end index [] = []
  between_ugi end index (t ∷ ts) =
      trans_ugi h t (h.state start).location (h.state end).location index
      ++ between_ugi end (index + 1) ts

  ends_ugi : List (ℕ × List ℕ) → Text
  unfolding between_ugi
  ends_ugi [] = []
  ends_ugi ((end, ts) ∷ ends) = between_ugi end 0 ts ++ ends_ugi ends

starts_ugi : Heap → List (ℕ × List (ℕ × List ℕ)) → Text
unfolding ends_ugi
starts_ugi h [] = []
starts_ugi h ((start, ends) ∷ m) = ends_ugi h start ends ++ starts_ugi h m

unfoldable pub as_ugi : Heap → Process → Text
unfolding states_ugi starts_ugi
as_ugi h p =
    lit "process "
    ++ (p.name
        ++ (lit " graphinfo {\n"
            ++ (states_ugi h p.states ++ (starts_ugi h p.transition_lookup ++ lit "}"))))
