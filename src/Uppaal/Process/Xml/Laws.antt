-- ===== src/Uppaal/Process/Xml/Laws.antt =====
-- The references of the xml text of a process.
use toph.Prelude.{
  Text, All, cat, count, decimal, join, is_empty, if◌then◌else◌, lit, ◌++◌, Bool-cases, inl, inr,
  refl, List, [], arith, get_elem?, mem, some, true, ℕ, ◌∷◌, ◌≡◌,
}
use toph.Uppaal.Xml.{escape}
use toph.Uppaal.Xml.Reader.{
  Yields, Pieces, Pieces-Yields, skip, group, several, done, append_nil, all-Yields, count-escape,
}
use toph.Uppaal.Declarations
use toph.Uppaal.Objects.{Heap}
use toph.Uppaal.Process.Xml.{state_index, init_index, states_xml, all_trans_xml, as_xml}
use toph.Uppaal.Process.Xml.References.{
  Reference, init_ref, references, plain-references, ref_pieces, init-Yields,
}
use toph.Uppaal.Process.Xml.Pieces.{trans_references, all_trans-Yields}
use toph.Uppaal.Process.Xml.States.{state_references, states-Yields}
use toph.Uppaal.Process.{Env, Process}
use toph.Uppaal.Process.Invariant.{IsWellFormed}

get_elem?-state_index :
    (s : ℕ) (ss : List ℕ) → mem s ss ≡ true → get_elem? ss (state_index s ss) ≡ some s
unfolding state_index
get_elem?-state_index s [] h = ground arith
get_elem?-state_index s (t ∷ ts) h = ground (arith, get_elem?-state_index s ts)

-- The name of a process, its parameters, the names of its states and the indentation, which the text
-- holds as they are, have no opening bracket.
pub record IsPlain (h : Heap) (indent : Text) (p : Process) : Type 0 where
  pub plain_indent : count 60 indent ≡ 0
  pub plain_name : count 60 p.name ≡ 0
  pub plain_params : count 60 (join (lit ", ") p.params) ≡ 0
  pub plain_states : All (λ s. count 60 (h.state s).name ≡ 0) p.states

params_part : Text → Process → Text
unfolding join
params_part indent p =
    if is_empty p.params
    then []
    else cat (indent ∷ lit "    <parameter>" ∷ join (lit ", ") p.params ∷ lit "</parameter>\n" ∷ [])

module _ (h : Heap) (indent : Text) (p : Process) (w : IsPlain h indent p) where
  indent-Yields : Yields references indent []
  indent-Yields = plain-references indent w.plain_indent

  params-Yields : Yields references (params_part indent p) []
  unfolding references params_part
  params-Yields =
      let pieces : Pieces references
          (indent ∷ lit "    <parameter>" ∷ join (lit ", ") p.params ∷ lit "</parameter>\n" ∷ [])
          [] =
        skip indent-Yields (
          skip (λ r. refl)
            (skip (plain-references (join (lit ", ") p.params) w.plain_params)
              (skip (λ r. refl) done))) in
      elim (Bool-cases (is_empty p.params)) [
        | inl e ↦ λ r. rw e refl
        | inr e ↦ λ r. rw e (Pieces-Yields references pieces r)
      ]

  process_pieces : List Text
  process_pieces =
      indent
      ∷ lit "<template>\n"
      ∷ indent
      ∷ lit "    <name>"
      ∷ p.name
      ∷ lit "</name>\n"
      ∷ params_part indent p
      ∷ indent
      ∷ lit "    <declaration>"
      ∷ escape (Declarations.as_xta p.decls)
      ∷ lit "</declaration>\n"
      ∷ states_xml h indent 0 p.states
      ∷ indent
      ∷ lit "    <init ref=\"id"
      ∷ decimal (init_index p)
      ∷ lit "\"/>\n"
      ∷ all_trans_xml h indent p.states p.transitions
      ∷ indent
      ∷ lit "</template>"
      ∷ []

  -- The locations, the initial one and the ends of the transitions.
  abbrev behind_states : List Reference
  behind_states = init_ref (init_index p) ∷ trans_references h p.states p.transitions

  process-references :
      references (as_xml h indent p) ≡ state_references h 0 p.states ++ behind_states
  unfolding as_xml references process_pieces params_part
  process-references =
      let moves = trans_references h p.states p.transitions in
      let pieces : Pieces references process_pieces
          (state_references h 0 p.states ++ behind_states) =
        skip indent-Yields (
          skip (λ r. refl)
            (skip indent-Yields (
              skip (λ r. refl)
                (skip (plain-references p.name w.plain_name) (
                  skip (λ r. refl)
                    (skip params-Yields (
                      skip indent-Yields (
                        skip (λ r. refl)
                          (skip
                            (plain-references (escape (Declarations.as_xta p.decls))
                              (count-escape (Declarations.as_xta p.decls)))
                            (skip (λ r. refl)
                              (several (state_references h 0 p.states) behind_states
                                (states-Yields indent w.plain_indent h 0 p.states w.plain_states)
                                (skip indent-Yields (
                                  group
                                    (ref_pieces (lit "    <init ref=\"id") (init_index p)
                                      (lit "\"/>\n"))
                                    (init-Yields (init_index p))
                                    (several moves []
                                      (all_trans-Yields indent w.plain_indent h p.states
                                        p.transitions)
                                      (skip indent-Yields (skip (λ r. refl) done))
                                      (append_nil moves))))
                                refl))))))))))) in
      all-Yields references (as_xml h indent p) (state_references h 0 p.states ++ behind_states)
        refl (Pieces-Yields references pieces)

-- Where the indentation, the name and parameters of the process and the names of its states have no
-- opening bracket, a reader of the xml text of a well-formed process finds the states in their order,
-- with their names and the numbers from 0 on as ids, then the reference of the initial state, then
-- for each transition a source and a target. The source refers to the place of the state where the
-- transition starts among the states, the target to that of the state where it ends, and the
-- reference of the initial state, where there is one, to the place of that state.
pub references_lem :
    (e : Env) (indent : Text)
    → IsWellFormed e
    → IsPlain e.heap indent e.process
    → (references (as_xml e.heap indent e.process) ≡ (
        state_references e.heap 0 e.process.states
        ++ init_ref (init_index e.process)
          ∷ trans_references e.heap e.process.states e.process.transitions))
      × ((t : ℕ)
          → mem t e.process.transitions ≡ true
          → (get_elem? e.process.states (state_index (e.heap.trans t).start e.process.states)
              ≡ some (e.heap.trans t).start)
            × (get_elem? e.process.states (state_index (e.heap.trans t).end e.process.states)
                ≡ some (e.heap.trans t).end))
      × ((i : ℕ)
          → e.process.initial_state ≡ some i
          → get_elem? e.process.states (init_index e.process) ≡ some i)
unfolding init_index
references_lem e indent w plain = (
  process-references e.heap indent e.process plain,
  λ t m. (
    get_elem?-state_index (e.heap.trans t).start e.process.states (w.start_known t m),
    get_elem?-state_index (e.heap.trans t).end e.process.states (w.end_known t m),
  ),
  λ i p. rw p (get_elem?-state_index i e.process.states (w.initial_known i p)),
)
