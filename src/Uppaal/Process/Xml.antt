-- ===== src/Uppaal/Process/Xml.antt =====
-- The xml text of a process: asXML of uppaal/process.go.
pub mod Laws
pub mod References
pub mod Pieces
pub mod States
use toph.Prelude.Word.{int_text}
use toph.Prelude.{
  cat, Text, ◌++◌, ◌==◌, List, [], decimal, if◌then◌else◌, is_empty, join, lit, mem, none, some,
  suc, text_eq, ℕ, ◌∷◌,
}
use toph.Uppaal.Xml.{escape}
use toph.Uppaal.Location.{Location}
use toph.Uppaal.Objects.{State, Heap, StateType, normal, committed, urgent}
use toph.Uppaal.Declarations
use toph.Uppaal.Process.{Process}

-- `stateIndices`: the place of a state in the order of the loop, and 0 for a pointer without one.
unfoldable pub state_index : ℕ → List ℕ → ℕ
state_index s [] = 0
state_index s (t ∷ ts) =
    let rest = state_index s ts in if t == s then 0 else if mem s ts then suc rest else 0

abbrev pub place_xml : Location → Text
place_xml l = cat (lit " x=\"" ∷ int_text l.x ∷ lit "\" y=\"" ∷ int_text l.y ∷ lit "\"" ∷ [])

abbrev pub type_xml : Text → StateType → Text
type_xml indent normal = []
type_xml indent committed = indent ++ lit "        <committed/>\n"
type_xml indent urgent = indent ++ lit "        <urgent/>\n"

unfoldable pub state_xml : Text → ℕ → State → Text
unfolding decimal int_text escape
state_xml indent index s = cat (
    indent
    ∷ lit "    <location id=\"id"
    ∷ decimal index
    ∷ lit "\""
    ∷ place_xml s.location
    ∷ lit ">\n"
    ∷ indent
    ∷ lit "        <name"
    ∷ place_xml s.name_location
    ∷ lit ">"
    ∷ s.name
    ∷ lit "</name>\n"
    ∷ (if text_eq s.comment []
        then []
        else cat (
            indent
            ∷ lit "    <label kind=\"comments\""
            ∷ place_xml s.comment_location
            ∷ lit ">"
            ∷ escape s.comment
            ∷ lit "</label>\n"
            ∷ []))
    ∷ type_xml indent s.state_type
    ∷ indent
    ∷ lit "    </location>\n"
    ∷ [])

-- The body of the loop over the states, with the count of the states before.
unfoldable pub states_xml : Heap → Text → ℕ → List ℕ → Text
unfolding state_xml
states_xml h indent n [] = []
states_xml h indent n (s ∷ ss) = state_xml indent n (h.state s) ++ states_xml h indent (suc n) ss

-- A label with its text. Behind the text stands `before`, which is empty but for a select label.
abbrev pub label_xml : Text → Text → Text → Location → Text → Text
label_xml indent kind label at before =
    if text_eq label []
    then []
    else cat (
        indent
        ∷ lit "        <label kind=\""
        ∷ kind
        ∷ lit "\""
        ∷ place_xml at
        ∷ lit ">"
        ∷ escape label
        ∷ before
        ∷ lit "</label>\n"
        ∷ [])

unfoldable pub nails_xml : Text → List Location → Text
unfolding int_text
nails_xml indent [] = []
nails_xml indent (n ∷ ns) =
    cat (indent ∷ lit "        <nail" ∷ place_xml n ∷ lit "/>\n" ∷ nails_xml indent ns ∷ [])

unfoldable pub trans_xml : Heap → Text → List ℕ → ℕ → Text
unfolding state_index decimal int_text escape nails_xml
trans_xml h indent states t =
    let o = h.trans t in
    cat (
      indent
      ∷ lit "    <transition>\n"
      ∷ indent
      ∷ lit "        <source ref=\"id"
      ∷ decimal (state_index o.start states)
      ∷ lit "\"/>\n"
      ∷ indent
      ∷ lit "        <target ref=\"id"
      ∷ decimal (state_index o.end states)
      ∷ lit "\"/>\n"
      ∷ label_xml indent (lit "select") o.select_stmts o.select_location indent
      ∷ label_xml indent (lit "guard") o.guard_expr o.guard_location []
      ∷ label_xml indent (lit "synchronisation") o.sync_stmt o.sync_location []
      ∷ label_xml indent (lit "assignment") o.update_stmts o.update_location []
      ∷ nails_xml indent o.nails
      ∷ indent
      ∷ lit "    </transition>\n"
      ∷ [])

unfoldable pub all_trans_xml : Heap → Text → List ℕ → List ℕ → Text
unfolding trans_xml
all_trans_xml h indent states [] = []
all_trans_xml h indent states (t ∷ ts) =
    trans_xml h indent states t ++ all_trans_xml h indent states ts

-- The index that the element `init` refers to. Without an initial state it is that of `nil`.
unfoldable pub init_index : Process → ℕ
unfolding state_index
init_index p = elim p.initial_state [ none ↦ 0 | some i ↦ state_index i p.states ]

unfoldable pub as_xml : Heap → Text → Process → Text
unfolding decimal escape join states_xml all_trans_xml init_index
as_xml h indent p = cat (
    indent
    ∷ lit "<template>\n"
    ∷ indent
    ∷ lit "    <name>"
    ∷ p.name
    ∷ lit "</name>\n"
    ∷ (if is_empty p.params
        then []
        else cat
            (indent ∷ lit "    <parameter>" ∷ join (lit ", ") p.params ∷ lit "</parameter>\n" ∷ []))
    ∷ indent
    ∷ lit "    <declaration>"
    ∷ escape (Declarations.as_xta p.decls)
    ∷ lit "</declaration>\n"
    ∷ states_xml h indent 0 p.states
    ∷ indent
    ∷ lit "    <init ref=\"id"
    ∷ decimal (init_index p)
    ∷ lit "\"/>\n"
    ∷ all_trans_xml h indent p.states p.transitions
    ∷ indent
    ∷ lit "</template>"
    ∷ [])
