-- ===== src/Uppaal/Process/Xml/States.antt =====
-- The locations in the xml text of a process.
use toph.Prelude.{
  Text, cat, count, decimal, lit, Bool-cases, List, [], if◌then◌else◌, inl, inr, refl, suc, text_eq,
  ℕ, ◌∷◌, ◌≡◌, All,
}
use toph.Uppaal.Objects.{State, Heap, StateType, normal, committed, urgent}
use toph.Uppaal.Xml.{escape}
use toph.Uppaal.Xml.Reader.{Yields, append-Yields, Pieces, Pieces-Yields, skip, group, done}
use toph.Uppaal.Process.Xml.{place_xml, type_xml, state_xml, states_xml}
use toph.Uppaal.Process.Xml.Pieces.{plain_indent, escaped, place}
use toph.Uppaal.Process.Xml.References.{
  Reference, location_id, location_name, references, ref_pieces, location-Yields, name-Yields,
}

-- The locations in the order of their numbers.
abbrev pub state_references : Heap → ℕ → List ℕ → List Reference
state_references h n [] = []
state_references h n (s ∷ ss) =
    location_id n ∷ location_name (h.state s).name ∷ state_references h (suc n) ss

module _ (indent : Text) (clear : count 60 indent ≡ 0) where
  comment_part : State → Text
  comment_part s =
      if text_eq s.comment []
      then []
      else cat (
          indent
          ∷ lit "    <label kind=\"comments\""
          ∷ place_xml s.comment_location
          ∷ lit ">"
          ∷ escape s.comment
          ∷ lit "</label>\n"
          ∷ [])

  comment-Yields : (s : State) → Yields references (comment_part s) []
  unfolding references comment_part
  comment-Yields s =
      let pieces : Pieces references
          (indent
            ∷ lit "    <label kind=\"comments\""
            ∷ place_xml s.comment_location
            ∷ lit ">"
            ∷ escape s.comment
            ∷ lit "</label>\n"
            ∷ [])
          [] =
        skip (plain_indent indent clear) (
          skip (λ r. refl)
            (skip (place indent clear s.comment_location) (
              skip (λ r. refl) (skip (escaped indent clear s.comment) (skip (λ r. refl) done))))) in
      elim (Bool-cases (text_eq s.comment [])) [
        | inl e ↦ λ r. rw e refl
        | inr e ↦ λ r. rw e (Pieces-Yields references pieces r)
      ]

  type-Yields : (t : StateType) → Yields references (type_xml indent t) []
  unfolding references
  type-Yields normal = λ r. refl
  type-Yields committed =
      append-Yields references indent (lit "        <committed/>\n") [] []
        (plain_indent indent clear) (λ r. refl)
  type-Yields urgent =
      append-Yields references indent (lit "        <urgent/>\n") [] [] (plain_indent indent clear)
        (λ r. refl)

  state_pieces : ℕ → State → List Text
  state_pieces n s =
      indent
      ∷ lit "    <location id=\"id"
      ∷ decimal n
      ∷ lit "\""
      ∷ place_xml s.location
      ∷ lit ">\n"
      ∷ indent
      ∷ lit "        <name"
      ∷ place_xml s.name_location
      ∷ lit ">"
      ∷ s.name
      ∷ lit "</name>\n"
      ∷ comment_part s
      ∷ type_xml indent s.state_type
      ∷ indent
      ∷ lit "    </location>\n"
      ∷ []

  state-Yields :
      (n : ℕ) (s : State)
      → count 60 s.name ≡ 0
      → Yields references (state_xml indent n s) (location_id n ∷ location_name s.name ∷ [])
  unfolding state_xml references state_pieces comment_part
  state-Yields n s p =
      let pieces : Pieces references (state_pieces n s)
          (location_id n ∷ location_name s.name ∷ []) =
        skip (plain_indent indent clear) (
          group (ref_pieces (lit "    <location id=\"id") n (lit "\"")) (location-Yields n) (
            skip (place indent clear s.location) (
              skip (λ r. refl)
                (skip (plain_indent indent clear) (
                  group
                    (lit "        <name"
                      ∷ place_xml s.name_location
                      ∷ lit ">"
                      ∷ s.name
                      ∷ lit "</name>\n"
                      ∷ [])
                    (name-Yields s.name_location s.name p)
                    (skip (comment-Yields s) (
                      skip (type-Yields s.state_type)
                        (skip (plain_indent indent clear) (skip (λ r. refl) done))))))))) in
      Pieces-Yields references pieces

  pub states-Yields :
      (h : Heap) (n : ℕ) (ss : List ℕ)
      → All (λ s. count 60 (h.state s).name ≡ 0) ss
      → Yields references (states_xml h indent n ss) (state_references h n ss)
  unfolding states_xml
  states-Yields h n [] p = λ r. refl
  states-Yields h n (s ∷ ss) (p, ps) =
      append-Yields references (state_xml indent n (h.state s)) (states_xml h indent (suc n) ss)
        (location_id n ∷ location_name (h.state s).name ∷ []) (state_references h (suc n) ss)
        (state-Yields n (h.state s) p) (states-Yields h (suc n) ss ps)
