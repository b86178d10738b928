-- ===== src/Uppaal/Process/Xml/Pieces.antt =====
-- What the transitions in the xml text of a process refer to.
use toph.Prelude.{
  Text, count, decimal, lit, Bool-cases, List, [], inl, inr, refl, text_eq, ℕ, ◌∷◌, ◌≡◌,
}
use toph.Uppaal.Location.{Location}
use toph.Uppaal.Objects.{Trans, Heap}
use toph.Uppaal.Xml.{escape}
use toph.Uppaal.Xml.Reader.{
  Yields, append-Yields, Pieces, Pieces-Yields, skip, group, done, count-escape,
}
use toph.Uppaal.Process.Xml.{state_index, place_xml, label_xml, nails_xml, trans_xml, all_trans_xml}
use toph.Uppaal.Process.Xml.References.{
  Reference, source_ref, target_ref, references, plain-references, ref_pieces, source-Yields,
  target-Yields, count-place_xml,
}

-- The ends of the transitions.
abbrev pub trans_references : Heap → List ℕ → List ℕ → List Reference
trans_references h states [] = []
trans_references h states (t ∷ ts) =
    source_ref (state_index (h.trans t).start states)
    ∷ target_ref (state_index (h.trans t).end states)
    ∷ trans_references h states ts

module _ (indent : Text) (clear : count 60 indent ≡ 0) where
  pub plain_indent : Yields references indent []
  plain_indent = plain-references indent clear

  pub escaped : (s : Text) → Yields references (escape s) []
  escaped s = plain-references (escape s) (count-escape s)

  pub place : (l : Location) → Yields references (place_xml l) []
  place l = plain-references (place_xml l) (count-place_xml l)

  label_pieces : Text → Text → Location → Text → List Text
  label_pieces kind label at before =
      indent
      ∷ lit "        <label kind=\""
      ∷ kind
      ∷ lit "\""
      ∷ place_xml at
      ∷ lit ">"
      ∷ escape label
      ∷ before
      ∷ lit "</label>\n"
      ∷ []

  label-Yields :
      (kind label : Text) (at : Location) (before : Text)
      → count 60 kind ≡ 0
      → count 60 before ≡ 0
      → Yields references (label_xml indent kind label at before) []
  unfolding references label_pieces
  label-Yields kind label at before p q =
      let pieces : Pieces references (label_pieces kind label at before) [] = skip plain_indent (
        skip (λ r. refl)
          (skip (plain-references kind p) (
            skip (λ r. refl)
              (skip (place at) (
                skip (λ r. refl)
                  (skip (escaped label)
                    (skip (plain-references before q) (skip (λ r. refl) done)))))))) in
      elim (Bool-cases (text_eq label [])) [
        | inl e ↦ λ r. rw e refl
        | inr e ↦ λ r. rw e (Pieces-Yields references pieces r)
      ]

  nails-Yields : (ns : List Location) → Yields references (nails_xml indent ns) []
  unfolding nails_xml references
  nails-Yields [] = λ r. refl
  nails-Yields (n ∷ ns) =
      let pieces : Pieces references
          (indent ∷ lit "        <nail" ∷ place_xml n ∷ lit "/>\n" ∷ nails_xml indent ns ∷ []) [] =
        skip plain_indent
          (skip (λ r. refl) (skip (place n) (skip (λ r. refl) (skip (nails-Yields ns) done)))) in
      Pieces-Yields references pieces

  trans_pieces : Heap → List ℕ → Trans → List Text
  trans_pieces h states o =
      indent
      ∷ lit "    <transition>\n"
      ∷ indent
      ∷ lit "        <source ref=\"id"
      ∷ decimal (state_index o.start states)
      ∷ lit "\"/>\n"
      ∷ indent
      ∷ lit "        <target ref=\"id"
      ∷ decimal (state_index o.end states)
      ∷ lit "\"/>\n"
      ∷ label_xml indent (lit "select") o.select_stmts o.select_location indent
      ∷ label_xml indent (lit "guard") o.guard_expr o.guard_location []
      ∷ label_xml indent (lit "synchronisation") o.sync_stmt o.sync_location []
      ∷ label_xml indent (lit "assignment") o.update_stmts o.update_location []
      ∷ nails_xml indent o.nails
      ∷ indent
      ∷ lit "    </transition>\n"
      ∷ []

  trans-Yields :
      (h : Heap) (states : List ℕ) (t : ℕ)
      → Yields references (trans_xml h indent states t) (
          source_ref (state_index (h.trans t).start states)
          ∷ target_ref (state_index (h.trans t).end states)
          ∷ [])
  unfolding trans_xml references trans_pieces
  trans-Yields h states t =
      let o = h.trans t in
      let source = state_index o.start states in
      let target = state_index o.end states in
      let pieces : Pieces references (trans_pieces h states o)
          (source_ref source ∷ target_ref target ∷ []) =
        skip plain_indent (
          skip (λ r. refl)
            (skip plain_indent (
              group (ref_pieces (lit "        <source ref=\"id") source (lit "\"/>\n"))
                (source-Yields source)
                (skip plain_indent (
                  group (ref_pieces (lit "        <target ref=\"id") target (lit "\"/>\n"))
                    (target-Yields target)
                    (skip
                      (label-Yields (lit "select") o.select_stmts o.select_location indent refl
                        clear)
                      (skip (label-Yields (lit "guard") o.guard_expr o.guard_location [] refl refl)
                        (skip
                          (label-Yields (lit "synchronisation") o.sync_stmt o.sync_location [] refl
                            refl)
                          (skip
                            (label-Yields (lit "assignment") o.update_stmts o.update_location []
                              refl refl)
                            (skip (nails-Yields o.nails)
                              (skip plain_indent (skip (λ r. refl) done)))))))))))) in
      Pieces-Yields references pieces

  pub all_trans-Yields :
      (h : Heap) (states ts : List ℕ)
      → Yields references (all_trans_xml h indent states ts) (trans_references h states ts)
  unfolding all_trans_xml
  all_trans-Yields h states [] = λ r. refl
  all_trans-Yields h states (t ∷ ts) =
      append-Yields references (trans_xml h indent states t) (all_trans_xml h indent states ts)
        (source_ref (state_index (h.trans t).start states)
          ∷ target_ref (state_index (h.trans t).end states)
          ∷ [])
        (trans_references h states ts) (trans-Yields h states t) (all_trans-Yields h states ts)
