-- ===== src/Uppaal/Query/Tags.antt =====
-- The xml text of a query, as a reader of xml takes it.
use toph.Prelude.{
  ap, ◌∙◌, cat, Text, count, count-append, count-decimal, ◌++◌, List, [], arith, decimal,
  if◌then◌else◌, lit, none, refl, text_eq, ℕ, ◌∷◌, ◌≡◌,
}
use toph.Uppaal.Xml.{escape}
use toph.Uppaal.Xml.Reader.{
  append_assoc, until, until-clean, tags_from, after, Yields, append-Yields, all-Yields, plain-tags,
  plain-after, count-escape, Pieces-Yields, Pieces, skip, one, done, group,
}
use toph.Uppaal.Query.{Query, as_xml, category_text}

abbrev location_part : Text → Text
location_part s = if text_eq s [] then [] else cat (lit "location: " ∷ escape s ∷ lit "\n" ∷ [])

count-location_part : (s : Text) → count 60 (location_part s) ≡ 0
count-location_part s = ground (
  arith,
  count-append 60 (lit "location: ") (escape s ++ (lit "\n" ++ [])),
  count-append 60 (escape s) (lit "\n" ++ []),
  count-escape s,
)

-- The pieces of the comment hold nothing for a reader to which plain pieces mean nothing.
comment-Pieces :
    (read : Text → List Text)
    → ((s : Text) → count 60 s ≡ 0 → Yields read s [])
    → (n : ℕ) (q : Query) (ts xs : List Text) → Pieces read ts xs
    → Pieces read
        (lit "description: "
          ∷ escape q.description
          ∷ lit "\n"
          ∷ location_part q.source_location
          ∷ lit "category: "
          ∷ escape (category_text q.category)
          ∷ lit "\n"
          ∷ lit "number: "
          ∷ decimal n
          ∷ ts)
        xs
comment-Pieces read plain n q ts xs rest = skip (plain (lit "description: ") refl) (
    skip (plain (escape q.description) (count-escape q.description)) (
      skip (plain (lit "\n") refl) (
        skip (plain (location_part q.source_location) (count-location_part q.source_location)) (
          skip (plain (lit "category: ") refl) (
            skip
              (plain (escape (category_text q.category)) (count-escape (category_text q.category)))
              (skip (plain (lit "\n") refl) (
                skip (plain (lit "number: ") refl)
                  (skip (plain (decimal n) (count-decimal 60 n (omega arith))) rest))))))))

-- The tags of a query.
abbrev pub query_tags : List Text
query_tags =
    lit "query"
    ∷ lit "formula"
    ∷ lit "/formula"
    ∷ lit "comment"
    ∷ lit "/comment"
    ∷ lit "/query"
    ∷ []

abbrev formulas : Text → List Text
formulas = after (lit "<formula>") 60

formula-Yields :
    (s : Text)
    → Yields formulas (lit "    <formula>" ++ (escape s ++ lit "</formula>\n")) (escape s ∷ [])
unfolding after
formula-Yields s r =
    let end = lit "</formula>\n" in
    let inner : until 60 ((escape s ++ end) ++ r) ≡ escape s =
      ap (until 60) (append_assoc (escape s) end r)
      ∙ until-clean 60 (escape s) (lit "/formula>\n" ++ r) (count-escape s) in
    let outer : formulas ((escape s ++ end) ++ r) ≡ formulas r =
      append-Yields formulas (escape s) end [] []
        (plain-after (lit "formula>") 60 (escape s) (count-escape s)) (λ x. refl) r in
    ap (λ x. x ∷ formulas ((escape s ++ end) ++ r)) inner ∙ ap (λ x. escape s ∷ x) outer

module _ (n : ℕ) (indent : Text) (q : Query) (clear : count 60 indent ≡ 0) where
  abbrev query_pieces : List Text
  query_pieces =
      indent
      ∷ lit "<query>\n"
      ∷ indent
      ∷ lit "    <formula>"
      ∷ escape q.query
      ∷ lit "</formula>\n"
      ∷ indent
      ∷ lit "    <comment>"
      ∷ lit "description: "
      ∷ escape q.description
      ∷ lit "\n"
      ∷ location_part q.source_location
      ∷ lit "category: "
      ∷ escape (category_text q.category)
      ∷ lit "\n"
      ∷ lit "number: "
      ∷ decimal n
      ∷ lit "</comment>\n"
      ∷ indent
      ∷ lit "</query>"
      ∷ []

  tag-Pieces : Pieces (tags_from none) query_pieces query_tags
  unfolding tags_from
  tag-Pieces =
      let plain_indent : Yields (tags_from none) indent [] = plain-tags indent clear in
      skip plain_indent (
        one (λ r. refl)
          (skip plain_indent (
            one (λ r. refl)
              (skip (plain-tags (escape q.query) (count-escape q.query)) (
                one (λ r. refl)
                  (skip plain_indent (
                    one (λ r. refl)
                      (comment-Pieces (tags_from none) plain-tags n q _ _
                        (one (λ r. refl) (skip plain_indent (one (λ r. refl) done)))))))))))

  formula-Pieces : Pieces formulas query_pieces (escape q.query ∷ [])
  unfolding after
  formula-Pieces =
      let no_formula : Yields formulas indent [] = plain-after (lit "formula>") 60 indent clear in
      skip no_formula (
        skip (λ r. refl)
          (skip no_formula (
            group (lit "    <formula>" ∷ escape q.query ∷ lit "</formula>\n" ∷ [])
              (formula-Yields q.query)
              (skip no_formula (
                skip (λ r. refl)
                  (comment-Pieces formulas (plain-after (lit "formula>") 60) n q _ _
                    (skip (λ r. refl) (skip no_formula (skip (λ r. refl) done)))))))))

-- Where the indentation has no opening bracket, and whatever the texts and the number of a query are,
-- its xml text opens and closes the elements query, formula and comment, the last two inside the
-- first, and has no other tag, and the element formula holds exactly the escaped text of the query.
pub as_xml-tags :
    (n : ℕ) (indent : Text) (q : Query)
    → count 60 indent ≡ 0
    → (tags_from none (as_xml n indent q) ≡ query_tags)
      × (after (lit "<formula>") 60 (as_xml n indent q) ≡ escape q.query ∷ [])
unfolding as_xml tags_from after
as_xml-tags n indent q h = (
  all-Yields (tags_from none) (as_xml n indent q) query_tags refl
      (Pieces-Yields (tags_from none) (tag-Pieces n indent q h)),
  all-Yields formulas (as_xml n indent q) (escape q.query ∷ []) refl
      (Pieces-Yields formulas (formula-Pieces n indent q h)),
)
