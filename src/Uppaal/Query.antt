-- ===== src/Uppaal/Query.antt =====
-- uppaal/query.go: queries, their categories and their text.
pub mod Laws
pub mod Tags
use toph.Uppaal.Xml.{escape}
use toph.Prelude.{
  cat, ℕ, ◌≡◌, refl, Bool, true, false, List, [], ◌∷◌, ◌++◌, Text, lit, text_eq, decimal, mem, ◌==◌,
  ◌||◌, if◌then◌else◌, arith, mem-append,
}

pub data QueryCategory : Type 0 where
  resource_bound_unreached channel_safety mutex_safety wait_group_safety : QueryCategory
  no_channel_related_deadlocks no_mutex_related_deadlocks : QueryCategory
  no_wait_group_related_deadlocks no_once_related_deadlocks : QueryCategory
  no_function_calls_with_nil_variable no_goroutine_exit_with_panic : QueryCategory
  reachability_requirements : QueryCategory

unfoldable pub category_text : QueryCategory → Text
category_text resource_bound_unreached = lit "resource bound unreached"
category_text channel_safety = lit "channel safety"
category_text mutex_safety = lit "mutex safety"
category_text wait_group_safety = lit "wait group safety"
category_text no_channel_related_deadlocks = lit "no channel related deadlocks"
category_text no_mutex_related_deadlocks = lit "no mutex related deadlocks"
category_text no_wait_group_related_deadlocks = lit "no wait group related deadlocks"
category_text no_once_related_deadlocks = lit "no once related deadlocks"
category_text no_function_calls_with_nil_variable = lit "no function calls with nil variable"
category_text no_goroutine_exit_with_panic = lit "no goroutine exit with panic"
category_text reachability_requirements = lit "reachability requirements"

pub record Query : Type 0 where
  pub query : Text
  pub description : Text
  pub source_location : Text
  pub category : QueryCategory

abbrev pub new_query : Text → Text → Text → QueryCategory → Query
new_query query description source_location category = record {
  query = query;
  description = description;
  source_location = source_location;
  category = category;
}

-- strings.ReplaceAll for a text of one byte.
abbrev pub replace_all : Text → ℕ → Text → Text
replace_all [] c r = []
replace_all (x ∷ s) c r = (if x == c then r else x ∷ []) ++ replace_all s c r

unfoldable pub substitute : Text → Query → Query
substitute replacement q = record q { query = replace_all q.query b'$' replacement }

-- The comment has no line end before it closes.
unfoldable pub as_q : ℕ → Query → Text
unfolding category_text decimal
as_q number q =
    lit "/*\n"
    ++ (lit "description: "
        ++ (q.description
            ++ (lit "\n"
                ++ ((if text_eq q.source_location []
                      then []
                      else lit "location: " ++ (q.source_location ++ lit "\n"))
                    ++ (lit "category: "
                        ++ (category_text q.category
                            ++ (lit "\n"
                                ++ (lit "number: "
                                    ++ (decimal number
                                        ++ (lit "*/\n" ++ (q.query ++ lit "\n")))))))))))

unfoldable pub as_xml : ℕ → Text → Query → Text
unfolding category_text decimal escape
as_xml number indent q = cat (
    indent
    ∷ lit "<query>\n"
    ∷ indent
    ∷ lit "    <formula>"
    ∷ escape q.query
    ∷ lit "</formula>\n"
    ∷ indent
    ∷ lit "    <comment>"
    ∷ lit "description: "
    ∷ escape q.description
    ∷ lit "\n"
    ∷ (if text_eq q.source_location []
        then []
        else cat (lit "location: " ∷ escape q.source_location ∷ lit "\n" ∷ []))
    ∷ lit "category: "
    ∷ escape (category_text q.category)
    ∷ lit "\n"
    ∷ lit "number: "
    ∷ decimal number
    ∷ lit "</comment>\n"
    ∷ indent
    ∷ lit "</query>"
    ∷ [])
