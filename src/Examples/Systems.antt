-- ===== src/Examples/Systems.antt =====
-- Runs on a system of one process and one instance, and on declarations, queries and texts.
use toph.Uppaal.System.Names.{add_process_lem, add_process_instance_lem}
use toph.Uppaal.System.Queries.{queries-numbered}
use toph.Uppaal.System.Sorting.{sorted_instances_unique}
use toph.Uppaal.Declarations.Laws.{add_variable-Declared}
use toph.Uppaal.Query.Tags.{as_xml-tags, query_tags}
use toph.Uppaal.Xml.{escape}
use toph.Uppaal.Xml.Reader.{after, tags_from}
use toph.Uppaal.Location.Laws.{add-sub}
use mathlib.Core.Logic.{◌≢◌}
use mathlib.Core.List.{Permᴰ}
use toph.Prelude.{
  lit, ok, panic, name_collision, text_eq_iff, Text, [], arith, false, if◌then◌else◌, is_some,
  lookup, refl, some, text_eq, true, ◌||◌, ℕ, ◌∷◌, ◌≡◌, none,
}
use toph.Uppaal.Location.{point, add, sub}
use toph.Uppaal.Declarations.{Declarations, init_declarations, add_variable, add_array}
use toph.Uppaal.Declarations.Laws.{IsValid, Declared, declared, init_declarations-IsValid}
use toph.Uppaal.Query
use toph.Uppaal.Query.{Query, new_query, substitute, as_xml, channel_safety}
use toph.Uppaal.Process.{new_process}
use toph.Uppaal.System.{
  System, ProcessInstance, new_system, new_process_instance, add_process, add_process_instance,
  sorted_instances, sort_by, values,
}
use toph.Uppaal.System.Names.{IsConsistent}
use toph.Uppaal.System.Queries.{numbered, all_queries}
use toph.Uppaal.System.Sorting.{is_sorted}
use toph.Uppaal.System.Print.{as_q, queries_xml, query_xml}

unfoldable one_instance : System
unfolding new_system new_process
one_instance = record (new_system (λ _. new_process []) 1) {
  processes = ((lit "P"), 0) ∷ [];
  instances = ((lit "p"), new_process_instance 0 (lit "p")) ∷ [];
  process_at = λ _. new_process (lit "P");
}

one_instance-IsConsistent : IsConsistent one_instance
unfolding one_instance new_system new_process
one_instance-IsConsistent = record {
  named = λ k p h. ground (arith, text_eq_iff (lit "P") k, h);
  below = λ k p h. ground (arith, h);
  entries = ((refl, refl), tt);
}

no_variables : IsValid (init_declarations (lit "d"))
no_variables = init_declarations-IsValid (lit "d")

add_process_lem_example :
    ((is_some (lookup (lit "Q") one_instance.processes)
          || is_some (lookup (lit "Q") one_instance.instances))
        ≡ true
      → add_process (lit "Q") one_instance ≡ panic name_collision)
    × ((is_some (lookup (lit "Q") one_instance.processes)
            || is_some (lookup (lit "Q") one_instance.instances))
          ≡ false
        → (p : ℕ) × (t : System) × (add_process (lit "Q") one_instance ≡ ok (p, t))
          × IsConsistent t
          × ((t.process_at p).name ≡ (lit "Q"))
          × ((k : Text) → lookup k one_instance.processes ≢ some p)
          × ((k : Text)
              → lookup k t.processes
                ≡ (if text_eq (lit "Q") k then some p else lookup k one_instance.processes))
          × (t.instances ≡ one_instance.instances))
add_process_lem_example = add_process_lem (lit "Q") one_instance one_instance-IsConsistent

add_process_instance_lem_example :
    (is_some (lookup (lit "q") one_instance.instances) ≡ true
      → add_process_instance 0 (lit "q") one_instance ≡ panic name_collision)
    × (is_some (lookup (lit "q") one_instance.instances) ≡ false
        → (i : ProcessInstance) × (t : System) × (add_process_instance 0 (lit "q") one_instance
            ≡ ok (i, t))
          × IsConsistent t
          × (i.name ≡ (lit "q"))
          × (i.proc ≡ 0)
          × ((k : Text)
              → lookup k t.instances
                ≡ (if text_eq (lit "q") k then some i else lookup k one_instance.instances))
          × (t.processes ≡ one_instance.processes))
unfolding one_instance
add_process_instance_lem_example =
    add_process_instance_lem 0 (lit "q") one_instance one_instance-IsConsistent refl

queries-numbered_example :
    (as_q one_instance ≡ ok (numbered Query.as_q 1 (all_queries one_instance)))
    × (queries_xml one_instance ≡ numbered query_xml 1 (all_queries one_instance))
queries-numbered_example = queries-numbered one_instance one_instance-IsConsistent

sorted_instances_unique_example :
    Permᴰ (values one_instance.instances) (sorted_instances one_instance)
    × (is_sorted (λ i. i.name) (sorted_instances one_instance) ≡ true)
    × (sort_by (λ i. i.name) (new_process_instance 0 (lit "p") ∷ [])
        ≡ sorted_instances one_instance)
unfolding one_instance
sorted_instances_unique_example =
    sorted_instances_unique one_instance (new_process_instance 0 (lit "p") ∷ [])
      one_instance-IsConsistent (Permᴰ.cons refl Permᴰ.nil)

add_variable-Declared_example :
    ((d' : Declarations) × (add_variable
          (lit "x")
          (lit "int")
          (lit "0")
          (init_declarations (lit "d"))
        ≡ ok d')
      × Declared (declared (lit "x") [] (lit "int") (lit "0")) (init_declarations (lit "d")) d')
    × ((d' : Declarations) × (add_array (lit "x") (2 ∷ []) (lit "int") (init_declarations (lit "d"))
          ≡ ok d')
        × Declared (declared (lit "x") (2 ∷ []) (lit "int") []) (init_declarations (lit "d")) d')
add_variable-Declared_example =
    add_variable-Declared (lit "x") (2 ∷ []) (lit "int") (lit "0") (init_declarations (lit "d"))
      no_variables

as_xml-tags_example :
    (tags_from none (as_xml 1 (lit " ") (new_query (lit "a < b") (lit "x > y") [] channel_safety))
      ≡ query_tags)
    × (after
          (lit "<formula>")
          60
          (as_xml 1 (lit " ") (new_query (lit "a < b") (lit "x > y") [] channel_safety))
        ≡ escape (lit "a < b") ∷ [])
as_xml-tags_example =
    as_xml-tags 1 (lit " ") (new_query (lit "a < b") (lit "x > y") [] channel_safety) refl

add-sub_example :
    (add (sub (point 3 4) (point 1 9)) (point 1 9) ≡ (point 3 4))
    × (sub (add (point 3 4) (point 1 9)) (point 1 9) ≡ (point 3 4))
add-sub_example =
    add-sub (point 3 4) (point 1 9) (record { x_range = omega arith; y_range = omega arith })
      (record { x_range = omega arith; y_range = omega arith })
