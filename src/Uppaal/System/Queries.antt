-- ===== src/Uppaal/System/Queries.antt =====
-- The numbers of queries in the q file and in the xml file: AsQ and AsXML of uppaal/system.go.
use mathlib.Core.List.{append-nil, append_assoc}
use toph.Prelude.{Text, ok, ◌++◌, All, List, [], ap, refl, suc, sym, ℕ, ◌∙◌, ◌∷◌, ◌≡◌, arith, ◌>>=◌}
use toph.Uppaal.Query
use toph.Uppaal.Query.{Query, substitute}
use toph.Uppaal.System.{System, ProcessInstance, sorted_instances, insert_sorted, sort_by, values}
use toph.Uppaal.System.Names.{IsEntry, IsConsistent}
use toph.Uppaal.System.Print.{
  number_queries, substitute_all, instances_q, as_q, query_xml, instances_xml, queries_xml,
}

-- The queries of the instances, each with the name of its instance filled in.
abbrev pub instance_queries : System → List ProcessInstance → List Query
instance_queries s [] = []
instance_queries s (i ∷ is) =
    substitute_all i.name (s.process_at i.proc).queries ++ instance_queries s is

-- All queries of a system, in the order of their numbers.
abbrev pub all_queries : System → List Query
all_queries s = s.queries ++ instance_queries s (sorted_instances s)

-- The texts of queries with consecutive numbers.
abbrev pub numbered : (ℕ → Query → Text) → ℕ → List Query → Text
numbered show n [] = []
numbered show n (q ∷ qs) = show n q ++ numbered show (suc n) qs

number_queries-append :
    (show : ℕ → Query → Text) (qs rs : List Query) (r : ℕ × Text)
    → number_queries show (qs ++ rs) r ≡ number_queries show rs (number_queries show qs r)
unfolding number_queries
number_queries-append show [] rs r = refl
number_queries-append show (q ∷ qs) rs (n, t) =
    number_queries-append show qs rs (suc n, t ++ show n q)

number_queries-numbered :
    (show : ℕ → Query → Text) (qs : List Query) (n : ℕ) (t : Text)
    → (number_queries show qs (n, t)).1 ≡ t ++ numbered show n qs
unfolding number_queries
number_queries-numbered show [] n t = sym (append-nil t)
number_queries-numbered show (q ∷ qs) n t =
    number_queries-numbered show qs (suc n) (t ++ show n q)
    ∙ append_assoc t (show n q) (numbered show (suc n) qs)

instances_xml-numbered :
    (s : System) (is : List ProcessInstance) (r : ℕ × Text)
    → instances_xml s is r ≡ number_queries query_xml (instance_queries s is) r
unfolding instances_xml number_queries
instances_xml-numbered s [] r = refl
instances_xml-numbered s (i ∷ is) r =
    let qs = substitute_all i.name (s.process_at i.proc).queries in
    instances_xml-numbered s is (number_queries query_xml qs r)
    ∙ sym (number_queries-append query_xml qs (instance_queries s is) r)

instances_q-numbered :
    (s : System) (is : List ProcessInstance) (r : ℕ × Text)
    → All (IsEntry s) is
    → instances_q s is r ≡ ok (number_queries Query.as_q (instance_queries s is) r)
unfolding instances_q number_queries
instances_q-numbered s [] r h = refl
instances_q-numbered s (i ∷ is) r h =
    let qs = substitute_all i.name (s.process_at i.proc).queries in
    rw (h.0.1, instances_q)
      (instances_q-numbered s is (number_queries Query.as_q qs r) h.1
        ∙ ap ok (sym (number_queries-append Query.as_q qs (instance_queries s is) r)))

insert_sorted-All :
    {A : Type 0} (name : A → Text) (P : A → Type 0) (a : A) (xs : List A)
    → P a
    → All P xs
    → All P (insert_sorted name a xs)
unfolding insert_sorted
insert_sorted-All name P a [] p h = (p, tt)
insert_sorted-All name P a (b ∷ bs) p h = ground (arith, insert_sorted-All name P a bs p)

pub sort_by-All :
    {A : Type 0} (name : A → Text) (P : A → Type 0) (xs : List A)
    → All P xs
    → All P (sort_by name xs)
unfolding sort_by
sort_by-All name P [] h = tt
sort_by-All name P (a ∷ as_) h =
    insert_sorted-All name P a (sort_by name as_) h.0 (sort_by-All name P as_ h.1)

-- On a system with consistent names `AsQ` does not panic, and `AsQ` and `AsXML` give the same
-- queries the same numbers: those of the system and then, instance by instance, those of the
-- process with the name of the instance filled in, numbered from 1 on.
pub queries-numbered :
    (s : System)
    → IsConsistent s
    → (as_q s ≡ ok (numbered Query.as_q 1 (all_queries s)))
      × (queries_xml s ≡ numbered query_xml 1 (all_queries s))
unfolding as_q queries_xml sorted_instances
queries-numbered s w =
    let is = sort_by (λ i. i.name) (values s.instances) in
    (
      ap (λ r. r >>= λ t. ok t.1)
            (instances_q-numbered s is (number_queries Query.as_q s.queries (1, []))
                (sort_by-All (λ i. i.name) (IsEntry s) (values s.instances) w.entries)
              ∙ ap ok (
                  sym (number_queries-append Query.as_q s.queries (instance_queries s is) (1, []))))
          ∙ ap ok (number_queries-numbered Query.as_q (s.queries ++ instance_queries s is) 1 []),
      ap (λ r. r.1)
            (instances_xml-numbered s is (number_queries query_xml s.queries (1, []))
              ∙ sym (number_queries-append query_xml s.queries (instance_queries s is) (1, [])))
          ∙ number_queries-numbered query_xml (s.queries ++ instance_queries s is) 1 [],
    )
