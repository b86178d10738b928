-- ===== src/Uppaal/System/Print.antt =====
-- The texts of a system: AsXTA, AsUGI, AsQ and AsXML of uppaal/system.go.
use toph.Prelude.{
  cat, Text, Result, ok, panic, ◌++◌, ◌>>=◌, Bool, List, [], false, if◌then◌else◌, is_empty, lit,
  lookup, none, some, suc, true, ℕ, ◌∷◌, nil_dereference,
}
use toph.Uppaal.Xml.{escape}
use toph.Uppaal.Objects.{Heap}
use toph.Uppaal.Declarations
use toph.Uppaal.Query
use toph.Uppaal.Query.{Query, substitute}
use toph.Uppaal.Process
use toph.Uppaal.Process.Print
use toph.Uppaal.Process.Xml
use toph.Uppaal.System.{
  System, ProcessInstance, can_skip_declaration, instance_xta, sorted_processes, sorted_instances,
  values,
}

processes_xta : Heap → System → List ℕ → Result Text
unfolding Process.Print.as_xta
processes_xta h s [] = ok []
processes_xta h s (p ∷ ps) = Process.Print.as_xta h (s.process_at p) >>= λ text.
    processes_xta h s ps >>= λ rest. ok (text ++ (lit "\n\n" ++ rest))

instances_xta : System → List ProcessInstance → Text
unfolding instance_xta
instances_xta s [] = []
instances_xta s (i ∷ is) =
    let rest = instances_xta s is in
    if can_skip_declaration s i then rest else instance_xta s i ++ (lit "\n" ++ rest)

-- The loop that writes the names of the instances, with its flag `first`.
instance_names : Bool → List ProcessInstance → Text
instance_names first [] = []
instance_names first (i ∷ is) =
    (if first then [] else lit ", ") ++ (i.name ++ instance_names false is)

measures_xta : List Text → Text
measures_xta [] = []
measures_xta (m ∷ ms) = lit "    " ++ (m ++ (lit ";\n" ++ measures_xta ms))

-- The instances and the progress measures, which AsXTA and AsXML write alike.
system_xta : System → Text
unfolding instances_xta instance_names measures_xta sorted_instances
system_xta s =
    let is = sorted_instances s in
    instances_xta s is
    ++ ((if is_empty is then [] else cat (lit "system " ∷ instance_names true is ∷ lit ";\n" ∷ []))
        ++ (if is_empty s.progress_measures
            then []
            else cat (lit "progress{\n" ∷ measures_xta s.progress_measures ∷ lit "}\n" ∷ [])))

unfoldable pub as_xta : Heap → System → Result Text
unfolding processes_xta system_xta sorted_processes
as_xta h s = processes_xta h s (sorted_processes s) >>= λ text.
    ok (Declarations.as_xta s.decls ++ (lit "\n\n" ++ (text ++ system_xta s)))

processes_ugi : Heap → System → List ℕ → Text
unfolding Process.Print.as_ugi
processes_ugi h s [] = []
processes_ugi h s (p ∷ ps) =
    Process.Print.as_ugi h (s.process_at p) ++ (lit "\n\n" ++ processes_ugi h s ps)

-- The loop is over the map itself, in its order.
unfoldable pub as_ugi : Heap → System → Text
unfolding processes_ugi
as_ugi h s = processes_ugi h s (values s.processes)

-- A loop over queries: the next number, and the text so far.
unfoldable pub number_queries : (ℕ → Query → Text) → List Query → ℕ × Text → ℕ × Text
number_queries show [] r = r
number_queries show (q ∷ qs) (n, text) = number_queries show qs (suc n, text ++ show n q)

abbrev pub substitute_all : Text → List Query → List Query
substitute_all name [] = []
substitute_all name (q ∷ qs) = substitute name q ∷ substitute_all name qs

-- AsQ finds the process of an instance by its name in the map of the system.
unfoldable pub instances_q : System → List ProcessInstance → ℕ × Text → Result (ℕ × Text)
unfolding number_queries substitute
instances_q s [] r = ok r
instances_q s (i ∷ is) r = elim (lookup (s.process_at i.proc).name s.processes) [
  | none ↦ panic nil_dereference
  | some p ↦
      instances_q s is
        (number_queries Query.as_q (substitute_all i.name (s.process_at p).queries) r)
]

unfoldable pub as_q : System → Result Text
unfolding number_queries instances_q sorted_instances
as_q s =
    instances_q s (sorted_instances s) (number_queries Query.as_q s.queries (1, [])) >>= λ r. ok r.1

abbrev pub query_xml : ℕ → Query → Text
query_xml number q = Query.as_xml number (lit "        ") q ++ lit "\n"

-- AsXML takes the process of an instance by its pointer.
unfoldable pub instances_xml : System → List ProcessInstance → ℕ × Text → ℕ × Text
unfolding number_queries substitute
instances_xml s [] r = r
instances_xml s (i ∷ is) r =
    instances_xml s is
      (number_queries query_xml (substitute_all i.name (s.process_at i.proc).queries) r)

unfoldable pub queries_xml : System → Text
unfolding number_queries instances_xml sorted_instances
queries_xml s =
    (instances_xml s (sorted_instances s) (number_queries query_xml s.queries (1, []))).1

processes_xml : Heap → System → List ℕ → Text
unfolding Process.Xml.as_xml
processes_xml h s [] = []
processes_xml h s (p ∷ ps) =
    Process.Xml.as_xml h (lit "    ") (s.process_at p) ++ (lit "\n" ++ processes_xml h s ps)

abbrev doctype : Text
doctype =
    lit
      "<!DOCTYPE nta PUBLIC '-//Uppaal Team//DTD Flat System 1.1//EN' 'http://www.it.uu.se/research/group/darts/uppaal/flat-1_2.dtd'>\n"

unfoldable pub as_xml : Heap → System → Text
unfolding escape processes_xml system_xta queries_xml sorted_processes
as_xml h s = cat (
    lit "<?xml version=\"1.0\" encoding=\"utf-8\"?>\n"
    ∷ doctype
    ∷ lit "<nta>\n"
    ∷ lit "    <declaration>"
    ∷ escape (Declarations.as_xta s.decls)
    ∷ lit "    </declaration>\n"
    ∷ processes_xml h s (sorted_processes s)
    ∷ lit "    <system>\n"
    ∷ system_xta s
    ∷ lit "</system>\n"
    ∷ lit "    <queries>\n"
    ∷ queries_xml s
    ∷ lit "    </queries>\n"
    ∷ lit "</nta>\n"
    ∷ [])
