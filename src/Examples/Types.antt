-- ===== src/Examples/Types.antt =====
-- Runs on a structure that holds another one with a mutex, and on an array of three such structures.
use toph.Prelude.{
  ok, lit, ◌<◌, ◌==◌, ==_iff, Bool-cases, List, [], ap, arith, false, if◌then◌else◌, inl, inr, map,
  mem, not, refl, subst, sym, true, ℕ, ◌∙◌, ◌∷◌, ◌≡◌, ◌⊎◌,
}
use toph.Ir.Types.{
  IrType, basic, struct, container, mutex_type, Field, array, Types, find_embedded_field_of_type,
}
use toph.Ir.Types.Embedded.{IsIn, IsRank, Found, find_embedded_lem}
use toph.Analyzer.CallsInfo.{key_type}
use toph.Analyzer.CallCounts.{find_callees_for_initialized_type}
use toph.Analyzer.CallCounts.ByType.{Gives, IsSized, initialized_count, initialized_type_lem}
use toph.Analyzer.TypeGraph.{TypeGraph, contains_edge}
use toph.Analyzer.TypeGraph.Edges.{IsSymmetric}
use toph.Analyzer.TypeGraphBuilder.{number, build_type_graph}
use toph.Analyzer.TypeGraphBuilder.Edges.{is_known}
use toph.Analyzer.TypeGraphBuilder.ByValue.{HoldsAt, IsClosed, closed_of, build_type_graph_lem}
use mathlib.Core.Logic.{◌↔◌}

abbrev mutex_field : Field
mutex_field = record {
  index = 0;
  name = lit "mu";
  t = basic mutex_type;
  is_pointer = false;
  is_embedded = true;
  struct_type = 7;
}

abbrev inner_field : Field
inner_field = record {
  index = 0;
  name = lit "inner";
  t = struct 7;
  is_pointer = false;
  is_embedded = true;
  struct_type = 6;
}

abbrev next_field : Field
next_field = record {
  index = 1;
  name = lit "next";
  t = struct 6;
  is_pointer = true;
  is_embedded = false;
  struct_type = 6;
}

abbrev outer_fields : List Field
outer_fields = inner_field ∷ next_field ∷ []

abbrev pub sample_types : Types
sample_types = record {
  structs = λ s. record {
    index = s;
    name = lit "T";
    fields = if s == 6 then outer_fields else mutex_field ∷ [];
  };
  containers = λ c. record {
    index = c;
    kind = array;
    length = 3;
    element_type = struct 6;
    holds_pointers = false;
  };
}

field_cases :
    (s : ℕ) (f : Field)
    → IsIn f (sample_types.structs s).fields
    → ((s ≡ 6) × ((inner_field ≡ f) ⊎ (next_field ≡ f))) ⊎ (mutex_field ≡ f)
field_cases s f m = elim (Bool-cases (s == 6)) [
  | inl e ↦ elim (subst (λ b. IsIn f (if b then outer_fields else mutex_field ∷ [])) e m) [
    | inl i ↦ inl ((==_iff s 6).0 e, inl i)
    | inr (inl i) ↦ inl ((==_iff s 6).0 e, inr i)
    | inr (inr i) ↦ absurd i
  ]
  | inr e ↦ elim (subst (λ b. IsIn f (if b then outer_fields else mutex_field ∷ [])) e m) [
    | inl i ↦ inr i
    | inr i ↦ absurd i
  ]
]

abbrev type_rank : IrType → ℕ
type_rank (basic _) = 0
type_rank (struct s) = if s == 6 then 2 else 1
type_rank (container _) = 3

struct_rank : (s : ℕ) → 0 < type_rank (struct s)
struct_rank s = ground arith

sample-IsRank : IsRank sample_types (λ s. type_rank (struct s))
sample-IsRank s r f m e = elim (field_cases s f m.inside) [
  | inl (six, inl i) ↦
      let one : 1 ≡ type_rank (struct r) = ap type_rank (ap (λ d. d.t) i ∙ e) in
      let two : type_rank (struct s) ≡ 2 = ap (λ x. type_rank (struct x)) six in
      subst (λ n. n < type_rank (struct s)) one (subst (λ n. 1 < n) (sym two) (omega arith))
  | inl (six, inr i) ↦ let off : false ≡ true = ap (λ d. d.is_embedded) i ∙ m.flag in cc
  | inr i ↦ let off : basic mutex_type ≡ struct r = ap (λ d. d.t) i ∙ e in cc
]

sample-IsSized : IsSized sample_types type_rank
sample-IsSized = record {
  falls_to_field = λ s f m e. elim (field_cases s f m) [
    | inl (six, inl i) ↦ rw six (subst (λ d. type_rank d.t < 2) i (omega arith))
    | inl (six, inr i) ↦ let off : false ≡ true = ap (λ d. not d.is_pointer) i ∙ e in cc
    | inr i ↦ subst (λ d. type_rank d.t < type_rank (struct s)) i (struct_rank s)
  ];
  falls_to_element = λ c e. omega arith;
  has_small_length = λ c. omega arith;
}

find_embedded_lem_example :
    Found sample_types
      (basic mutex_type)
      6
      (find_embedded_field_of_type 3 sample_types (basic mutex_type) 6)
find_embedded_lem_example =
    find_embedded_lem 3 sample_types (λ s. type_rank (struct s)) (basic mutex_type) 6 sample-IsRank
      (omega arith)

initialized_type_lem_example :
    Gives
      (initialized_count sample_types 4 (container 8))
      (find_callees_for_initialized_type sample_types 4 (container 8))
initialized_type_lem_example =
    initialized_type_lem sample_types type_rank 4 (container 8) sample-IsSized (omega arith)

abbrev listed : List IrType
listed = basic mutex_type ∷ struct 7 ∷ struct 6 ∷ container 8 ∷ []

listed-IsClosed : IsClosed sample_types listed
listed-IsClosed =
    closed_of sample_types listed
      (tt, ((inl refl, tt), ((inr (inl refl), tt), ((inr (inr (inl refl)), tt), tt))))

build_type_graph_lem_example :
    (tg : TypeGraph) × (build_type_graph sample_types listed ≡ ok tg)
    × IsSymmetric tg
    × ((a : ℕ) → is_known a tg ≡ mem a (map number listed))
    × ((a b : ℕ) → (contains_edge a b tg ≡ true) ↔ HoldsAt sample_types listed a b)
build_type_graph_lem_example = build_type_graph_lem sample_types listed listed-IsClosed

-- The element of the array, its inner structure and its mutex are counted three times.
three_mutexes : initialized_count sample_types 4 (container 8) (key_type (basic mutex_type)) ≡ 3
unfolding initialized_count
three_mutexes = refl
