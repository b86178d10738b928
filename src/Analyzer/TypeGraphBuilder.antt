-- ===== src/Analyzer/TypeGraphBuilder.antt =====
-- ir/analyzer/type_graph_builder.go: the type graph of a program, from its types.
pub mod Edges
pub mod ByValue
use toph.Prelude.{Result, ok, ◌>>=◌, List, [], if◌then◌else◌, ℕ, ◌∷◌}
use toph.Ir.Types.{IrType, basic, struct, container, Field, Types, basic_index}
use toph.Analyzer.TypeGraph.{TypeGraph, new_type_graph, add_type, add_dependency}

-- The number that the program gives a type.
abbrev pub number : IrType → ℕ
number (basic b) = basic_index b
number (struct s) = s
number (container c) = c

abbrev pub held_by_fields : List Field → List IrType
held_by_fields [] = []
held_by_fields (f ∷ fs) = if f.is_pointer then held_by_fields fs else f.t ∷ held_by_fields fs

-- The types that a type refers to by value, in the order in which they are added.
abbrev pub held_by : Types → IrType → List IrType
held_by g (basic _) = []
held_by g (struct s) = held_by_fields (g.structs s).fields
held_by g (container c) =
    if (g.containers c).holds_pointers then [] else (g.containers c).element_type ∷ []

unfoldable pub add_types_to_type_graph : List IrType → TypeGraph → TypeGraph
unfolding add_type
add_types_to_type_graph [] tg = tg
add_types_to_type_graph (t ∷ ts) tg = add_types_to_type_graph ts (add_type (number t) tg)

-- The inner loop, over the types that one type holds.
unfoldable pub add_held : ℕ → List IrType → TypeGraph → Result TypeGraph
unfolding add_dependency
add_held t [] tg = ok tg
add_held t (u ∷ us) tg = add_dependency t (number u) tg >>= add_held t us

unfoldable pub add_dependencies_to_type_graph : Types → List IrType → TypeGraph → Result TypeGraph
unfolding add_held
add_dependencies_to_type_graph g [] tg = ok tg
add_dependencies_to_type_graph g (t ∷ ts) tg =
    add_held (number t) (held_by g t) tg >>= add_dependencies_to_type_graph g ts

unfoldable pub build_type_graph : Types → List IrType → Result TypeGraph
unfolding add_types_to_type_graph add_dependencies_to_type_graph
build_type_graph g ts =
    add_dependencies_to_type_graph g ts (add_types_to_type_graph ts new_type_graph)
