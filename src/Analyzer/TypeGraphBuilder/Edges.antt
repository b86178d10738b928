-- ===== src/Analyzer/TypeGraphBuilder/Edges.antt =====
-- The edges of the type graph that is built.
use toph.Prelude.{
  Result, ok, find-put, ◌&&◌, ◌==◌, All, Bool, List, [], arith, find, is_some, map, mem, refl,
  some_of, true, ◌||◌, ℕ, ◌∷◌, ◌≡◌, subst, sym, ◌∙◌,
}
use toph.Ir.Types.{IrType, Types}
use toph.Analyzer.TypeGraph.{
  TypeGraph, new_type_graph, contains_edge, add_type, add_dependency, write_dependency, include, at,
}
use toph.Analyzer.TypeGraph.Edges.{IsSymmetric, add_type-IsSymmetric, add_dependency-IsSymmetric}
use toph.Analyzer.TypeGraphBuilder.{
  number, held_by, add_types_to_type_graph, add_held, add_dependencies_to_type_graph,
  build_type_graph,
}

abbrev pub is_known : ℕ → TypeGraph → Bool
is_known t g = is_some (find t g.dependees)

-- A graph has grown by some edges between its types.
record Grown (edge : ℕ → ℕ → Bool) (g h : TypeGraph) : Type 0 where
  symmetric : IsSymmetric h
  edges : (a b : ℕ) → contains_edge a b h ≡ (edge a b || contains_edge a b g)
  same_types : (a : ℕ) → is_known a h ≡ is_known a g

abbrev Grows : (ℕ → ℕ → Bool) → TypeGraph → Result TypeGraph → Type 0
Grows edge g m = (h : TypeGraph) × (m ≡ ok h) × Grown edge g h

-- The numbers of the types that are held by one of some types are among those of all types.
abbrev pub HasNumbers : Types → List IrType → List IrType → Type 0
HasNumbers g all ts = All (λ t. All (λ u. mem (number u) (map number all) ≡ true) (held_by g t)) ts

abbrev holds_one : ℕ → List IrType → ℕ → Bool
holds_one t us b = some_of (λ u. number u == b) us

-- Whether a type with one number holds a type with another number.
abbrev pub holds : Types → List IrType → ℕ → ℕ → Bool
holds g ts a b = some_of (λ t. number t == a && some_of (λ u. number u == b) (held_by g t)) ts

ok-injective : (g h : TypeGraph) → ok g ≡ ok h → g ≡ h
ok-injective g h e = cc

one_type_known : (t a : ℕ) (g : TypeGraph) → is_known a (add_type t g) ≡ (t == a || is_known a g)
unfolding add_type
one_type_known t a g = ground (arith, find-put t a [] g.dependees)

one-Grows :
    (t u : ℕ) (g : TypeGraph)
    → IsSymmetric g
    → is_known t g ≡ true
    → is_known u g ≡ true
    → Grows (λ a b. t == a && u == b) g (add_dependency t u g)
unfolding add_dependency
one-Grows t u g w p q =
    let known : (is_known t g && is_known u g) ≡ true = ground (arith, p, q) in
    let (h, e, sym_h, edges, _) = (add_dependency-IsSymmetric t u g w).1 known in
    let us = at t g.dependees in
    let written = write_dependency t u us (at u g.dependants) g in
    let e' : add_dependency t u g ≡ ok written = ground (arith, known, w.same_types u) in
    let eq : written ≡ h = ok-injective written h (sym e' ∙ e) in
    (
      h,
      e,
      record {
        symmetric = sym_h;
        edges = edges;
        same_types = λ a.
            subst (λ x. is_known a x ≡ is_known a g) eq
              (ground (arith, p, find-put t a (include u us) g.dependees));
      },
    )

All-map_known :
    (us : List IrType) (g h : TypeGraph)
    → ((a : ℕ) → is_known a h ≡ is_known a g)
    → All (λ u. is_known (number u) g ≡ true) us
    → All (λ u. is_known (number u) h ≡ true) us
All-map_known [] g h same q = record {}
All-map_known (u ∷ us) g h same (q, qs) = (same (number u) ∙ q, All-map_known us g h same qs)

held-Grows :
    (t : ℕ) (us : List IrType) (g : TypeGraph)
    → IsSymmetric g
    → is_known t g ≡ true
    → All (λ u. is_known (number u) g ≡ true) us
    → Grows (λ a b. t == a && some_of (λ u. number u == b) us) g (add_held t us g)
unfolding add_held
held-Grows t [] g w p q =
    (g, refl, record { symmetric = w; edges = λ a b. ground arith; same_types = λ a. refl })
held-Grows t (u ∷ us) g w p (q, qs) =
    let (h, e, k) = one-Grows t (number u) g w p q in
    let known = All-map_known us g h k.same_types qs in
    let (h', e', k') = held-Grows t us h k.symmetric (k.same_types t ∙ p) known in
    (
      h',
      rw e e',
      record {
        symmetric = k'.symmetric;
        edges = λ a b. ground (arith, k.edges a b, k'.edges a b);
        same_types = λ a. k'.same_types a ∙ k.same_types a;
      },
    )

types-Grow :
    (ts : List IrType) (g : TypeGraph)
    → IsSymmetric g
    → IsSymmetric (add_types_to_type_graph ts g)
      × ((a : ℕ)
          → is_known a (add_types_to_type_graph ts g) ≡ (mem a (map number ts) || is_known a g))
      × ((a b : ℕ) → contains_edge a b (add_types_to_type_graph ts g) ≡ contains_edge a b g)
unfolding add_types_to_type_graph
types-Grow [] g w = (w, λ a. refl, λ a b. refl)
types-Grow (t ∷ ts) g w =
    let (w', known, edges) = add_type-IsSymmetric (number t) g w in
    let (v, k, e) = types-Grow ts (add_type (number t) g) w' in
    (v, λ a. k a ∙ ground (arith, one_type_known (number t) a g), λ a b. e a b ∙ edges a b)

dependencies-Grow :
    (g : Types) (all ts : List IrType) (tg : TypeGraph)
    → IsSymmetric tg
    → ((a : ℕ) → mem a (map number all) ≡ true → is_known a tg ≡ true)
    → All (λ t. mem (number t) (map number all) ≡ true) ts
    → HasNumbers g all ts
    → Grows (holds g ts) tg (add_dependencies_to_type_graph g ts tg)
unfolding add_dependencies_to_type_graph
dependencies-Grow g all [] tg w known inside closed =
    (tg, refl, record { symmetric = w; edges = λ a b. ground arith; same_types = λ a. refl })
dependencies-Grow g all (t ∷ ts) tg w known (i, is) (c, cs) =
    let (h, e, k) =
      held-Grows (number t) (held_by g t) tg w (known (number t) i) (known_all (held_by g t) c) in
    let (h', e', k') =
      dependencies-Grow g all ts h k.symmetric (λ a m. k.same_types a ∙ known a m) is cs in
    (
      h',
      rw e e',
      record {
        symmetric = k'.symmetric;
        edges = λ a b. ground (arith, k.edges a b, k'.edges a b);
        same_types = λ a. k'.same_types a ∙ k.same_types a;
      },
    )
  where
    known_all :
        (us : List IrType)
        → All (λ u. mem (number u) (map number all) ≡ true) us
        → All (λ u. is_known (number u) tg ≡ true) us
    known_all [] m = record {}
    known_all (u ∷ us) (m, ms) = (known (number u) m, known_all us ms)

mem-All :
    (ts us : List IrType)
    → ((a : ℕ) → mem a (map number ts) ≡ true → mem a (map number us) ≡ true)
    → All (λ t. mem (number t) (map number us) ≡ true) ts
mem-All [] us h = record {}
mem-All (t ∷ ts) us h =
    (h (number t) (ground arith), mem-All ts us (λ a m. h a (ground (arith, m))))

-- The graph, in terms of the lists of held types.
pub build_type_graph-edges :
    (g : Types) (ts : List IrType)
    → HasNumbers g ts ts
    → (tg : TypeGraph) × (build_type_graph g ts ≡ ok tg)
      × IsSymmetric tg
      × ((a : ℕ) → is_known a tg ≡ mem a (map number ts))
      × ((a b : ℕ) → contains_edge a b tg ≡ holds g ts a b)
unfolding build_type_graph
build_type_graph-edges g ts closed =
    let (w, known, edges) =
      types-Grow ts new_type_graph (record { same_types = λ t. refl; backwards = λ t u. refl }) in
    let tg = add_types_to_type_graph ts new_type_graph in
    let (h, e, k) =
      dependencies-Grow g ts ts tg w (λ a m. ground (arith, known a, m)) (mem-All ts ts (λ a m. m))
        closed in
    (
      h,
      e,
      k.symmetric,
      λ a. k.same_types a ∙ known a ∙ ground arith,
      λ a b. k.edges a b ∙ ground (arith, edges a b),
    )
