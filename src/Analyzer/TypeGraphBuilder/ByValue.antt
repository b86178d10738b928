-- ===== src/Analyzer/TypeGraphBuilder/ByValue.antt =====
-- The edges of the type graph that is built, in terms of what a type holds by value.
use toph.Prelude.{
  ok, ◌&&◌, ◌==◌, ==_iff, All, Bool, Bool-cases, List, [], ap, arith, false, inl, inr, map, mem,
  refl, some_of, subst, true, ℕ, ◌∷◌, ◌∙◌, ◌≡◌,
}
use mathlib.Core.Logic.{◌↔◌}
use toph.Ir.Types.{IrType, Types, basic, struct, container, Field}
use toph.Ir.Types.Embedded.{IsIn}
use toph.Analyzer.TypeGraph.{TypeGraph, contains_edge}
use toph.Analyzer.TypeGraph.Edges.{IsSymmetric}
use toph.Analyzer.TypeGraphBuilder.{number, held_by, held_by_fields, build_type_graph}
use toph.Analyzer.TypeGraphBuilder.Edges.{is_known, build_type_graph-edges}

-- What it means that a type holds another one by value: a structure has a field of that type that is
-- no pointer, a container has elements of that type and does not hold pointers.
abbrev pub HoldsByValue : Types → IrType → IrType → Type 0
HoldsByValue g (basic _) u = false ≡ true
HoldsByValue g (struct s) u =
    (f : Field) × IsIn f (g.structs s).fields × (f.is_pointer ≡ false) × (f.t ≡ u)
HoldsByValue g (container c) u =
    ((g.containers c).holds_pointers ≡ false) × ((g.containers c).element_type ≡ u)

-- Two types of a list, with these numbers, of which the first holds the second by value.
abbrev pub HoldsAt : Types → List IrType → ℕ → ℕ → Type 0
HoldsAt g ts a b = (t u : IrType) × IsIn t ts × (number t ≡ a) × (number u ≡ b) × HoldsByValue g t u

fields_held :
    (u : IrType) (fs : List Field)
    → IsIn u (held_by_fields fs)
    → (f : Field) × IsIn f fs × (f.is_pointer ≡ false) × (f.t ≡ u)
fields_held u [] h = absurd h
fields_held u (f ∷ fs) h = elim (Bool-cases f.is_pointer) [
  | inl p ↦
      let (x, i, q, e) = fields_held u fs (subst (IsIn u) (field_skipped f fs p) h) in
      (x, inr i, q, e)
  | inr p ↦ elim (subst (IsIn u) (field_taken f fs p) h) [
    | inl e ↦ (f, inl refl, p, e)
    | inr h' ↦ let (x, i, q, e) = fields_held u fs h' in (x, inr i, q, e)
  ]
]
  where
    field_skipped :
        (f : Field) (fs : List Field)
        → f.is_pointer ≡ true
        → held_by_fields (f ∷ fs) ≡ held_by_fields fs
    field_skipped f fs p = rw p refl

    field_taken :
        (f : Field) (fs : List Field)
        → f.is_pointer ≡ false
        → held_by_fields (f ∷ fs) ≡ f.t ∷ held_by_fields fs
    field_taken f fs p = rw p refl

held_fields :
    (u : IrType) (f : Field) (fs : List Field)
    → IsIn f fs
    → f.is_pointer ≡ false
    → f.t ≡ u
    → IsIn u (held_by_fields fs)
held_fields u f [] i p e = absurd i
held_fields u f (x ∷ fs) (inl q) p e =
    let n : x.is_pointer ≡ false = ap (λ (y : Field). y.is_pointer) q ∙ p in
    rw n (inl (ap (λ (y : Field). y.t) q ∙ e))
held_fields u f (x ∷ fs) (inr i) p e = elim (Bool-cases x.is_pointer) [
  | inl n ↦ rw n (held_fields u f fs i p e)
  | inr n ↦ rw n (inr (held_fields u f fs i p e))
]

held_by-HoldsByValue : (g : Types) (t u : IrType) → IsIn u (held_by g t) → HoldsByValue g t u
held_by-HoldsByValue g (basic b) u h = absurd h
held_by-HoldsByValue g (struct s) u h = fields_held u (g.structs s).fields h
held_by-HoldsByValue g (container c) u h = elim (Bool-cases (g.containers c).holds_pointers) [
  | inl p ↦ absurd (subst (IsIn u) (skipped p) h)
  | inr p ↦ elim (subst (IsIn u) (taken p) h) [ inl e ↦ (p, e) | inr n ↦ absurd n ]
]
  where
    skipped : (g.containers c).holds_pointers ≡ true → held_by g (container c) ≡ []
    skipped p = rw p refl

    taken :
        (g.containers c).holds_pointers ≡ false
        → held_by g (container c) ≡ (g.containers c).element_type ∷ []
    taken p = rw p refl

HoldsByValue-held_by : (g : Types) (t u : IrType) → HoldsByValue g t u → IsIn u (held_by g t)
HoldsByValue-held_by g (basic b) u h = cc
HoldsByValue-held_by g (struct s) u (f, i, p, e) = held_fields u f (g.structs s).fields i p e
HoldsByValue-held_by g (container c) u (p, e) = rw p (inl e)

some_of-IsIn :
    (p : IrType → Bool) (ts : List IrType)
    → some_of p ts ≡ true
    → (t : IrType) × IsIn t ts × (p t ≡ true)
some_of-IsIn p [] h = cc
some_of-IsIn p (t ∷ ts) h = elim (Bool-cases (p t)) [
  | inl e ↦ (t, inl refl, e)
  | inr e ↦ let (u, i, q) = some_of-IsIn p ts (ground (arith, h, e)) in (u, inr i, q)
]

IsIn-some_of :
    (p : IrType → Bool) (t : IrType) (ts : List IrType)
    → IsIn t ts
    → p t ≡ true
    → some_of p ts ≡ true
IsIn-some_of p t [] i h = absurd i
IsIn-some_of p t (u ∷ us) (inl e) h = let q = ap p e ∙ h in ground (arith, q)
IsIn-some_of p t (u ∷ us) (inr i) h = ground (arith, IsIn-some_of p t us i h)

all_of {κ} : (P : IrType → Type κ) (ts : List IrType) → ((t : IrType) → IsIn t ts → P t) → All P ts
all_of P [] h = tt
all_of P (t ∷ ts) h = (h t (inl refl), all_of P ts (λ u i. h u (inr i)))

All-IsIn {κ} : (P : IrType → Type κ) (t : IrType) (ts : List IrType) → All P ts → IsIn t ts → P t
All-IsIn P t [] h i = absurd i
All-IsIn P t (u ∷ us) (h, hs) (inl e) = subst P e h
All-IsIn P t (u ∷ us) (h, hs) (inr i) = All-IsIn P t us hs i

mem-number : (t : IrType) (ts : List IrType) → IsIn t ts → mem (number t) (map number ts) ≡ true
mem-number t [] i = absurd i
mem-number t (u ∷ us) (inl e) = let q = ap number e in ground (arith, q)
mem-number t (u ∷ us) (inr i) = ground (arith, mem-number t us i)

-- What a type of a list holds by value is in the list.
abbrev pub IsClosed : Types → List IrType → Type 0
IsClosed g ts = (t u : IrType) → IsIn t ts → HoldsByValue g t u → IsIn u ts

pub closed_of :
    (g : Types) (ts : List IrType)
    → All (λ t. All (λ u. IsIn u ts) (held_by g t)) ts
    → IsClosed g ts
closed_of g ts h t u i k =
    All-IsIn (λ u. IsIn u ts) u (held_by g t)
      (All-IsIn (λ t. All (λ u. IsIn u ts) (held_by g t)) t ts h i) (HoldsByValue-held_by g t u k)

-- For a list of types that has all types which its types hold by value, the graph is built. Its
-- types are those of the list, both its maps agree, and it has an edge from one type to another
-- exactly where the first one holds the second one by value: as a structure with a field of the
-- type that is no pointer, or as a container of such elements that does not hold pointers.
pub build_type_graph_lem :
    (g : Types) (ts : List IrType)
    → IsClosed g ts
    → (tg : TypeGraph) × (build_type_graph g ts ≡ ok tg)
      × IsSymmetric tg
      × ((a : ℕ) → is_known a tg ≡ mem a (map number ts))
      × ((a b : ℕ) → (contains_edge a b tg ≡ true) ↔ HoldsAt g ts a b)
build_type_graph_lem g ts closed =
    let (tg, e, w, known, edges) = build_type_graph-edges g ts (
      all_of (λ t. All (λ u. mem (number u) (map number ts) ≡ true) (held_by g t)) ts
        (λ t i.
          all_of (λ u. mem (number u) (map number ts) ≡ true) (held_by g t)
            (λ u j. mem-number u ts (closed t u i (held_by-HoldsByValue g t u j))))) in
    (
      tg,
      e,
      w,
      known,
      λ a b. (
        λ h.
            let (t, i, q) =
              some_of-IsIn (λ t. number t == a && some_of (λ u. number u == b) (held_by g t)) ts
                (ground (arith, edges a b, h)) in
            let (u, j, r) = some_of-IsIn (λ u. number u == b) (held_by g t) (ground (arith, q)) in
            let (x, _) = ==_iff (number t) a in
            let (y, _) = ==_iff (number u) b in
            (t, u, i, x (ground (arith, q)), y r, held_by-HoldsByValue g t u j),
        λ (t, u, i, x, y, k).
            let (_, m) = ==_iff (number t) a in
            let (_, n) = ==_iff (number u) b in
            let inner =
              IsIn-some_of (λ u. number u == b) u (held_by g t) (HoldsByValue-held_by g t u k)
                (n y) in
            let first = m x in
            edges a b
            ∙ IsIn-some_of (λ t. number t == a && some_of (λ u. number u == b) (held_by g t)) t ts i
                (ground (arith, inner, first)),
      ),
    )
