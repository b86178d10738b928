-- ===== src/Uppaal/Declarations/Laws.antt =====
-- Declaring variables and arrays: the index of the variables stays right.
use toph.Prelude.{
  length-set, get_elem?-lt, ◌&&◌, ◌++◌, ◌==◌, Bool-cases, List, Text, [], ap, arith, get_elem?,
  if◌then◌else◌, inl, inr, is_some, length, lookup, ltb, refl, set, some, suc, sym, zero, ℕ, ◌∙◌,
  ◌∷◌, ◌≡◌, ◌≢◌, Option-cases, insert, length-append, lookup-insert, none, text_eq, text_eq_iff, ok,
}
use toph.Uppaal.Declarations.{
  Declarations, init_declarations, VariableInfo, declare, add_variable, unnamed, add_array,
  index_of, write_at,
}

get_elem?-append :
    {A : Type 0} (xs : List A) (v : A) (k : ℕ)
    → get_elem? (xs ++ v ∷ []) k ≡ (if k == length xs then some v else get_elem? xs k)
get_elem?-append [] v zero = refl
get_elem?-append [] v (suc k) = ground arith
get_elem?-append (x ∷ xs) v zero = ground arith
get_elem?-append (x ∷ xs) v (suc k) = ground (arith, get_elem?-append xs v k)

get_elem?-set :
    {A : Type 0} (xs : List A) (i k : ℕ) (v : A)
    → get_elem? (set xs i v) k ≡ (if i == k && ltb i (length xs) then some v else get_elem? xs k)
get_elem?-set [] i k v = ground arith
get_elem?-set (x ∷ xs) zero zero v = ground arith
get_elem?-set (x ∷ xs) zero (suc k) v = ground arith
get_elem?-set (x ∷ xs) (suc i) zero v = ground arith
get_elem?-set (x ∷ xs) (suc i) (suc k) v = ground (arith, get_elem?-set xs i k v)

get_elem?-snoc : {A : Type 0} (xs : List A) (v : A) → get_elem? (xs ++ v ∷ []) (length xs) ≡ some v
get_elem?-snoc xs v = ground (arith, get_elem?-append xs v (length xs))

-- Each entry of the index leads to the variable of that name.
pub record IsValid (d : Declarations) : Type 0 where
  pub indexed :
      (n : Text) (i : ℕ)
      → lookup n d.variable_lookup ≡ some i
      → (v : VariableInfo) × (get_elem? d.variables i ≡ some v) × (v.name ≡ n)

pub init_declarations-IsValid : (comment : Text) → IsValid (init_declarations comment)
init_declarations-IsValid comment = record { indexed = λ n i h. cc }

-- The variable as it is declared.
abbrev pub declared : Text → List ℕ → Text → Text → VariableInfo
declared name dimensions var_type initial_value = record {
  name = name;
  dimensions = dimensions;
  var_type = var_type;
  initial_value = initial_value;
}

pub record Declared (v : VariableInfo) (d d' : Declarations) : Type 0 where
  pub valid : IsValid d'
  pub index : ℕ
  pub place :
      index ≡ elim (lookup v.name d.variable_lookup) [ none ↦ length d.variables | some i ↦ i ]
  pub found : lookup v.name d'.variable_lookup ≡ some index
  pub stored : get_elem? d'.variables index ≡ some v
  pub others : (k : ℕ) → k ≢ index → get_elem? d'.variables k ≡ get_elem? d.variables k
  pub other_names :
      (n : Text) → n ≢ v.name → lookup n d'.variable_lookup ≡ lookup n d.variable_lookup
  pub size : length d'.variables ≡ (
      if is_some (lookup v.name d.variable_lookup)
      then length d.variables
      else suc (length d.variables))
  pub funcs : d'.funcs ≡ d.funcs
  pub stmts : d'.init_func_stmts ≡ d.init_func_stmts

module _ (name : Text) (dimensions : List ℕ) (var_type initial_value : Text) (d : Declarations)
    (valid : IsValid d) where
  abbrev v : VariableInfo
  v = declared name dimensions var_type initial_value

  module _ (i : ℕ) (old : lookup name d.variable_lookup ≡ some i) where
    abbrev rewritten : Declarations
    rewritten = record d { variables = set d.variables i v }

    rewritten-indexed :
        (n : Text) (j : ℕ)
        → lookup n d.variable_lookup ≡ some j
        → (u : VariableInfo) × (get_elem? (set d.variables i v) j ≡ some u) × (u.name ≡ n)
    rewritten-indexed n j h =
        let (u, at, named) = valid.indexed n j h in
        let (x, at_i, named_i) = valid.indexed name i old in
        elim (Bool-cases (i == j)) [
          | inl p ↦
              let q : i ≡ j = ground arith in
              (
                v,
                ground (arith, get_elem?-set d.variables i j v, get_elem?-lt d.variables i at_i),
                sym named_i ∙ ap (λ (y : VariableInfo). y.name) (same x u j at_i at q) ∙ named,
              )
          | inr p ↦ (u, ground (arith, get_elem?-set d.variables i j v), named)
        ]
      where
        same :
            (x u : VariableInfo) (j : ℕ)
            → get_elem? d.variables i ≡ some x
            → get_elem? d.variables j ≡ some u
            → i ≡ j
            → x ≡ u
        same x u j at_i at q = ground arith

    rewritten-Declared : Declared v d rewritten
    rewritten-Declared =
        let (x, at_i, named_i) = valid.indexed name i old in
        let inside = get_elem?-lt d.variables i at_i in
        record {
          valid = record { indexed = rewritten-indexed };
          index = i;
          place = rw old refl;
          found = old;
          stored = ground (arith, get_elem?-set d.variables i i v);
          others = λ k h. ground (arith, get_elem?-set d.variables i k v);
          other_names = λ n h. refl;
          size = ground (arith, length-set d.variables i v);
          funcs = refl;
          stmts = refl;
        }

  module _ (new : lookup name d.variable_lookup ≡ none) where
    abbrev extended : Declarations
    extended = record d {
      variables = set (d.variables ++ record unnamed { name = name } ∷ []) (length d.variables) v;
      variable_lookup = insert name (length d.variables) d.variable_lookup;
    }

    get-extended :
        (k : ℕ)
        → get_elem? extended.variables k
          ≡ (if k == length d.variables then some v else get_elem? d.variables k)
    get-extended k = ground (
      arith,
      get_elem?-set (d.variables ++ record unnamed { name = name } ∷ []) (length d.variables) k v,
      get_elem?-append d.variables (record unnamed { name = name }) k,
      length-append d.variables (record unnamed { name = name } ∷ []),
    )

    extended-indexed :
        (n : Text) (j : ℕ)
        → lookup n extended.variable_lookup ≡ some j
        → (u : VariableInfo) × (get_elem? extended.variables j ≡ some u) × (u.name ≡ n)
    extended-indexed n j h = elim (Bool-cases (text_eq name n)) [
      | inl p ↦ (
        v,
        ground (arith, get-extended j, lookup-insert name n (length d.variables) d.variable_lookup),
        (text_eq_iff name n).0 p,
      )
      | inr p ↦
          let (u, at, named) =
            valid.indexed n j
              (ground (arith, lookup-insert name n (length d.variables) d.variable_lookup)) in
          (u, ground (arith, get-extended j, get_elem?-lt d.variables j at), named)
    ]

    extended-Declared : Declared v d extended
    extended-Declared = record {
      valid = record { indexed = extended-indexed };
      index = length d.variables;
      place = rw new refl;
      found = ground (
        arith,
        lookup-insert name name (length d.variables) d.variable_lookup,
        text_eq_iff name name,
      );
      stored = ground (arith, get-extended (length d.variables));
      others = λ k h. ground (arith, get-extended k);
      other_names = λ n h.
          ground (
            arith,
            lookup-insert name n (length d.variables) d.variable_lookup,
            text_eq_iff name n,
          );
      size = ground (
        arith,
        length-set (d.variables ++ record unnamed { name = name } ∷ []) (length d.variables) v,
        length-append d.variables (record unnamed { name = name } ∷ []),
      );
      funcs = refl;
      stmts = refl;
    }

  declare-Declared :
      (d' : Declarations) × (declare name dimensions var_type initial_value d ≡ ok d')
      × Declared v d d'
  unfolding declare
  declare-Declared = elim (Option-cases (lookup name d.variable_lookup)) [
    | inl new ↦ (
      extended new,
      rw (new, index_of)
          (rw (get_elem?-snoc d.variables (record unnamed { name = name }), write_at) refl),
      extended-Declared new,
    )
    | inr (i, old) ↦
        let (x, at_i, named_i) = valid.indexed name i old in
        (
          rewritten i old,
          rw (old, index_of) (ground (arith, at_i, named_i)),
          rewritten-Declared i old,
        )
  ]

-- Where each entry of the index leads to the variable of its name, `AddVariable` and `AddArray` do
-- not panic, and that stays so. The name then leads to a variable with the given type, dimensions
-- and initial value, in its old place where it was declared before, else behind all others. Every
-- other place, the other names, the functions and the statements stay.
pub add_variable-Declared :
    (name : Text) (dimensions : List ℕ) (var_type initial_value : Text) (d : Declarations)
    → IsValid d
    → ((d' : Declarations) × (add_variable name var_type initial_value d ≡ ok d')
        × Declared (declared name [] var_type initial_value) d d')
      × ((d' : Declarations) × (add_array name dimensions var_type d ≡ ok d')
          × Declared (declared name dimensions var_type []) d d')
unfolding add_variable add_array
add_variable-Declared name dimensions var_type initial_value d valid = (
  declare-Declared name [] var_type initial_value d valid,
  declare-Declared name dimensions var_type [] d valid,
)
