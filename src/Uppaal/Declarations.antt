-- ===== src/Uppaal/Declarations.antt =====
-- uppaal/declarations.go: the declarations of a system or process and their initial function.
pub mod Laws
use toph.Prelude.{
  ℕ, ◌<◌, ◌≡◌, Bool, true, false, not, List, [], ◌∷◌, ◌++◌, Option, none, some, Text, lit, text_eq,
  decimal, length, set, get_elem?, lookup, insert, is_empty, if◌then◌else◌, Result, ok, panic,
  ◌>>=◌, index_out_of_range,
}

pub record VariableInfo : Type 0 where
  pub name : Text
  pub dimensions : List ℕ
  pub var_type : Text
  pub initial_value : Text

pub record Declarations : Type 0 where
  pub header_comment : Text
  pub types : List Text
  pub variables : List VariableInfo
  pub variable_lookup : List (Text × ℕ)
  pub funcs : List Text
  pub init_func_name : Text
  pub init_func_stmts : List Text

abbrev pub init_declarations : Text → Declarations
init_declarations comment = record {
  header_comment = comment;
  types = [];
  variables = [];
  variable_lookup = [];
  funcs = [];
  init_func_name = lit "initialize";
  init_func_stmts = [];
}

abbrev pub add_space_between_types : Declarations → Declarations
add_space_between_types d = record d { types = d.types ++ [] ∷ [] }

abbrev pub add_type : Text → Declarations → Declarations
add_type t d = record d { types = d.types ++ t ∷ [] }

abbrev unnamed : VariableInfo
unnamed = record { name = []; dimensions = []; var_type = []; initial_value = [] }

abbrev pub add_space_between_variables : Declarations → Declarations
add_space_between_variables d = record d { variables = d.variables ++ unnamed ∷ [] }

-- The part that `AddVariable` and `AddArray` begin with: the index of the variable, which is
-- declared where it is new.
abbrev pub index_of : Text → Declarations → ℕ × Declarations
index_of name d = elim (lookup name d.variable_lookup) [
  | some i ↦ (i, d)
  | none ↦ (
    length d.variables,
    record d {
      variables = d.variables ++ record unnamed { name = name } ∷ [];
      variable_lookup = insert name (length d.variables) d.variable_lookup;
    },
  )
]

-- The writes to the fields of `d.variables[i]`, whose name stays.
abbrev write_at : ℕ → List ℕ → Text → Text → List VariableInfo → Result (List VariableInfo)
write_at i dimensions var_type initial_value vs = elim (get_elem? vs i) [
  | none ↦ panic index_out_of_range
  | some v ↦ ok (
      set vs i
        (record v { dimensions = dimensions; var_type = var_type; initial_value = initial_value }))
]

unfoldable pub declare : Text → List ℕ → Text → Text → Declarations → Result Declarations
declare name dimensions var_type initial_value d =
    let (i, d') = index_of name d in
    write_at i dimensions var_type initial_value d'.variables >>= λ vs.
    ok (record d' { variables = vs })

unfoldable pub add_variable : Text → Text → Text → Declarations → Result Declarations
unfolding declare
add_variable name var_type initial_value d = declare name [] var_type initial_value d

unfoldable pub add_array : Text → List ℕ → Text → Declarations → Result Declarations
unfolding declare
add_array name dimensions var_type d = declare name dimensions var_type [] d

abbrev pub add_func : Text → Declarations → Declarations
add_func f d = record d { funcs = d.funcs ++ f ∷ [] }

abbrev pub requires_init_func : Declarations → Bool
requires_init_func d = not (is_empty d.init_func_stmts)

abbrev pub set_init_func_name : Text → Declarations → Declarations
set_init_func_name n d = record d { init_func_name = n }

abbrev pub add_init_func_stmt : Text → Declarations → Declarations
add_init_func_stmt stmt d = record d { init_func_stmts = d.init_func_stmts ++ stmt ∷ [] }

types_xta : List Text → Text
types_xta [] = []
types_xta (t ∷ ts) = lit "\n" ++ t ++ types_xta ts

dimensions_xta : List ℕ → Text
dimensions_xta [] = []
dimensions_xta (n ∷ ns) = lit "[" ++ decimal n ++ lit "]" ++ dimensions_xta ns

unfoldable pub variable_xta : VariableInfo → Text
unfolding dimensions_xta decimal
variable_xta v =
    if text_eq v.name []
    then []
    else v.var_type
      ++ (lit " "
          ++ (v.name
              ++ (dimensions_xta v.dimensions
                  ++ ((if text_eq v.initial_value [] then [] else lit " = " ++ v.initial_value)
                      ++ lit ";"))))

unfoldable pub variables_xta : List VariableInfo → Text
unfolding variable_xta
variables_xta [] = []
variables_xta (v ∷ vs) = lit "\n" ++ (variable_xta v ++ variables_xta vs)

funcs_xta : List Text → Text
funcs_xta [] = []
funcs_xta (f ∷ fs) = lit "\n" ++ (f ++ (lit "\n" ++ funcs_xta fs))

stmts_xta : List Text → Text
stmts_xta [] = []
stmts_xta (s ∷ ss) = lit "    " ++ (s ++ (lit "\n" ++ stmts_xta ss))

unfoldable pub init_func_xta : Declarations → Text
unfolding stmts_xta
init_func_xta d =
    if requires_init_func d
    then lit "\nvoid "
      ++ (d.init_func_name ++ (lit "() {\n" ++ (stmts_xta d.init_func_stmts ++ lit "}")))
    else []

unfoldable pub as_xta : Declarations → Text
unfolding types_xta variables_xta funcs_xta init_func_xta
as_xta d =
    lit "// "
    ++ (d.header_comment
        ++ (types_xta d.types
            ++ (variables_xta d.variables ++ (funcs_xta d.funcs ++ init_func_xta d))))
