-- ===== src/Ir/Program.antt =====
-- ir/program.go and ir/func.go: the functions, variables and types of a program. Functions and
-- scopes are pointers. The pointer of a new function and of its scope is an argument of the operation
-- that makes it.
pub mod Lookup
pub mod Adding
use toph.Prelude.Word
use toph.Prelude.Word.{Int64, int_text}
use toph.Prelude.{
  Text, Result, ok, panic, lit, ◌++◌, ◌==◌, ◌>>=◌, Bool, List, Option, [], delete, find,
  if◌then◌else◌, lookup, mem, none, put, some, ℕ, ◌∷◌, init_removed, keep, not,
}
use toph.Ir.Types.{
  IrType, basic, struct, container, func_type, int_type, chan_type, mutex_type, wait_group_type,
  once_type, StructType, ContainerKind, ContainerType, Signature, Types, Value, make_value,
  new_struct_type, new_container_type,
}
use toph.Ir.Values.{Variable, new_variable, variable_type}
use toph.Ir.Stmts.{Body, body, end, scope}
use toph.Ir.Scope
use toph.Ir.Scope.{Store}

pub record Func : Type 0 where
  pub index : Int64
  pub name : Text
  pub signature : Option Signature
  pub args : List (ℕ × ℕ)
  pub result_types : List (ℕ × Option IrType)
  pub results : List (ℕ × ℕ)
  pub enclosing_func : Option ℕ
  pub body_of : Body

-- `struct Program` with the objects behind its pointers. The types are those of `types`, by pointer,
-- and `type_list` are the types that the program knows.
pub record Program : Type 0 where
  pub funcs : List ℕ
  pub func_lookup : List (ℕ × ℕ)
  pub init_func : ℕ
  pub func_count : Int64
  pub global_scope : ℕ
  pub variable_count : Int64
  pub type_list : List IrType
  pub type_lookup : List (ℕ × IrType)
  pub type_count : Int64
  pub func_at : ℕ → Func
  pub variable_at : ℕ → Variable
  pub types : Types
  pub scopes : Store

abbrev outer_name : Text → Int64 → Text
outer_name [] index = lit "func" ++ int_text index
outer_name name index = name

abbrev pub new_outer_func : Int64 → Text → Option Signature → ℕ → Func
new_outer_func index name signature own_scope = record {
  index = index;
  name = outer_name name index;
  signature = signature;
  args = [];
  result_types = [];
  results = [];
  enclosing_func = none;
  body_of = body own_scope end;
}

abbrev new_inner_func : Int64 → Option Signature → ℕ → Text → ℕ → Func
new_inner_func index signature enclosing enclosing_name own_scope = record {
  index = index;
  name = enclosing_name ++ lit "_closure";
  signature = signature;
  args = [];
  result_types = [];
  results = [];
  enclosing_func = some enclosing;
  body_of = body own_scope end;
}

-- The object of a pointer is written.
abbrev write_func : ℕ → Func → (ℕ → Func) → ℕ → Func
write_func f new funcs g = if f == g then new else funcs g

-- A function enters the program under the next index.
abbrev pub insert_func : ℕ → Func → Store → Program → Program
insert_func f new scopes p = record p {
  func_count = Word.add p.func_count 1;
  funcs = p.funcs ++ f ∷ [];
  func_lookup = put p.func_count f p.func_lookup;
  func_at = write_func f new p.func_at;
  scopes = scopes;
}

unfoldable pub add_outer_func : ℕ → ℕ → Text → Option Signature → Program → Result Program
add_outer_func f own_scope name signature p =
    Scope.add_child p.global_scope own_scope p.scopes >>= λ scopes.
    ok (insert_func f (new_outer_func p.func_count name signature own_scope) scopes p)

unfoldable pub add_inner_func : ℕ → ℕ → Option Signature → ℕ → ℕ → Program → Result Program
add_inner_func f own_scope signature enclosing enclosing_scope p =
    Scope.add_child enclosing_scope own_scope p.scopes >>= λ scopes. ok (
      insert_func f
        (new_inner_func p.func_count signature enclosing (p.func_at enclosing).name own_scope)
        scopes p)

abbrev basic_types : List IrType
basic_types =
    basic int_type
    ∷ basic func_type
    ∷ basic chan_type
    ∷ basic mutex_type
    ∷ basic wait_group_type
    ∷ basic once_type
    ∷ []

-- A program before its first function.
abbrev pub empty_program : ℕ → (ℕ → Func) → (ℕ → Variable) → Types → Store → Program
empty_program global func_at variable_at types scopes = record {
  funcs = [];
  func_lookup = [];
  init_func = 0;
  func_count = 0;
  global_scope = global;
  variable_count = 0;
  type_list = basic_types;
  type_lookup =
      (0, basic int_type)
      ∷ (1, basic func_type)
      ∷ (2, basic chan_type)
      ∷ (3, basic mutex_type)
      ∷ (4, basic wait_group_type)
      ∷ (5, basic once_type)
      ∷ [];
  type_count = 6;
  func_at = func_at;
  variable_at = variable_at;
  types = types;
  scopes = scopes;
}

-- `NewProgram` makes the function `start`.
unfoldable pub new_program :
    ℕ → ℕ → ℕ → (ℕ → Func) → (ℕ → Variable) → Types → Store → Result Program
unfolding add_outer_func
new_program f own_scope global func_at variable_at types scopes =
    add_outer_func f own_scope (lit "start") none
      (empty_program global func_at variable_at types scopes)
    >>= λ p. ok (record p { init_func = f })

-- `Func`, which is nil for an unknown index.
abbrev pub func : Int64 → Program → Option ℕ
func index p = find index p.func_lookup

abbrev pub func_value : Func → Value
func_value f = make_value f.index (basic func_type)

-- The loop over the map of old functions; a function whose flag is false is left out of `olds`.
abbrev pub forget_all : List ℕ → (ℕ → Func) → List (ℕ × ℕ) → List (ℕ × ℕ)
forget_all [] func_at lookup = lookup
forget_all (f ∷ fs) func_at lookup = forget_all fs func_at (delete (func_at f).index lookup)

abbrev pub without_funcs : List ℕ → Program → Program
without_funcs olds p = record p {
  funcs = keep (λ f. not (mem f olds)) p.funcs;
  func_lookup = forget_all olds p.func_at p.func_lookup;
}

unfoldable pub remove_funcs : List ℕ → Program → Result Program
remove_funcs olds p = if mem p.init_func olds then panic init_removed else ok (without_funcs olds p)

abbrev pub make_variable : Text → Value → Program → Variable × Program
make_variable name initial_value p = (
  new_variable p.variable_count name initial_value,
  record p { variable_count = Word.add p.variable_count 1 },
)

abbrev write_type : IrType → Types → Program → Program
write_type t types p = record p {
  type_count = Word.add p.type_count 1;
  type_list = p.type_list ++ t ∷ [];
  type_lookup = put p.type_count t p.type_lookup;
  types = types;
}

-- The pointer of a new structure is its index.
unfoldable pub add_struct_type : Text → Program → IrType × Program
add_struct_type name p =
    let i = p.type_count in
    let g = p.types in
    let new = new_struct_type i name in
    (
      struct i,
      write_type (struct i) (record g { structs = λ j. if i == j then new else g.structs j }) p,
    )

unfoldable pub add_container_type :
    ContainerKind → Int64 → IrType → Bool → Program → IrType × Program
add_container_type kind len element_type holds_pointers p =
    let i = p.type_count in
    let g = p.types in
    let new = new_container_type i kind len element_type holds_pointers in
    (
      container i,
      write_type (container i)
          (record g { containers = λ j. if i == j then new else g.containers j }) p,
    )

-- The operations of a function of the program, which is reached by its pointer.
abbrev with_func : ℕ → (Func → Func) → Program → Program
with_func f change p = record p { func_at = write_func f (change (p.func_at f)) p.func_at }

abbrev func_scope : ℕ → Program → ℕ
func_scope f p = scope (p.func_at f).body_of

abbrev pub define_arg : ℕ → ℕ → ℕ → Program → Program
define_arg f index arg p = with_func f (λ x. record x { args = put index arg x.args }) p

abbrev pub define_result : ℕ → ℕ → ℕ → Program → Program
define_result f index result p =
    let t = variable_type (p.variable_at result) in
    with_func f
      (λ x. record x {
        result_types = put index t x.result_types;
        results = put index result x.results;
      })
      p

abbrev pub add_result_type : ℕ → ℕ → Option IrType → Program → Program
add_result_type f index t p =
    with_func f (λ x. record x { result_types = put index t x.result_types }) p

-- The map is written before the scope refuses a variable that stands in a scope.
unfoldable pub add_arg : ℕ → ℕ → ℕ → Program → Result Program
add_arg f index arg p = Scope.add_variable (func_scope f p) (some arg) p.scopes >>= λ scopes.
    ok (record (define_arg f index arg p) { scopes = scopes })

unfoldable pub add_result : ℕ → ℕ → ℕ → Program → Result Program
add_result f index result p =
    Scope.add_variable (func_scope f p) (some result) p.scopes >>= λ scopes.
    ok (record (define_result f index result p) { scopes = scopes })
