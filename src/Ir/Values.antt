-- ===== src/Ir/Values.antt =====
-- ir/values.go and ir/variable.go: what statements read and write. A variable and a function are
-- pointers.
use toph.Prelude.{
  Text, Result, ok, panic, wrong_type, nil_dereference, cat, lit, decimal, ◌&&◌, ◌++◌, ◌==◌, ◌>>=◌,
  Bool, Option, [], false, none, some, true, ℕ, ◌∷◌,
}
use toph.Ir.Types.{
  int_type, IrType, basic, container, Field, Types, ContainerKind, map_kind, ContainerType, Value,
  value_text, variable_prefix, field_handle, append_index, type_eq,
}

pub data AccessKind : Type 0 where
  read write : AccessKind

-- The interfaces `LValue` and `RValue`. A read of a storage location is `held`.
mutual
  pub data LValue : Type 0 where
    variable : ℕ → LValue
    field_selection : LValue → Field → LValue
    container_access : LValue → RValue → AccessKind → LValue

  pub data RValue : Type 0 where
    value : Value → RValue
    held : LValue → RValue
    container_length : LValue → RValue

-- `struct Variable`; the scopes of variables are in the store of scopes.
pub record Variable : Type 0 where
  pub index : ℕ
  pub name : Text
  pub initial_value : Value
  pub captured : Bool

abbrev pub new_variable : ℕ → Text → Value → Variable
new_variable index name initial_value = record {
  index = index;
  name = name;
  initial_value = initial_value;
  captured = false;
}

abbrev pub set_captured : Bool → Variable → Variable
set_captured captured v = record v { captured = captured }

-- `v.initialValue.t`, where a method of the type nil panics.
abbrev pub variable_type : Variable → Option IrType
variable_type v = v.initial_value.t

-- `x.Type().(*ContainerType)`
abbrev pub container_of : Types → Option IrType → Result ContainerType
container_of g (some (container c)) = ok (g.containers c)
container_of g _ = panic wrong_type

-- The types and variables of a program.
module _ (g : Types) (vars : ℕ → Variable) where
  unfoldable pub lvalue_type : LValue → Result (Option IrType)
  lvalue_type (variable v) = ok (variable_type (vars v))
  lvalue_type (field_selection _ f) = ok (some f.t)
  lvalue_type (container_access c _ _) =
      lvalue_type c >>= λ t. container_of g t >>= λ k. ok (some k.element_type)

  unfoldable pub container_type : LValue → Result ContainerType
  unfolding lvalue_type
  container_type c = lvalue_type c >>= container_of g

  unfoldable pub variable_handle : Variable → Result Text
  unfolding variable_prefix decimal
  variable_handle v = elim (variable_type v) [
    | none ↦ panic nil_dereference
    | some t ↦ elim v.name [
      | [] ↦ ok (cat (variable_prefix g t ∷ lit "_var" ∷ decimal v.index ∷ []))
      | _ ↦ ok (cat (variable_prefix g t ∷ lit "_var" ∷ decimal v.index ∷ lit "_" ∷ v.name ∷ []))
    ]
  ]

  unfoldable pub lvalue_name : LValue → Text
  lvalue_name (variable v) = (vars v).name
  lvalue_name (field_selection s f) = cat (lvalue_name s ∷ lit "_" ∷ f.name ∷ [])
  lvalue_name (container_access c _ _) = lvalue_name c ++ lit "_elem"

  unfoldable pub lvalue_handle : LValue → Result Text
  unfolding variable_handle field_handle
  lvalue_handle (variable v) = variable_handle (vars v)
  lvalue_handle (field_selection s f) =
      lvalue_handle s >>= λ h. ok (cat (h ∷ lit "_" ∷ field_handle g f ∷ []))
  lvalue_handle (container_access c _ _) = lvalue_handle c >>= λ h. ok (h ++ lit "_elem")

  unfoldable pub rvalue_text : RValue → Result Text
  unfolding value_text lvalue_handle lvalue_name
  rvalue_text (value v) = ok (value_text v)
  rvalue_text (held l) = lvalue_handle l
  rvalue_text (container_length c) = ok (lit "len_" ++ lvalue_name c)

  unfoldable pub rvalue_type : RValue → Result (Option IrType)
  unfolding lvalue_type
  rvalue_type (value v) = ok v.t
  rvalue_type (held l) = lvalue_type l
  rvalue_type (container_length _) = ok (some (basic int_type))

abbrev pub is_value : Value → RValue → Bool
is_value v (value w) = w.v == v.v && same_value_type w.t v.t
  where
    same_value_type : Option IrType → Option IrType → Bool
    same_value_type none none = true
    same_value_type (some a) (some b) = type_eq a b
    same_value_type _ _ = false
is_value v _ = false

abbrev pub is_slice_append : RValue → Bool
is_slice_append index = is_value append_index index

abbrev is_map : ContainerKind → Bool
is_map map_kind = true
is_map _ = false

abbrev pub is_map_read : ContainerType → AccessKind → Bool
is_map_read c read = is_map c.kind
is_map_read c write = false

abbrev pub is_map_write : ContainerType → AccessKind → Bool
is_map_write c write = is_map c.kind
is_map_write c read = false
