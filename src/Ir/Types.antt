-- ===== src/Ir/Types.antt =====
-- ir/types.go and the values of ir/values.go: the types of a program. A structure and a container
-- are reached by pointer, which is the index that the program gives the type.
pub mod Embedded
use toph.Prelude.{
  Text, Result, ok, panic, cat, lit, two_digits, decimal, ◌&&◌, ◌++◌, ◌==◌, ◌>>=◌, Bool, List,
  Option, [], false, find, if◌then◌else◌, none, not, some, suc, true, zero, ℕ, ◌∷◌, out_of_fuel,
}
use toph.Prelude.Word.{Int64, int_text}

pub data BasicType : Type 0 where
  int_type func_type chan_type mutex_type wait_group_type once_type : BasicType

-- The interface `Type`, with the pointer of a structure or of a container.
pub data IrType : Type 0 where
  basic : BasicType → IrType
  struct : ℕ → IrType
  container : ℕ → IrType

-- Field `struct_type` is the pointer of the enclosing structure.
pub record Field : Type 0 where
  pub index : ℕ
  pub name : Text
  pub t : IrType
  pub is_pointer : Bool
  pub is_embedded : Bool
  pub struct_type : ℕ

pub record StructType : Type 0 where
  pub index : ℕ
  pub name : Text
  pub fields : List Field

pub data ContainerKind : Type 0 where
  array slice map_kind : ContainerKind

pub record ContainerType : Type 0 where
  pub index : ℕ
  pub kind : ContainerKind
  pub length : Int64
  pub element_type : IrType
  pub holds_pointers : Bool

-- `types.Signature`: the type of the receiver, if any, and the signature without it. Both are numbers of
-- classes under `types.Identical`.
pub record Signature : Type 0 where
  pub recv : Option ℕ
  pub shape : ℕ

-- The objects behind the pointers.
pub record Types : Type 0 where
  pub structs : ℕ → StructType
  pub containers : ℕ → ContainerType

abbrev pub basic_index : BasicType → ℕ
basic_index int_type = 0
basic_index func_type = 1
basic_index chan_type = 2
basic_index mutex_type = 3
basic_index wait_group_type = 4
basic_index once_type = 5

-- The comparison of two values of the interface: of the kinds, and of the constants or pointers.
abbrev pub type_eq : IrType → IrType → Bool
type_eq (basic a) (basic b) = basic_index a == basic_index b
type_eq (struct a) (struct b) = a == b
type_eq (container a) (container b) = a == b
type_eq _ _ = false

abbrev pub is_basic : IrType → Bool
is_basic (basic _) = true
is_basic _ = false

-- `struct Value`, whose type is nil for the untyped nil.
pub record Value : Type 0 where
  pub v : Int64
  pub t : Option IrType

abbrev pub make_value : Int64 → IrType → Value
make_value v t = record { v = v; t = some t }

-- The placeholders from `math.MinInt64` on.
abbrev pub initialized_mutex : Value
initialized_mutex = make_value 9223372036854775808 (basic mutex_type)

abbrev pub initialized_wait_group : Value
initialized_wait_group = make_value 9223372036854775809 (basic wait_group_type)

abbrev pub initialized_once : Value
initialized_once = make_value 9223372036854775810 (basic once_type)

abbrev pub initialized_struct : Int64
initialized_struct = 9223372036854775811

abbrev pub initialized_array : Int64
initialized_array = 9223372036854775812

abbrev pub append_index : Value
append_index = make_value 9223372036854775813 (basic int_type)

abbrev pub random_index : Value
random_index = make_value 9223372036854775814 (basic int_type)

abbrev pub nil_value : Value
nil_value = record { v = 9223372036854775815; t = none }

abbrev pub minus_one : Int64
minus_one = 18446744073709551615

unfoldable pub value_text : Value → Text
unfolding int_text
value_text x =
    if x.v == initialized_mutex.v
    then lit "initialized mutex"
    else if x.v == initialized_wait_group.v
    then lit "initialized wait group"
    else if x.v == initialized_once.v
    then lit "initialized once"
    else if x.v == initialized_struct
    then lit "initialized struct"
    else if x.v == initialized_array
    then lit "initialied array"
    else if x.v == append_index.v
    then lit "append index"
    else if x.v == random_index.v
    then lit "random index"
    else int_text x.v

unfoldable pub uninitialized_value : IrType → Value
uninitialized_value (basic int_type) = make_value 0 (basic int_type)
uninitialized_value (basic once_type) = make_value 0 (basic once_type)
uninitialized_value (basic b) = make_value minus_one (basic b)
uninitialized_value t = make_value minus_one t

abbrev initialized_container : ℕ → ContainerKind → Value
initialized_container c array = make_value initialized_array (container c)
initialized_container c _ = make_value minus_one (container c)

unfoldable pub initialized_value : Types → IrType → Value
initialized_value g (basic int_type) = make_value 0 (basic int_type)
initialized_value g (basic func_type) = make_value minus_one (basic func_type)
initialized_value g (basic chan_type) = make_value minus_one (basic chan_type)
initialized_value g (basic mutex_type) = initialized_mutex
initialized_value g (basic wait_group_type) = initialized_wait_group
initialized_value g (basic once_type) = initialized_once
initialized_value g (struct s) = make_value initialized_struct (struct s)
initialized_value g (container c) = initialized_container c (g.containers c).kind

abbrev basic_prefix : BasicType → Text
basic_prefix int_type = lit "num"
basic_prefix func_type = lit "fid"
basic_prefix chan_type = lit "cid"
basic_prefix mutex_type = lit "mid"
basic_prefix wait_group_type = lit "wid"
basic_prefix once_type = lit "oid"

abbrev kind_prefix : ContainerKind → Text
kind_prefix array = lit "a"
kind_prefix slice = lit "b"
kind_prefix map_kind = lit "m"

abbrev name_suffix : Text → Text
name_suffix [] = []
name_suffix name = lit "_" ++ name

unfoldable pub variable_prefix : Types → IrType → Text
unfolding decimal
variable_prefix g (basic b) = basic_prefix b
variable_prefix g (struct s) =
    cat (lit "s" ∷ two_digits (g.structs s).index ∷ name_suffix (g.structs s).name ∷ [])
variable_prefix g (container c) =
    kind_prefix (g.containers c).kind ++ two_digits (g.containers c).index

abbrev pub requires_deep_copy : Field → Bool
requires_deep_copy f = not (is_basic f.t) && not f.is_pointer

abbrev pub requires_deep_copies : ContainerType → Bool
requires_deep_copies c = not (is_basic c.element_type) && not c.holds_pointers

unfoldable pub field_handle : Types → Field → Text
unfolding decimal variable_prefix
field_handle g f = elim f.name [
  | [] ↦ cat (variable_prefix g f.t ∷ lit "_field" ∷ decimal f.index ∷ [])
  | _ ↦ cat (variable_prefix g f.t ∷ lit "_" ∷ f.name ∷ [])
]

abbrev pub new_struct_type : ℕ → Text → StructType
new_struct_type index name = record { index = index; name = name; fields = [] }

abbrev pub new_container_type : ℕ → ContainerKind → Int64 → IrType → Bool → ContainerType
new_container_type index kind len element_type holds_pointers = record {
  index = index;
  kind = kind;
  length = len;
  element_type = element_type;
  holds_pointers = holds_pointers;
}

abbrev new_field : ℕ → ℕ → Text → IrType → Bool → Bool → Field
new_field s index name t is_pointer is_embedded = record {
  index = index;
  name = name;
  t = t;
  is_pointer = is_pointer;
  is_embedded = is_embedded;
  struct_type = s;
}

unfoldable pub add_field : ℕ → ℕ → Text → IrType → Bool → Bool → Types → Types
add_field s index name t is_pointer is_embedded g = record g {
  structs = λ r.
      if s == r
      then record (g.structs s) {
        fields = (g.structs s).fields ++ new_field s index name t is_pointer is_embedded ∷ [];
      }
      else g.structs r;
}

-- The first loop: an embedded field of the type itself.
abbrev pub first_of_type : IrType → List Field → Option Field
first_of_type t [] = none
first_of_type t (f ∷ fs) = if f.is_embedded && type_eq f.t t then some f else first_of_type t fs

-- The second loop, with the recursive call that it makes for the structures of embedded fields.
abbrev pub search_embedded :
    (ℕ → Result (Option (List Field))) → List Field → Result (Option (List Field))
search_embedded find [] = ok none
search_embedded find (f ∷ fs) =
    let rest = search_embedded find fs in
    if f.is_embedded
    then elim f.t [
      | struct s ↦ find s >>= λ r. elim r [ none ↦ rest | some path ↦ ok (some (f ∷ path)) ]
      | basic _ ↦ rest
      | container _ ↦ rest
    ]
    else rest

-- The recursion goes on without an end where structures embed pointers to each other.
unfoldable pub find_embedded_field_of_type : ℕ → Types → IrType → ℕ → Result (Option (List Field))
find_embedded_field_of_type zero g t s = panic out_of_fuel
find_embedded_field_of_type (suc fuel) g t s = elim (first_of_type t (g.structs s).fields) [
  | some f ↦ ok (some (f ∷ []))
  | none ↦ search_embedded (find_embedded_field_of_type fuel g t) (g.structs s).fields
]
