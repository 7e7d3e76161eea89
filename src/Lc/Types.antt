-- ===== src/Lc/Types.antt =====
-- lc/src/type.c: the register of types. A `struct type *` is an index into the register; the types that
-- another type names are such indices, so that sharing is kept.
pub mod Size
pub mod Register
use irid.Base.{
  ℕ, zero, suc, ◌+◌, ◌*◌, ◌/◌, ◌%◌, ◌^◌, Bool, true, false, ◌&&◌, List, [], ◌∷◌, ◌++◌, Option, none,
  some, ◌==◌, if◌then◌else◌, ok, stop, length, get_elem?, set,
}
use irid.Base.Bytes.{Bytes, equal}
use irid.Base.Results.{◌>>=◌, or_stop}
use irid.Lc.Stop.{Compiling, crash, out_of_fuel, die}

abbrev pub TypeId : Type 0
TypeId = ℕ

-- A field of `struct type_struct`: an entry of `field_types` and of `field_names`.
pub record Field : Type 0 where
  pub type : TypeId
  pub name : Bytes

-- `struct type` with the structures that extend it, by `enum type_type`.
pub data LeafType : Type 0 where
  null : Bytes → LeafType
  integer : Bytes → ℕ → LeafType
  pointer : Bytes → TypeId → LeafType
  struct : Bytes → List Field → LeafType
  array : Bytes → TypeId → ℕ → LeafType

abbrev pub name_of : LeafType → Bytes
name_of (null n) = n
name_of (integer n _) = n
name_of (pointer n _) = n
name_of (struct n _) = n
name_of (array n _ _) = n

-- `self->type`, as the number of the enumeration.
abbrev pub kind_of : LeafType → ℕ
kind_of (null _) = 0
kind_of (integer _ _) = 1
kind_of (pointer _ _) = 2
kind_of (struct _ _) = 3
kind_of (array _ _ _) = 4

-- `struct type_register`.
abbrev pub Types : Type 0
Types = List LeafType

-- `*type`.
unfoldable pub type_at : Types → TypeId → Compiling LeafType
type_at types id = or_stop crash (get_elem? types id)

-- `type_is_null`; `none` is NULL.
unfoldable pub type_is_null : Option LeafType → Bool
type_is_null none = true
type_is_null (some self) = kind_of self == 0

-- `type_cmp`.
unfoldable pub type_cmp : LeafType → LeafType → Bool
type_cmp self other = kind_of self == kind_of other && equal (name_of self) (name_of other)

-- IRID_PTR_WIDTH.
abbrev pub irid_ptr_width : ℕ
irid_ptr_width = 16

-- A C int, modulo 2 ^ 32.
abbrev pub int : ℕ → ℕ
int n = n % 2 ^ 32

-- The loop of `type_size` over the fields of a structure.
unfoldable pub sum_fields : (TypeId → Compiling ℕ) → List Field → Compiling ℕ
sum_fields size [] = ok 0
sum_fields size (f ∷ fs) = do n ← size f.type; rest ← sum_fields size fs; ok (int (n + rest))

-- One call of `type_size`, where `size` makes the calls inside it.
unfoldable pub size_step : (TypeId → Compiling ℕ) → LeafType → Compiling ℕ
size_step size (null n) = stop die
size_step size (integer n bits) = ok (bits / 8)
size_step size (pointer n base) = ok (irid_ptr_width / 8)
size_step size (struct n fields) = sum_fields size fields
size_step size (array n base count) = size base >>= λ s. ok (int (s * count))

-- `type_size`, on fuel for the depth of the calls.
unfoldable pub type_size : ℕ → Types → TypeId → Compiling ℕ
type_size zero types id = stop out_of_fuel
type_size (suc fuel) types id = type_at types id >>= size_step (λ base. type_size fuel types base)

-- `type_element_size`.
unfoldable pub element_size_of : ℕ → Types → TypeId → LeafType → Compiling ℕ
element_size_of fuel types id (pointer n base) = type_size fuel types base
element_size_of fuel types id (array n base count) = type_size fuel types base
element_size_of fuel types id _ = type_size fuel types id

unfoldable pub type_element_size : ℕ → Types → TypeId → Compiling ℕ
type_element_size fuel types id = type_at types id >>= element_size_of fuel types id

-- `type_struct_find_field`; `none` is NULL.
unfoldable pub find_field : List Field → Bytes → Option TypeId
find_field [] name = none
find_field (f ∷ fs) name = if equal f.name name then some f.type else find_field fs name

-- `type_struct_field_offset`, where `size` is `type_size`.
unfoldable pub field_offset : (TypeId → Compiling ℕ) → List Field → Bytes → Compiling ℕ
field_offset size [] name = ok 0
field_offset size (f ∷ fs) name =
    let rest = field_offset size fs name in
    if equal f.name name
    then ok 0
    else size f.type >>= λ n. rest >>= λ offset. ok (int (n + offset))

-- `type_alloc`: the type goes to the end of the register, and its index is the result.
unfoldable pub type_alloc : LeafType → Types → TypeId × Types
type_alloc type types = (length types, types ++ (type ∷ []))

-- `type_struct_add_field`.
unfoldable pub struct_add_field : List Field → TypeId → Bytes → List Field
struct_add_field fields type name = fields ++ (record { type = type; name = name } ∷ [])

-- The first index, from `i` on, whose type passes a test.
unfoldable pub find_type : (LeafType → Bool) → Types → ℕ → Option TypeId
find_type test [] i = none
find_type test (t ∷ ts) i = if test t then some i else find_type test ts (i + 1)

-- `type_register_resolve`.
unfoldable pub register_resolve : Types → Bytes → Option TypeId
register_resolve types name = find_type (λ t. equal (name_of t) name) types 0

abbrev pub is_pointer_to : TypeId → LeafType → Bool
is_pointer_to base (pointer n b) = b == base
is_pointer_to base _ = false

-- The type that the search has found, else a new one.
unfoldable pub found_or_new :
    Option TypeId → Compiling LeafType → Types → Compiling (TypeId × Types)
found_or_new (some id) new types = ok (id, types)
found_or_new none new types = new >>= λ t. ok (type_alloc t types)

-- `type_register_add_pointer`.
unfoldable pub register_add_pointer : Types → TypeId → Compiling (TypeId × Types)
register_add_pointer types base =
    found_or_new (find_type (is_pointer_to base) types 0)
      (type_at types base >>= λ b. ok (pointer (name_of b) base)) types

-- The test of `type_register_add_array`: an array of `count` elements of a type that compares equal.
unfoldable pub is_array_of : Types → LeafType → ℕ → LeafType → Bool
is_array_of types base count (array n b c) = elim (get_elem? types b) [
  | none ↦ false
  | some other ↦ type_cmp other base && c == count
]
is_array_of types base count _ = false

-- `type_register_add_array`.
unfoldable pub register_add_array : Types → TypeId → ℕ → Compiling (TypeId × Types)
register_add_array types base count = type_at types base >>= λ b.
    found_or_new (find_type (is_array_of types b count) types 0) (ok (array (name_of b) base count))
      types

-- `type_register_alloc_struct`.
unfoldable pub register_alloc_struct : Types → Bytes → TypeId × Types
register_alloc_struct types name = type_alloc (struct name []) types
