-- ===== src/Lc/Types/Size.antt =====
-- Sizes of types, and where fields stand.
use irid.Base.{
  ℕ, zero, suc, ◌+◌, ◌-◌, ◌*◌, ◌^◌, ◌≤◌, ◌<◌, ◌≡◌, refl, List, [], ◌∷◌, some, ok, arith, inl, inr,
  Bool-cases, length, get_elem?,
}
use irid.Base.Bytes.{Bytes, equal}
use irid.Base.Results.{>>=-eq-ok}
use irid.Lc.Stop.{Compiling}
use irid.Lc.Types.{
  TypeId, Field, LeafType, null, integer, pointer, struct, array, Types, type_at, sum_fields,
  size_step, int, type_size, find_field, field_offset,
}

-- Every field's type stands before `bound` in the register.
abbrev pub FieldsBelow : List Field → ℕ → Type 0
FieldsBelow [] bound = Unit {0}
FieldsBelow (f ∷ fs) bound = (f.type < bound) × FieldsBelow fs bound

-- What the type takes its size from stands before `bound`, and the type has a size.
abbrev pub Based : LeafType → ℕ → Type 0
Based (null n) bound = ⊥
Based (integer n bits) bound = Unit {0}
Based (pointer n base) bound = Unit {0}
Based (struct n fields) bound = FieldsBelow fields bound
Based (array n base count) bound = base < bound

-- Types are made of types that were registered before them.
abbrev pub WellFounded : Types → Type 0
WellFounded types =
    (id : TypeId) → id < length types → (t : LeafType) × (get_elem? types id ≡ some t) × Based t id

sum_fields-ok :
    (size : TypeId → Compiling ℕ) (fields : List Field) (bound : ℕ)
    → ((id : TypeId) → id < bound → (n : ℕ) × (size id ≡ ok n))
    → FieldsBelow fields bound
    → (n : ℕ) × (sum_fields size fields ≡ ok n)
unfolding sum_fields
sum_fields-ok size [] bound total h = (0, refl)
sum_fields-ok size (f ∷ fs) bound total h =
    let (n, e) = total f.type h.0 in
    let (m, e') = sum_fields-ok size fs bound total h.1 in (int (n + m), rw (e, e'))

size_step-ok :
    (size : TypeId → Compiling ℕ) (t : LeafType) (bound : ℕ)
    → ((id : TypeId) → id < bound → (n : ℕ) × (size id ≡ ok n))
    → Based t bound
    → (n : ℕ) × (size_step size t ≡ ok n)
unfolding size_step
size_step-ok size (null n) bound total h = elim h [ ]
size_step-ok size (integer n bits) bound total h = (_, refl)
size_step-ok size (pointer n base) bound total h = (_, refl)
size_step-ok size (struct n fields) bound total h = sum_fields-ok size fields bound total h
size_step-ok size (array n base count) bound total h =
    let (m, e) = total base h in (int (m * count), rw e)

-- In a register where types are made of earlier types, `type_size` ends and gives a size: calls no
-- deeper than the index of the type are enough.
pub type_size_total :
    (fuel : ℕ) (types : Types) (id : TypeId)
    → WellFounded types
    → id < length types
    → id < fuel
    → (n : ℕ) × (type_size fuel types id ≡ ok n)
unfolding type_size type_at
type_size_total zero types id wf h k = absurd (omega arith)
type_size_total (suc fuel) types id wf h k =
    let (t, at, based) = wf id h in
    rw at (
      size_step-ok (λ base. type_size fuel types base) t id
        (λ base lt. type_size_total fuel types base wf (omega arith) (omega arith)) based)

-- The fields have sizes that are together at most `room`.
abbrev pub Fits : (TypeId → Compiling ℕ) → List Field → ℕ → Type 0
Fits size [] room = Unit {0}
Fits size (f ∷ fs) room = (n : ℕ) × (size f.type ≡ ok n) × (n ≤ room) × Fits size fs (room - n)

sum_fields-le :
    (size : TypeId → Compiling ℕ) (fields : List Field) (room : ℕ) {total : ℕ}
    → Fits size fields room
    → room < 2 ^ 31
    → sum_fields size fields ≡ ok total
    → total ≤ room
unfolding sum_fields
sum_fields-le size [] room {total} fits small h = let e : 0 ≡ total = cc in omega (arith, e)
sum_fields-le size (f ∷ fs) room {total} (n, sized, le, fits) small h =
    let (others, e, last) = >>=-eq-ok (sum_fields size fs) _ (rw sized at h) in
    let all : int (n + others) ≡ total = cc in
    omega (arith, all, sum_fields-le size fs (room - n) fits (omega arith) e)

-- A field lies within its structure, where the sizes of the fields are together below 2 ^ 31: its offset and its
-- size together are at most the size of the structure.
pub field_offset_bounds :
    (size : TypeId → Compiling ℕ) (fields : List Field) (name : Bytes) (room : ℕ)
    {offset total n : ℕ} {id : TypeId}
    → Fits size fields room
    → room < 2 ^ 31
    → find_field fields name ≡ some id
    → size id ≡ ok n
    → sum_fields size fields ≡ ok total
    → field_offset size fields name ≡ ok offset
    → offset + n ≤ total
unfolding find_field sum_fields field_offset
field_offset_bounds size [] name room fits small found sized summed at = cc
field_offset_bounds size (f ∷ fs) name room {offset} {total} {n} {id} (m, e, le, fits) small found
      sized summed at =
    let (others, e', last) = >>=-eq-ok (sum_fields size fs) _ (rw e at summed) in
    let all : int (m + others) ≡ total = cc in
    let others_le = sum_fields-le size fs (room - m) fits (omega arith) e' in
    elim (Bool-cases (equal f.name name)) [
      | inl is ↦
          let same : f.type ≡ id = cc (rw is at found) in
          let zero_offset : 0 ≡ offset = cc (rw is at at) in
          let sizes : size id ≡ ok m = rw same at e in
          let sizes' : m ≡ n = cc in omega (arith, all, others_le)
      | inr isnt ↦
          let at' = rw (isnt, e) at at in
          let (inner, e'', sum) = >>=-eq-ok (field_offset size fs name) _ at' in
          let whole : int (m + inner) ≡ offset = cc in
          let inside =
            field_offset_bounds size fs name (room - m) fits (omega arith) (rw isnt at found) sized
              e' e'' in
          omega (arith, all, whole, others_le, inside)
    ]
