-- ===== src/Fidl/Typed.antt =====
-- Messages whose coding tables are as the compiler of FIDL interfaces makes them, and the frames of
-- pkg/fidl/buffer_walker.h that stay inside of such a message.
use fuchsia_sdk.Base.{
  ℕ, zero, suc, ◌+◌, ◌*◌, ◌^◌, ◌≤◌, ◌<◌, ◌≡◌, refl, false, Option, none, some, List, [], ◌∷◌,
  get_elem?, arith, length, All,
}
use fuchsia_sdk.Fidl.Tables.{
  FidlField, FidlCodedStruct, FidlCodedUnion, FidlCodedArray, FidlCodedVector, FidlType, FidlTypes,
  coded_struct, coded_struct_pointer, coded_table, coded_table_pointer, coded_union,
  coded_union_pointer, coded_array, coded_string, coded_handle, coded_vector, type_size,
}
use fuchsia_sdk.Fidl.Frames.{
  Frame, FrameState, state_struct, state_struct_pointer, state_table, state_table_pointer,
  state_union, state_union_pointer, state_array, state_string, state_handle, state_vector,
  state_done, TableState, frame_of, frame_of_struct, frame_of_array, TableVisit, new_struct_state,
}
use fuchsia_sdk.Fidl.Visitor.{Message, continue_after_errors}

-- Every field lies in a space of so many bytes.
abbrev pub FieldsFit : FidlTypes → ℕ → List FidlField → Type 0
FieldsFit types space = All (λ x. x.offset + type_size (types x.kind) ≤ space)

-- A member lies in the space, behind the tag.
abbrev pub MemberFits : FidlTypes → ℕ → ℕ → Option ℕ → Type 0
MemberFits types data_offset space none = Unit
MemberFits types data_offset space (some member) = data_offset + type_size (types member) ≤ space

pub record StructIsWhole (types : FidlTypes) (s : FidlCodedStruct) : Type 0 where
  pub few : length s.fields < 2 ^ 32
  pub fit : FieldsFit types s.size s.fields

pub record UnionIsWhole (types : FidlTypes) (u : FidlCodedUnion) : Type 0 where
  pub tagged : 4 ≤ u.data_offset
  pub within : u.data_offset ≤ u.size
  pub small : u.size < 2 ^ 32
  pub fit : All (MemberFits types u.data_offset u.size) u.members

-- The elements fill the array.
pub record ArrayIsWhole (types : FidlTypes) (a : FidlCodedArray) : Type 0 where
  pub sized : a.element_size ≡ type_size (types a.element)
  pub filled : (n : ℕ) × (n * a.element_size ≡ a.array_size)

abbrev pub VectorIsWhole : FidlTypes → FidlCodedVector → Type 0
VectorIsWhole types v = elim v.element [
  | none ↦ Unit {0}
  | some element ↦ v.element_size ≡ type_size (types element)
]

-- A type of the tables. A pointer to a table is left out: a present one is walked as a struct.
abbrev pub IsWhole : FidlTypes → FidlType → Type 0
IsWhole types (coded_struct s) = StructIsWhole types s
IsWhole types (coded_struct_pointer s) = StructIsWhole types s
IsWhole types (coded_table t) = Unit
IsWhole types (coded_table_pointer t) = ⊥
IsWhole types (coded_union u) = UnionIsWhole types u
IsWhole types (coded_union_pointer u) = UnionIsWhole types u
IsWhole types (coded_array a) = ArrayIsWhole types a
IsWhole types (coded_string s) = Unit
IsWhole types (coded_handle h) = Unit
IsWhole types (coded_vector v) = VectorIsWhole types v

-- A message for the validator or the decoder, of less than 2^32 bytes, whose types are whole.
pub record IsTyped (e : Message) : Type 0 where
  pub stops_at_errors : continue_after_errors e.mode ≡ false
  pub small : e.num_bytes < 2 ^ 32
  pub whole : (k : ℕ) → IsWhole e.types (e.types k)

-- An array is between two elements.
pub record ArrayStands (e : Message) (a : FidlCodedArray) (offset field : ℕ) : Type 0 where
  pub sized : a.element_size ≡ type_size (e.types a.element)
  pub inside : offset + a.array_size ≤ e.num_bytes
  pub left : (n : ℕ) × (field + n * a.element_size ≡ a.array_size)

pub record TableStands (e : Message) (present_count offset field : ℕ) : Type 0 where
  pub few : present_count < 2 ^ 28
  pub envelope : field ≤ present_count + 1
  pub inside : offset + present_count * 16 ≤ e.num_bytes

-- A table is at its vector of envelopes, or at one of them.
abbrev pub TableFits : Message → ℕ → ℕ → ℕ → Type 0
TableFits e present_count offset zero = offset + 16 ≤ e.num_bytes
TableFits e present_count offset (suc n) = TableStands e present_count offset (suc n)

-- What the first visit sets is set after it.
abbrev pub VisitFits : TableState → ℕ → Type 0
VisitFits t zero = Unit
VisitFits t (suc n) = (v : TableVisit) × (t.visit ≡ some v)

-- The object that a frame stands for lies in the message, by the frame's state.
abbrev pub Fits : Message → FrameState → Frame → Type 0
Fits e (state_struct s) f =
    (length s.fields < 2 ^ 32)
    × (f.field ≤ length s.fields)
    × All (λ x. f.offset + x.offset + type_size (e.types x.kind) ≤ e.num_bytes) s.fields
    × (s.field_count ≡ some (length s.fields))
Fits e (state_struct_pointer s) f = (f.offset + 8 ≤ e.num_bytes) × StructIsWhole e.types s
Fits e (state_table t) f = TableFits e t.present_count f.offset f.field × VisitFits t f.field
Fits e (state_table_pointer t) f = ⊥
Fits e (state_union u) f = (f.offset + u.size ≤ e.num_bytes) × UnionIsWhole e.types u
Fits e (state_union_pointer u) f = (f.offset + 8 ≤ e.num_bytes) × UnionIsWhole e.types u
Fits e (state_array a) f = ArrayStands e a f.offset f.field
Fits e (state_string s) f = f.offset + 16 ≤ e.num_bytes
Fits e (state_handle nullable) f = f.offset + 4 ≤ e.num_bytes
Fits e (state_vector v) f = (f.offset + 16 ≤ e.num_bytes) × VectorIsWhole e.types v
Fits e state_done f = Unit

FieldsFit-shift :
    (types : FidlTypes) (space offset bound : ℕ) (l : List FidlField)
    → offset + space ≤ bound
    → FieldsFit types space l
    → All (λ x. offset + x.offset + type_size (types x.kind) ≤ bound) l
FieldsFit-shift types space offset bound [] h a = tt
FieldsFit-shift types space offset bound (x ∷ l) h a =
    (omega (arith, a.0), FieldsFit-shift types space offset bound l h a.1)

pub frame_of_struct-Fits :
    (e : Message) (s : FidlCodedStruct) (offset : ℕ)
    → StructIsWhole e.types s
    → offset + s.size ≤ e.num_bytes
    → Fits e (state_struct (new_struct_state s)) (frame_of_struct s offset)
unfolding frame_of_struct
frame_of_struct-Fits e s offset h i =
    (h.few, omega arith, FieldsFit-shift e.types s.size offset e.num_bytes s.fields i h.fit, refl)

-- A frame for a type that is whole, over an object that lies in the message.
pub frame_of-Fits :
    (e : Message) (t : FidlType) (offset : ℕ)
    → IsWhole e.types t
    → offset + type_size t ≤ e.num_bytes
    → Fits e (frame_of t offset).state (frame_of t offset)
unfolding frame_of type_size
frame_of-Fits e (coded_struct s) offset h i =
    (h.few, omega arith, FieldsFit-shift e.types s.size offset e.num_bytes s.fields i h.fit, refl)
frame_of-Fits e (coded_struct_pointer s) offset h i = (i, h)
frame_of-Fits e (coded_table t) offset h i = (i, tt)
frame_of-Fits e (coded_table_pointer t) offset h i = h
frame_of-Fits e (coded_union u) offset h i = (i, h)
frame_of-Fits e (coded_union_pointer u) offset h i = (i, h)
frame_of-Fits e (coded_array a) offset h i = record {
  sized = h.sized;
  inside = i;
  left = (h.filled.0, omega (arith, h.filled.1));
}
frame_of-Fits e (coded_string s) offset h i = i
frame_of-Fits e (coded_handle x) offset h i = i
frame_of-Fits e (coded_vector v) offset h i = (i, h)

-- An element of a vector's array.
pub frame_of_array-Fits :
    (e : Message) (element count element_size offset : ℕ)
    → element_size ≡ type_size (e.types element)
    → offset + count * element_size ≤ e.num_bytes
    → Fits e
        (frame_of_array element (count * element_size) element_size offset).state
        (frame_of_array element (count * element_size) element_size offset)
unfolding frame_of_array
frame_of_array-Fits e element count element_size offset h i = record {
  sized = h;
  inside = i;
  left = (count, omega arith);
}

pub All-get {ℓ κ} :
    {A : Type ℓ} (P : A → Type κ) (l : List A) (i : ℕ) (a : A)
    → All P l
    → get_elem? l i ≡ some a
    → P a
All-get P [] i a h q = cc
All-get P (x ∷ l) zero a h q = let e : x ≡ a = cc in rw (← e) h.0
All-get P (x ∷ l) (suc i) a h q = All-get P l i a h.1 q
