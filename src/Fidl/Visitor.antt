-- ===== src/Fidl/Visitor.antt =====
-- The state of a walk over a message in pkg/fidl/buffer_walker.h, and what the derived classes of
-- pkg/fidl/validating.cpp, encoding.cpp and decoding.cpp supply to it.
use fuchsia_sdk.Base.{
  ℕ, zero, suc, ◌+◌, Bool, true, false, Option, none, some, List, ◌∷◌, ◌==◌, leb, if◌then◌else◌,
}
use fuchsia_sdk.Fidl.Tables.{FidlTypes, alloc_present, alloc_absent, handle_present, handle_absent}
use fuchsia_sdk.Fidl.Memory.{Bytes, write_le}
use fuchsia_sdk.Fidl.Frames.{Frame}

-- `FidlValidator`, `FidlEncoder` or `FidlDecoder`.
pub data Mode : Type 0 where
  validator encoder decoder : Mode

-- `kContinueAfterErrors`.
abbrev pub continue_after_errors : Mode → Bool
continue_after_errors encoder = true
continue_after_errors _ = false

-- What a walk is given: the type tables and the root type (none for a null pointer), the buffer
-- (its address, which is 0 for a null pointer, and its size), and the array of handles.
pub record Message : Type 0 where
  pub mode : Mode
  pub types : FidlTypes
  pub root : Option ℕ
  pub base : ℕ
  pub num_bytes : ℕ
  pub handles_null : Bool
  pub num_handles : ℕ

-- The messages given to `SetError`, in the order of the source.
pub data Error : Type 0 where
  null_type null_bytes message_too_small not_a_message : Error
  depth_struct bad_struct_pointer struct_too_large : Error
  table_absent bad_table_vector table_size_overflow table_too_large table_missized : Error
  table_handles_missized envelope_present_empty envelope_absent_full envelope_bad : Error
  table_field_overflow table_handles_overflow table_field_too_large depth_table : Error
  table_handle_missing bad_table_pointer nullable_table_too_large : Error
  bad_union_tag bad_union_pointer union_too_large depth_array : Error
  string_absent string_absent_nonempty bad_string string_over_bound string_too_large : Error
  handle_missing too_many_handles garbage_handle : Error
  vector_absent vector_absent_nonempty bad_vector vector_over_bound vector_size_overflow : Error
  vector_too_large undecoded_bytes : Error
  null_handles handle_count null_actual_handles : Error

-- The members of `BufferWalker` and of the derived class that change: the bytes, the handles,
-- the first or latest error, the stack with its top first, and the handles closed, the latest
-- first.
pub record Walker : Type 0 where
  pub mem : Bytes
  pub handles : ℕ → ℕ
  pub handle_idx : ℕ
  pub out_of_line_offset : ℕ
  pub frames : List Frame
  pub error : Option Error
  pub closed : List ℕ

pub data PointerState : Type 0 where
  present absent invalid : PointerState

abbrev wire_state : ℕ → ℕ → ℕ → PointerState
wire_state yes_value no_value v =
    if v == yes_value then present else if v == no_value then absent else invalid

-- `GetPointerState`, of the value of the pointer.
unfoldable pub get_pointer_state : Mode → ℕ → PointerState
get_pointer_state validator v = wire_state alloc_present alloc_absent v
get_pointer_state decoder v = wire_state alloc_present alloc_absent v
get_pointer_state encoder v = if v == 0 then absent else present

-- `GetHandleState`, whose states are those of pointers.
unfoldable pub get_handle_state : Mode → ℕ → PointerState
get_handle_state validator v = wire_state handle_present handle_absent v
get_handle_state decoder v = wire_state handle_present handle_absent v
get_handle_state encoder v = if v == 0 then absent else present

-- `ValidateOutOfLineStorageClaim`.
unfoldable pub validate_claim : Mode → ℕ → ℕ → Bool
validate_claim validator a b = true
validate_claim decoder a b = true
validate_claim encoder a b = a == b

-- A write of n bytes at an offset of the buffer, or none where it is not inside of it.
abbrev pub write_at : ℕ → Message → ℕ → ℕ → Walker → Option Walker
write_at n e p v w =
    if leb (p + n) e.num_bytes then some (record w { mem = write_le n w.mem p v }) else none

-- `UpdatePointer` of the pointer at an offset, to the address of another offset, or none where the
-- pointer is not inside of the buffer.
unfoldable pub update_pointer : Message → ℕ → ℕ → Walker → Option Walker
update_pointer e p v w = elim e.mode [
  | validator ↦ some w
  | encoder ↦ write_at 8 e p alloc_present w
  | decoder ↦ write_at 8 e p (e.base + v) w
]

-- The first n handles, the last of them first: `zx_handle_close_many`.
unfoldable pub close_many : (ℕ → ℕ) → ℕ → List ℕ → List ℕ
close_many handles zero l = l
close_many handles (suc n) l = handles n ∷ close_many handles n l

abbrev close_all : Message → Walker → List ℕ
close_all e w = if e.handles_null then w.closed else close_many w.handles e.num_handles w.closed

-- `SetError`.
unfoldable pub set_error : Message → Error → Walker → Walker
unfolding close_many
set_error e err w = elim e.mode [
  | validator ↦ record w { error = some err }
  | encoder ↦ elim w.error [
    | none ↦ record w { error = some err; closed = close_all e w }
    | some _ ↦ w
  ]
  | decoder ↦ record w { error = some err; closed = close_all e w }
]
