-- ===== src/Fidl/Frames.antt =====
-- The frames of the walker's stack in pkg/fidl/buffer_walker.h.
use fuchsia_sdk.Base.{ℕ, ◌+◌, Bool, Option, none, some, List, [], length}
use fuchsia_sdk.Fidl.Tables.{
  FidlField, FidlTableField, FidlCodedStruct, FidlCodedTable, FidlCodedUnion, FidlCodedArray,
  FidlCodedString, FidlCodedVector, FidlType, coded_struct, coded_struct_pointer, coded_table,
  coded_table_pointer, coded_union, coded_union_pointer, coded_array, coded_string, coded_handle,
  coded_vector, u32,
}

-- `struct_state`. Its count is none while it has not been set.
pub record StructState : Type 0 where
  pub fields : List FidlField
  pub field_count : Option ℕ

-- The members of `table_state` that only the first visit of the table sets, all three at once.
pub record TableVisit : Type 0 where
  pub known_index : ℕ
  pub end_offset : ℕ
  pub end_handle : ℕ

-- `table_state`. The members that the first visit sets are none before it.
pub record TableState : Type 0 where
  pub fields : List FidlTableField
  pub present_count : ℕ
  pub visit : Option TableVisit

-- `state`, with the member of the anonymous union that belongs to it.
pub data FrameState : Type 0 where
  state_struct : StructState → FrameState
  state_struct_pointer : FidlCodedStruct → FrameState
  state_table : TableState → FrameState
  state_table_pointer : FidlCodedTable → FrameState
  state_union : FidlCodedUnion → FrameState
  state_union_pointer : FidlCodedUnion → FrameState
  state_array : FidlCodedArray → FrameState
  state_string : FidlCodedString → FrameState
  state_handle : Bool → FrameState
  state_vector : FidlCodedVector → FrameState
  state_done : FrameState

pub record Frame : Type 0 where
  pub state : FrameState
  pub offset : ℕ
  pub field : ℕ

abbrev pub new_struct_state : FidlCodedStruct → StructState
new_struct_state s = record { fields = s.fields; field_count = some (length s.fields) }

abbrev pub new_table_state : FidlCodedTable → TableState
new_table_state t = record { fields = t.fields; present_count = 0; visit = none }

abbrev pub frame_state : FidlType → FrameState
frame_state (coded_struct s) = state_struct (new_struct_state s)
frame_state (coded_struct_pointer s) = state_struct_pointer s
frame_state (coded_table t) = state_table (new_table_state t)
frame_state (coded_table_pointer t) = state_table_pointer t
frame_state (coded_union u) = state_union u
frame_state (coded_union_pointer u) = state_union_pointer u
frame_state (coded_array a) = state_array a
frame_state (coded_string s) = state_string s
frame_state (coded_handle h) = state_handle h.nullable
frame_state (coded_vector v) = state_vector v

-- `Frame(const fidl_type_t*, uint32_t)`.
unfoldable pub frame_of : FidlType → ℕ → Frame
frame_of t offset = record { state = frame_state t; offset = offset; field = 0 }

-- `Frame(const fidl::FidlCodedStruct*, uint32_t)`.
unfoldable pub frame_of_struct : FidlCodedStruct → ℕ → Frame
frame_of_struct s offset = record {
  state = state_struct (new_struct_state s);
  offset = offset;
  field = 0;
}

-- `Frame(const fidl::FidlCodedTable*, uint32_t)`: `state` is kStateStruct, but what is set is
-- `fields` and `field_count` of `table_state`. In the union the count of `struct_state` lies over
-- `known_index`, which is not set. The table's fields, which `fields` of `struct_state` lies over,
-- are not those of a struct, and none of them is kept here.
unfoldable pub frame_of_table : FidlCodedTable → ℕ → Frame
frame_of_table t offset = record {
  state = state_struct (record { fields = []; field_count = none });
  offset = offset;
  field = 0;
}

-- `Frame(const fidl::FidlCodedUnion*, uint32_t)`.
unfoldable pub frame_of_union : FidlCodedUnion → ℕ → Frame
frame_of_union u offset = record { state = state_union u; offset = offset; field = 0 }

-- `Frame(const fidl_type_t*, uint32_t, uint32_t, uint32_t)`.
unfoldable pub frame_of_array : ℕ → ℕ → ℕ → ℕ → Frame
frame_of_array element array_size element_size offset = record {
  state =
      state_array
        (record { element = element; array_size = array_size; element_size = element_size });
  offset = offset;
  field = 0;
}

-- `Frame::DoneSentinel`.
unfoldable pub done_sentinel : Frame
done_sentinel = record { state = state_done; offset = 0; field = 0 }

-- `NextStructField` returns the frame's field, and leaves this frame.
unfoldable pub next_struct_field : Frame → Frame
next_struct_field f = record f { field = u32 (f.field + 1) }

-- `NextArrayOffset` likewise.
unfoldable pub next_array_offset : FidlCodedArray → Frame → Frame
next_array_offset a f = record f { field = u32 (f.field + a.element_size) }
