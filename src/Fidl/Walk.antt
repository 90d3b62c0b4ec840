-- ===== src/Fidl/Walk.antt =====
-- `BufferWalker::Walk` of pkg/fidl/buffer_walker.h, and fidl_validate, fidl_encode and fidl_decode
-- of pkg/fidl/validating.cpp, encoding.cpp and decoding.cpp.
use fuchsia_sdk.Base.{ℕ, zero, suc, Bool, not, ◌&&◌, none, some, [], ◌∷◌, ltb, ◌==◌, if◌then◌else◌}
use fuchsia_sdk.Fidl.Tables.{FidlType, coded_struct, coded_table, fidl_align, u32}
use fuchsia_sdk.Fidl.Memory.{Bytes}
use fuchsia_sdk.Fidl.Frames.{
  Frame, FrameState, state_struct, state_struct_pointer, state_table, state_table_pointer,
  state_union, state_union_pointer, state_array, state_string, state_handle, state_vector,
  state_done, frame_of, done_sentinel,
}
use fuchsia_sdk.Fidl.Visitor.{
  Message, Walker, null_type, null_bytes, message_too_small, not_a_message, null_handles,
  handle_count, null_actual_handles, set_error,
}
use fuchsia_sdk.Fidl.Stack.{Walked, goes, stops, faults}
use fuchsia_sdk.Fidl.Steps.{
  struct_step, struct_pointer_step, table_pointer_step, union_step, union_pointer_step, array_step,
  string_step, handle_step, vector_step, done_step,
}
use fuchsia_sdk.Fidl.Table.{table_step}

-- The `switch (frame->state)`.
unfoldable pub frame_step : Message → FrameState → Frame → Walker → Walked
frame_step e (state_struct s) f w = struct_step e s f w
frame_step e (state_struct_pointer s) f w = struct_pointer_step e s f w
frame_step e (state_table t) f w = table_step e t f w
frame_step e (state_table_pointer t) f w = table_pointer_step e t f w
frame_step e (state_union u) f w = union_step e u f w
frame_step e (state_union_pointer u) f w = union_pointer_step e u f w
frame_step e (state_array a) f w = array_step e a f w
frame_step e (state_string s) f w = string_step e s f w
frame_step e (state_handle nullable) f w = handle_step e nullable f w
frame_step e (state_vector v) f w = vector_step e v f w
frame_step e state_done f w = done_step e w

-- One turn of the `for (;;)`.
unfoldable pub step : Message → Walker → Walked
step e w = elim w.frames [ [] ↦ faults | f ∷ rest ↦ frame_step e f.state f w ]

-- The loop, for at most so many turns: `goes` is a walk that has not returned by then.
unfoldable pub walk_loop : ℕ → Message → Walker → Walked
walk_loop zero e w = goes w
walk_loop (suc fuel) e w = elim (step e w) [
  | goes w' ↦ walk_loop fuel e w'
  | stops w' ↦ stops w'
  | faults ↦ faults
]

-- What `Walk` does before the loop: the size of the inline part, and the first two frames.
unfoldable pub start_at : Message → FidlType → ℕ → Walker → Walked
start_at e t size w =
    if ltb e.num_bytes size
    then stops (set_error e message_too_small w)
    else goes (record w {
      out_of_line_offset = u32 (fidl_align size);
      frames = frame_of t 0 ∷ done_sentinel ∷ [];
    })

unfoldable pub start_type : Message → FidlType → Walker → Walked
start_type e (coded_struct s) w = start_at e (coded_struct s) s.size w
start_type e (coded_table t) w = start_at e (coded_table t) 16 w
start_type e t w = stops (set_error e not_a_message w)

unfoldable pub start : Message → Walker → Walked
start e w = elim e.root [
  | none ↦ stops (set_error e null_type w)
  | some root ↦
      if e.base == 0 then stops (set_error e null_bytes w) else start_type e (e.types root) w
]

-- `BufferWalker::Walk`.
unfoldable pub walk : ℕ → Message → Walker → Walked
walk fuel e w = elim (start e w) [
  | goes w' ↦ walk_loop fuel e w'
  | stops w' ↦ stops w'
  | faults ↦ faults
]

-- A walker that was just made.
unfoldable pub new_walker : Bytes → (ℕ → ℕ) → Walker
new_walker mem handles = record {
  mem = mem;
  handles = handles;
  handle_idx = 0;
  out_of_line_offset = 0;
  frames = [];
  error = none;
  closed = [];
}

-- The test that follows the walk of a validator and of a decoder.
abbrev pub check_handles : Message → Walker → Walker
check_handles e w = elim w.error [
  | none ↦ if w.handle_idx == e.num_handles then w else set_error e handle_count w
  | some _ ↦ w
]

abbrev pub after_walk : (Walker → Walker) → Walked → Walked
after_walk f (goes w) = goes w
after_walk f (stops w) = stops (f w)
after_walk f faults = faults

unfoldable pub fidl_validate : ℕ → Message → Walker → Walked
fidl_validate fuel e w = after_walk (check_handles e) (walk fuel e w)

unfoldable pub fidl_decode : ℕ → Message → Walker → Walked
fidl_decode fuel e w =
    if e.handles_null && not (e.num_handles == 0)
    then stops (set_error e null_handles w)
    else after_walk (check_handles e) (walk fuel e w)

-- The number of handles goes out through `out_actual_handles`, unless that is null.
unfoldable pub fidl_encode : ℕ → Bool → Message → Walker → Walked
fidl_encode fuel actual_handles_null e w =
    if e.handles_null && not (e.num_handles == 0)
    then stops (set_error e null_handles w)
    else if actual_handles_null
    then stops (set_error e null_actual_handles w)
    else walk fuel e w
