-- ===== src/Fidl/Table.antt =====
-- The case of a table in `BufferWalker::Walk` of pkg/fidl/buffer_walker.h.
use fuchsia_sdk.Base.{
  ℕ, zero, suc, ◌+◌, ◌-◌, ◌*◌, ◌/◌, ◌%◌, ◌^◌, Option, none, some, get_elem?, ltb, leb, ◌==◌,
  if◌then◌else◌, not, ◌||◌,
}
use fuchsia_sdk.Fidl.Tables.{FidlTableField, u32, type_size}
use fuchsia_sdk.Fidl.Frames.{Frame, TableState, TableVisit, state_table, frame_of}
use fuchsia_sdk.Fidl.Visitor.{
  Message, Walker, table_absent, bad_table_vector, table_size_overflow, table_too_large,
  table_missized, table_handles_missized, envelope_present_empty, envelope_absent_full,
  envelope_bad, table_field_overflow, table_handles_overflow, table_field_too_large, depth_table,
  table_handle_missing,
}
use fuchsia_sdk.Fidl.Claims.{claimed, exhausted, wild_pointer, claim_handle}
use fuchsia_sdk.Fidl.Stack.{
  Walked, goes, faults, pop, fail, push, set_top, with_word, by_pointer, claiming, updating,
}

-- The known field that has this ordinal, if the next one of the type's has it.
unfoldable pub known_field : TableState → TableVisit → ℕ → Option FidlTableField
known_field t v ordinal = elim (get_elem? t.fields v.known_index) [
  | none ↦ none
  | some field ↦ if field.ordinal == ordinal then some field else none
]

-- `known_index++` where the field is known.
abbrev pub past_known : Option FidlTableField → TableVisit → TableVisit
past_known none v = v
past_known (some field) v = record v { known_index = u32 (v.known_index + 1) }

module _ (e : Message) where
  -- The loop over the handles of a field that will not be processed.
  unfoldable pub discard_handles : ℕ → Walker → Walked
  discard_handles zero w = goes w
  discard_handles (suc n) w = elim (claim_handle e none w) [
    | claimed w' ↦ discard_handles n w'
    | exhausted w' ↦ fail e table_handle_missing w'
    | wild_pointer ↦ faults
  ]

  -- The first visit: the vector of envelopes.
  unfoldable pub table_vector_step : TableState → Frame → Walker → Walked
  table_vector_step t f w =
      by_pointer e (f.offset + 8) w
        (λ p. with_word e 8 f.offset w λ count.
          if leb (2 ^ 32) (count * 16)
          then fail e table_size_overflow w
          else claiming e table_too_large (count * 16) p w λ offset w'.
            updating e (f.offset + 8) offset w' λ w''. goes (
              set_top
                (record {
                  state = state_table (record t {
                    present_count = u32 count;
                    visit = some (record {
                      known_index = 0;
                      end_offset = w'.out_of_line_offset;
                      end_handle = w'.handle_idx;
                    });
                  });
                  offset = offset;
                  field = 1;
                })
                w''))
        (λ _. fail e table_absent w) (λ _. fail e bad_table_vector w)

  -- The contents of an envelope, once its sizes are known to fit. The address of the pointer, not
  -- the pointer, is what the source hands to ClaimOutOfLineStorage.
  unfoldable pub envelope_contents : Option FidlTableField → ℕ → ℕ → ℕ → Walker → Walked
  envelope_contents (some field) data_offset bytes handles w =
      let kind = e.types field.kind in
      claiming e table_field_too_large (type_size kind) (e.base + data_offset) w
        λ offset w'. updating e data_offset offset w' (push e depth_table (frame_of kind offset))
  envelope_contents none data_offset bytes handles w =
      claiming e table_field_too_large bytes (e.base + data_offset) w
        λ offset w'. updating e data_offset offset w' (discard_handles handles)

  -- A present envelope.
  unfoldable pub envelope_step :
      TableState → TableVisit → Option FidlTableField → Frame → ℕ → ℕ → Walker → Walked
  envelope_step t v known f data_offset packed_sizes w =
      let bytes = packed_sizes % 2 ^ 32 in
      let handles = packed_sizes / 2 ^ 32 in
      let offset = w.out_of_line_offset + bytes in
      let handle = w.handle_idx + handles in
      if leb (2 ^ 32) offset || ltb e.num_bytes offset
      then fail e table_field_overflow w
      else if leb (2 ^ 32) handle || ltb e.num_handles handle
      then fail e table_handles_overflow w
      else envelope_contents known data_offset bytes handles (
          set_top
            (record f {
              state = state_table (record t {
                visit = some (record v { end_offset = offset; end_handle = handle });
              });
            })
            w)

  -- The envelope of the frame's field.
  unfoldable pub table_field_step : TableState → TableVisit → Frame → Walker → Walked
  table_field_step t v f w =
      let known = known_field t v f.field in
      let v' = past_known known v in
      let f' = record f {
        state = state_table (record t { visit = some v' });
        field = u32 (f.field + 1);
      } in
      let tag_offset = u32 (f.offset + (f.field - 1) * 16) in
      let data_offset = u32 (tag_offset + 8) in
      let w' = set_top f' w in
      with_word e 8 tag_offset w λ packed_sizes.
        by_pointer e data_offset w
          (λ _.
            if packed_sizes == 0
            then fail e envelope_present_empty w'
            else envelope_step t v' known f' data_offset packed_sizes w')
          (λ _. if packed_sizes == 0 then goes w' else fail e envelope_absent_full w')
          (λ _. fail e envelope_bad w')

  -- A later visit: what the objects of the field before have left, and whether another field is.
  unfoldable pub table_visit_step : TableState → TableVisit → Frame → Walker → Walked
  table_visit_step t v f w =
      if not (v.end_offset == w.out_of_line_offset)
      then fail e table_missized w
      else if not (v.end_handle == w.handle_idx)
      then fail e table_handles_missized w
      else if ltb t.present_count f.field
      then pop w
      else table_field_step t v f w

  unfoldable pub table_step : TableState → Frame → Walker → Walked
  table_step t f w =
      if f.field == 0
      then table_vector_step t f w
      else elim t.visit [ none ↦ faults | some v ↦ table_visit_step t v f w ]
