-- ===== src/Fidl/Steps.antt =====
-- The cases of the `switch` in `BufferWalker::Walk` of pkg/fidl/buffer_walker.h, but for tables.
-- Each is given the frame at the top of the stack.
use fuchsia_sdk.Base.{
  ◌+◌, ◌*◌, ◌^◌, Bool, none, some, length, get_elem?, ltb, leb, ◌==◌, if◌then◌else◌,
}
use fuchsia_sdk.Fidl.Tables.{
  FidlCodedStruct, FidlCodedTable, FidlCodedUnion, FidlCodedArray, FidlCodedString, FidlCodedVector,
  u32,
}
use fuchsia_sdk.Fidl.Frames.{
  Frame, StructState, frame_of, frame_of_struct, frame_of_table, frame_of_union, frame_of_array,
  next_struct_field, next_array_offset,
}
use fuchsia_sdk.Fidl.Visitor.{
  Message, Walker, depth_struct, bad_struct_pointer, struct_too_large, bad_table_pointer,
  nullable_table_too_large, bad_union_tag, bad_union_pointer, union_too_large, depth_array,
  string_absent, string_absent_nonempty, bad_string, string_over_bound, string_too_large,
  handle_missing, too_many_handles, garbage_handle, vector_absent, vector_absent_nonempty,
  bad_vector, vector_over_bound, vector_size_overflow, vector_too_large, undecoded_bytes, present,
  absent, invalid, get_handle_state, set_error,
}
use fuchsia_sdk.Fidl.Claims.{claimed, exhausted, wild_pointer, claim_handle}
use fuchsia_sdk.Fidl.Stack.{
  Walked, goes, stops, faults, pop, fail, push, set_top, with_word, by_pointer, claiming, updating,
}

module _ (e : Message) where
  unfoldable pub struct_step : StructState → Frame → Walker → Walked
  struct_step s f w =
      let w' = set_top (next_struct_field f) w in
      elim s.field_count [
        | none ↦ faults
        | some field_count ↦
            if f.field == field_count then pop w' else elim (get_elem? s.fields f.field) [
              | none ↦ faults
              | some field ↦
                  push e depth_struct
                    (frame_of (e.types field.kind) (u32 (f.offset + field.offset))) w'
            ]
      ]

  unfoldable pub struct_pointer_step : FidlCodedStruct → Frame → Walker → Walked
  struct_pointer_step s f w =
      by_pointer e f.offset w
        (λ p. claiming e struct_too_large s.size p w λ offset w'.
          updating e f.offset offset w' λ w''. goes (set_top (frame_of_struct s offset) w''))
        (λ _. pop w) (λ _. fail e bad_struct_pointer w)

  unfoldable pub table_pointer_step : FidlCodedTable → Frame → Walker → Walked
  table_pointer_step t f w =
      by_pointer e f.offset w
        (λ p. claiming e nullable_table_too_large 16 p w λ offset w'.
          updating e f.offset offset w' λ w''. goes (set_top (frame_of_table t offset) w''))
        (λ _. pop w) (λ _. fail e bad_table_pointer w)

  unfoldable pub union_step : FidlCodedUnion → Frame → Walker → Walked
  union_step u f w = with_word e 4 f.offset w λ tag.
      if leb (length u.members) tag
      then fail e bad_union_tag w
      else elim (get_elem? u.members tag) [
        | none ↦ faults
        | some none ↦ pop w
        | some (some member) ↦
            goes (set_top (frame_of (e.types member) (u32 (f.offset + u.data_offset))) w)
      ]

  unfoldable pub union_pointer_step : FidlCodedUnion → Frame → Walker → Walked
  union_pointer_step u f w =
      by_pointer e f.offset w
        (λ p. claiming e union_too_large u.size p w λ offset w'.
          updating e f.offset offset w' λ w''. goes (set_top (frame_of_union u offset) w''))
        (λ _. pop w) (λ _. fail e bad_union_pointer w)

  unfoldable pub array_step : FidlCodedArray → Frame → Walker → Walked
  array_step a f w =
      let w' = set_top (next_array_offset a f) w in
      if f.field == a.array_size
      then pop w'
      else push e depth_array (frame_of (e.types a.element) (u32 (f.offset + f.field))) w'

  unfoldable pub string_step : FidlCodedString → Frame → Walker → Walked
  string_step s f w = with_word e 8 f.offset w λ size.
      by_pointer e (f.offset + 8) w
        (λ p.
          if ltb s.max_size size
          then fail e string_over_bound w
          else claiming e string_too_large (u32 size) p w
              λ offset w'. updating e (f.offset + 8) offset w' pop)
        (λ _.
          if s.nullable
          then if size == 0 then pop w else fail e string_absent_nonempty w
          else fail e string_absent w)
        (λ _. fail e bad_string w)

  unfoldable pub handle_step : Bool → Frame → Walker → Walked
  handle_step nullable f w = with_word e 4 f.offset w λ v. elim (get_handle_state e.mode v) [
    | absent ↦ if nullable then pop w else fail e handle_missing w
    | present ↦ elim (claim_handle e (some f.offset) w) [
      | claimed w' ↦ pop w'
      | exhausted w' ↦ fail e too_many_handles w'
      | wild_pointer ↦ faults
    ]
    | invalid ↦ fail e garbage_handle w
  ]

  unfoldable pub vector_step : FidlCodedVector → Frame → Walker → Walked
  vector_step v f w = with_word e 8 f.offset w λ count.
      by_pointer e (f.offset + 8) w
        (λ p.
          if ltb v.max_count count
          then fail e vector_over_bound w
          else if leb (2 ^ 32) (count * v.element_size)
          then fail e vector_size_overflow w
          else claiming e vector_too_large (count * v.element_size) p w λ offset w'.
            updating e (f.offset + 8) offset w' λ w''. elim v.element [
              | none ↦ pop w''
              | some element ↦ goes (
                  set_top (frame_of_array element (count * v.element_size) v.element_size offset)
                    w'')
            ])
        (λ _.
          if v.nullable
          then if count == 0 then pop w else fail e vector_absent_nonempty w
          else fail e vector_absent w)
        (λ _. fail e bad_vector w)

  unfoldable pub done_step : Walker → Walked
  done_step w =
      if w.out_of_line_offset == e.num_bytes then stops w else stops (set_error e undecoded_bytes w)
