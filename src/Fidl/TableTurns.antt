-- ===== src/Fidl/TableTurns.antt =====
-- The case of tables of the `switch` of pkg/fidl/buffer_walker.h, by the rules of Fidl/Rules.
use fuchsia_sdk.Base.{
  ℕ, zero, suc, ◌+◌, ◌-◌, ◌*◌, ◌/◌, ◌%◌, ◌^◌, ◌||◌, Option, none, some, ltb, leb, ◌==◌,
  if◌then◌else◌, Bool-cases, inl, inr,
}
use fuchsia_sdk.Fidl.Tables.{FidlTableField, u32, type_size}
use fuchsia_sdk.Fidl.Frames.{Frame, TableState, TableVisit, state_table, frame_of}
use fuchsia_sdk.Fidl.Visitor
use fuchsia_sdk.Fidl.Visitor.{
  Message, Walker, Error, PointerState, present, absent, invalid, set_error, get_handle_state,
}
use fuchsia_sdk.Fidl.Stack.{
  Walked, goes, faults, pop, fail, push, set_top, with_word, by_pointer, claiming, updating,
}
use fuchsia_sdk.Fidl.Table.{
  table_step, table_vector_step, table_field_step, table_visit_step, envelope_step,
  envelope_contents, discard_handles, past_known, known_field,
}
use fuchsia_sdk.Fidl.Rules.{
  Leads, IsKept, pop-Leads, fail-Leads, push-Leads, if-Leads, with_word-Leads, by_pointer-Leads,
  claiming-Leads, get-Leads, updating-Leads, claim_handle-Leads,
}

module _ (e : Message) (P Q : Walker → Type 0) (kept : IsKept e P Q) where
  pub discard_handles-Leads : (n : ℕ) (w : Walker) → P w → Leads P Q (discard_handles e n w)
  unfolding discard_handles
  discard_handles-Leads zero w p = p
  discard_handles-Leads (suc n) w p =
      claim_handle-Leads e P Q kept Visitor.table_handle_missing none w (discard_handles e n) p
        (λ w' p'. discard_handles-Leads n w' p')

  pub table_vector_step-Leads :
      (t : TableState) (f : Frame) (w : Walker) → P w → Leads P Q (table_vector_step e t f w)
  unfolding table_vector_step
  table_vector_step-Leads t f w p =
      by_pointer-Leads e P Q kept (f.offset + 8) w (λ s. with_word e 8 f.offset w (sized s))
        (λ _. fail e Visitor.table_absent w) (λ _. fail e Visitor.bad_table_vector w)
        (λ s. with_word-Leads e P Q kept 8 f.offset w (sized s) λ count.
          if-Leads e P Q kept (leb (2 ^ 32) (count * 16)) (fail e Visitor.table_size_overflow w)
            (claiming e Visitor.table_too_large (count * 16) s w (first_field count))
            (fail-Leads e P Q kept Visitor.table_size_overflow w p)
            (claiming-Leads e P Q kept Visitor.table_too_large (count * 16) s w (first_field count)
              p
              (λ offset w' p'.
                updating-Leads e P Q kept (f.offset + 8) offset w'
                  (λ w''. goes (set_top (field_frame count offset w') w'')) p'
                  (kept.at_top (field_frame count offset w')))))
        (λ s. fail-Leads e P Q kept Visitor.table_absent w p)
        (λ s. fail-Leads e P Q kept Visitor.bad_table_vector w p)
    where
      field_frame : ℕ → ℕ → Walker → Frame
      field_frame count offset w' = record {
        state = state_table (record t {
          present_count = u32 count;
          visit = some (record {
            known_index = 0;
            end_offset = w'.out_of_line_offset;
            end_handle = w'.handle_idx;
          });
        });
        offset = offset;
        field = 1;
      }

      first_field : ℕ → ℕ → Walker → Walked
      first_field count offset w' =
          updating e (f.offset + 8) offset w'
            λ w''. goes (set_top (field_frame count offset w') w'')

      sized : ℕ → ℕ → Walked
      sized s count =
          if leb (2 ^ 32) (count * 16)
          then fail e Visitor.table_size_overflow w
          else claiming e Visitor.table_too_large (count * 16) s w (first_field count)

  pub envelope_contents-Leads :
      (known : Option FidlTableField) (d bytes handles : ℕ) (w : Walker)
      → P w
      → Leads P Q (envelope_contents e known d bytes handles w)
  unfolding envelope_contents
  envelope_contents-Leads (some field) d bytes handles w p =
      let kind = e.types field.kind in
      claiming-Leads e P Q kept Visitor.table_field_too_large (type_size kind) (e.base + d) w
        (λ offset w'. updating e d offset w' (push e Visitor.depth_table (frame_of kind offset))) p
        (λ offset w' p'.
          updating-Leads e P Q kept d offset w' (push e Visitor.depth_table (frame_of kind offset))
            p' (push-Leads e P Q kept Visitor.depth_table (frame_of kind offset)))
  envelope_contents-Leads none d bytes handles w p =
      claiming-Leads e P Q kept Visitor.table_field_too_large bytes (e.base + d) w
        (λ offset w'. updating e d offset w' (discard_handles e handles)) p
        (λ offset w' p'.
          updating-Leads e P Q kept d offset w' (discard_handles e handles) p'
            (discard_handles-Leads handles))

  pub envelope_step-Leads :
      (t : TableState) (v : TableVisit) (known : Option FidlTableField) (f : Frame) (d packed : ℕ)
      (w : Walker)
      → P w
      → Leads P Q (envelope_step e t v known f d packed w)
  unfolding envelope_step
  envelope_step-Leads t v known f d packed w p =
      let bytes = packed % 2 ^ 32 in
      let handles = packed / 2 ^ 32 in
      let offset = w.out_of_line_offset + bytes in
      let handle = w.handle_idx + handles in
      let g = record f {
        state =
            state_table
              (record t { visit = some (record v { end_offset = offset; end_handle = handle }) });
      } in
      let inside = envelope_contents e known d bytes handles (set_top g w) in
      if-Leads e P Q kept (leb (2 ^ 32) offset || ltb e.num_bytes offset)
        (fail e Visitor.table_field_overflow w)
        (if leb (2 ^ 32) handle || ltb e.num_handles handle
          then fail e Visitor.table_handles_overflow w
          else inside)
        (fail-Leads e P Q kept Visitor.table_field_overflow w p)
        (if-Leads e P Q kept (leb (2 ^ 32) handle || ltb e.num_handles handle)
          (fail e Visitor.table_handles_overflow w) inside
          (fail-Leads e P Q kept Visitor.table_handles_overflow w p)
          (envelope_contents-Leads known d bytes handles (set_top g w) (kept.at_top g w p)))

  pub table_field_step-Leads :
      (t : TableState) (v : TableVisit) (f : Frame) (w : Walker)
      → P w
      → Leads P Q (table_field_step e t v f w)
  unfolding table_field_step
  table_field_step-Leads t v f w p =
      let known = known_field t v f.field in
      let v' = past_known known v in
      let f' = record f {
        state = state_table (record t { visit = some v' });
        field = u32 (f.field + 1);
      } in
      let tag_offset = u32 (f.offset + (f.field - 1) * 16) in
      let d = u32 (tag_offset + 8) in
      let w' = set_top f' w in
      let p' = kept.at_top f' w p in
      with_word-Leads e P Q kept 8 tag_offset w
        (λ packed.
          by_pointer e d w
            (λ _.
              if packed == 0
              then fail e Visitor.envelope_present_empty w'
              else envelope_step e t v' known f' d packed w')
            (λ _. if packed == 0 then goes w' else fail e Visitor.envelope_absent_full w')
            (λ _. fail e Visitor.envelope_bad w'))
        λ packed.
          by_pointer-Leads e P Q kept d w
            (λ _.
              if packed == 0
              then fail e Visitor.envelope_present_empty w'
              else envelope_step e t v' known f' d packed w')
            (λ _. if packed == 0 then goes w' else fail e Visitor.envelope_absent_full w')
            (λ _. fail e Visitor.envelope_bad w')
            (λ _.
              if-Leads e P Q kept (packed == 0) (fail e Visitor.envelope_present_empty w')
                (envelope_step e t v' known f' d packed w')
                (fail-Leads e P Q kept Visitor.envelope_present_empty w' p')
                (envelope_step-Leads t v' known f' d packed w' p'))
            (λ _.
              if-Leads e P Q kept (packed == 0) (goes w') (fail e Visitor.envelope_absent_full w')
                p' (fail-Leads e P Q kept Visitor.envelope_absent_full w' p'))
            (λ _. fail-Leads e P Q kept Visitor.envelope_bad w' p')

  table_visit_step-Leads :
      (t : TableState) (v : TableVisit) (f : Frame) (w : Walker)
      → P w
      → Leads P Q (table_visit_step e t v f w)
  unfolding table_visit_step
  table_visit_step-Leads t v f w p = elim (Bool-cases (v.end_offset == w.out_of_line_offset)) [
    | inr off ↦ rw off (fail-Leads e P Q kept Visitor.table_missized w p)
    | inl on ↦ elim (Bool-cases (v.end_handle == w.handle_idx)) [
      | inr off ↦ rw (on, off) (fail-Leads e P Q kept Visitor.table_handles_missized w p)
      | inl even ↦
          rw (on, even)
            (if-Leads e P Q kept (ltb t.present_count f.field) (pop w) (table_field_step e t v f w)
              (pop-Leads e P Q kept w p) (table_field_step-Leads t v f w p))
    ]
  ]

  pub table_step-Leads :
      (t : TableState) (f : Frame) (w : Walker) → P w → Leads P Q (table_step e t f w)
  unfolding table_step
  table_step-Leads t f w p =
      if-Leads e P Q kept (f.field == 0) (table_vector_step e t f w)
        (elim t.visit [ none ↦ faults | some v ↦ table_visit_step e t v f w ])
        (table_vector_step-Leads t f w p)
        (get-Leads e P Q kept t.visit (λ v. table_visit_step e t v f w)
          (λ v. table_visit_step-Leads t v f w p))
