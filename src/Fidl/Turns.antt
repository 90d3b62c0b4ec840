-- ===== src/Fidl/Turns.antt =====
-- The cases of structs, nullable pointers, unions and arrays of the `switch` of
-- pkg/fidl/buffer_walker.h, by the rules of Fidl/Rules.
use fuchsia_sdk.Base.{ℕ, ◌+◌, Option, none, some, length, get_elem?, leb, ◌==◌, if◌then◌else◌}
use fuchsia_sdk.Fidl.Tables.{FidlCodedUnion, FidlCodedArray, u32}
use fuchsia_sdk.Fidl.Frames.{Frame, StructState, frame_of, next_struct_field, next_array_offset}
use fuchsia_sdk.Fidl.Visitor
use fuchsia_sdk.Fidl.Visitor.{
  Message, Walker, Error, PointerState, present, absent, invalid, set_error, get_handle_state,
}
use fuchsia_sdk.Fidl.Stack.{
  Walked, goes, faults, pop, fail, push, set_top, by_pointer, claiming, updating,
}
use fuchsia_sdk.Fidl.Steps.{struct_step, union_step, array_step}
use fuchsia_sdk.Fidl.Rules.{
  Leads, IsKept, pop-Leads, fail-Leads, push-Leads, if-Leads, with_word-Leads, by_pointer-Leads,
  claiming-Leads, updating-Leads, get-Leads,
}

module _ (e : Message) (P Q : Walker → Type 0) (kept : IsKept e P Q) where
  pub struct_step-Leads :
      (s : StructState) (f : Frame) (w : Walker) → P w → Leads P Q (struct_step e s f w)
  unfolding struct_step
  struct_step-Leads s f w p =
      let w' = set_top (next_struct_field f) w in
      let p' = kept.at_top (next_struct_field f) w p in
      get-Leads e P Q kept s.field_count (by_count w') (λ field_count.
        if-Leads e P Q kept (f.field == field_count) (pop w') (by_field w')
          (pop-Leads e P Q kept w' p')
          (get-Leads e P Q kept (get_elem? s.fields f.field)
            (λ field.
              push e Visitor.depth_struct
                (frame_of (e.types field.kind) (u32 (f.offset + field.offset))) w')
            (λ field.
              push-Leads e P Q kept Visitor.depth_struct
                (frame_of (e.types field.kind) (u32 (f.offset + field.offset))) w' p')))
    where
      by_field : Walker → Walked
      by_field w' = elim (get_elem? s.fields f.field) [
        | none ↦ faults
        | some field ↦
            push e Visitor.depth_struct
              (frame_of (e.types field.kind) (u32 (f.offset + field.offset))) w'
      ]

      by_count : Walker → ℕ → Walked
      by_count w' field_count = if f.field == field_count then pop w' else by_field w'

  -- The three nullable pointers: storage is claimed, and the frame replaced.
  pub pointer-Leads :
      (f : Frame) (w : Walker) (large bad : Error) (size : ℕ) (g : ℕ → Frame)
      → P w
      → Leads P Q (
          by_pointer e f.offset w
            (λ p.
              claiming e large size p w
                λ offset w'. updating e f.offset offset w' λ w''. goes (set_top (g offset) w''))
            (λ _. pop w)
            (λ _. fail e bad w))
  pointer-Leads f w large bad size g p =
      by_pointer-Leads e P Q kept f.offset w
        (λ s.
          claiming e large size s w
            λ offset w'. updating e f.offset offset w' λ w''. goes (set_top (g offset) w''))
        (λ _. pop w) (λ _. fail e bad w)
        (λ s.
          claiming-Leads e P Q kept large size s w
            (λ offset w'. updating e f.offset offset w' λ w''. goes (set_top (g offset) w'')) p
            (λ offset w' p'.
              updating-Leads e P Q kept f.offset offset w' (λ w''. goes (set_top (g offset) w'')) p'
                (kept.at_top (g offset))))
        (λ _. pop-Leads e P Q kept w p) (λ _. fail-Leads e P Q kept bad w p)

  pub union_step-Leads :
      (u : FidlCodedUnion) (f : Frame) (w : Walker) → P w → Leads P Q (union_step e u f w)
  unfolding union_step
  union_step-Leads u f w p =
      with_word-Leads e P Q kept 4 f.offset w
        (λ tag.
          if leb (length u.members) tag
          then fail e Visitor.bad_union_tag w
          else elim (get_elem? u.members tag) [
            | none ↦ faults
            | some none ↦ pop w
            | some (some member) ↦
                goes (set_top (frame_of (e.types member) (u32 (f.offset + u.data_offset))) w)
          ])
        (λ tag.
          if-Leads e P Q kept (leb (length u.members) tag) (fail e Visitor.bad_union_tag w)
            (elim (get_elem? u.members tag) [
              | none ↦ faults
              | some none ↦ pop w
              | some (some member) ↦
                  goes (set_top (frame_of (e.types member) (u32 (f.offset + u.data_offset))) w)
            ])
            (fail-Leads e P Q kept Visitor.bad_union_tag w p) (by_member (get_elem? u.members tag)))
    where
      by_member :
          (o : Option (Option ℕ))
          → Leads P Q (elim o [
            | none ↦ faults
            | some none ↦ pop w
            | some (some member) ↦
                goes (set_top (frame_of (e.types member) (u32 (f.offset + u.data_offset))) w)
          ])
      by_member none = tt
      by_member (some none) = pop-Leads e P Q kept w p
      by_member (some (some member)) =
          kept.at_top (frame_of (e.types member) (u32 (f.offset + u.data_offset))) w p

  pub array_step-Leads :
      (a : FidlCodedArray) (f : Frame) (w : Walker) → P w → Leads P Q (array_step e a f w)
  unfolding array_step
  array_step-Leads a f w p =
      let w' = set_top (next_array_offset a f) w in
      let p' = kept.at_top (next_array_offset a f) w p in
      let g = frame_of (e.types a.element) (u32 (f.offset + f.field)) in
      if-Leads e P Q kept (f.field == a.array_size) (pop w') (push e Visitor.depth_array g w')
        (pop-Leads e P Q kept w' p') (push-Leads e P Q kept Visitor.depth_array g w' p')
