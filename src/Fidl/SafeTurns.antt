-- ===== src/Fidl/SafeTurns.antt =====
-- The cases of structs, nullable pointers, unions and arrays of the `switch` of
-- pkg/fidl/buffer_walker.h, by the rules of Fidl/Safe.
use fuchsia_sdk.Base.{
  ℕ, zero, suc, ◌+◌, ◌*◌, ◌^◌, ◌≤◌, ◌<◌, ◌≡◌, ◌≢◌, ◌∙◌, Option, none, some, List, ◌∷◌, arith,
  length, get_elem?, leb, ◌==◌, if◌then◌else◌,
}
use fuchsia_sdk.Fidl.Tables.{
  FidlType, FidlTypes, coded_struct, coded_struct_pointer, coded_table, coded_table_pointer,
  coded_union, coded_union_pointer, coded_array, coded_string, coded_handle, coded_vector,
  FidlCodedStruct, FidlCodedUnion, FidlCodedArray, u32, type_size,
}
use fuchsia_sdk.Fidl.Frames.{
  Frame, StructState, state_struct, state_struct_pointer, state_union, state_union_pointer,
  state_array, frame_of, frame_of_struct, frame_of_union, next_struct_field, next_array_offset,
}
use fuchsia_sdk.Fidl.Visitor
use fuchsia_sdk.Fidl.Visitor.{Message, Walker, Error}
use fuchsia_sdk.Fidl.Stack.{
  Walked, goes, faults, pop, fail, push, set_top, claiming, by_pointer, updating,
}
use fuchsia_sdk.Fidl.Steps.{
  struct_step, struct_pointer_step, union_step, union_pointer_step, array_step,
}
use fuchsia_sdk.Fidl.Typed.{
  IsTyped, IsWhole, Fits, MemberFits, All-get, frame_of-Fits, frame_of_struct-Fits,
}
use fuchsia_sdk.Fidl.Work.{work, turns_left}
use fuchsia_sdk.Fidl.Safe.{
  Safe, Turn, Turn-Fits, Turn-same, set_top-frames, set_top-storage, unclaimed, pop-Safe,
  pop_top-Safe, replace-Safe, push-Safe, fail-Safe, if-Safe, with_word-Safe, by_pointer-Safe,
  claiming-Safe, updating-Safe, get-Safe,
}

-- An object of a whole type, where it lies in the message.
pub child-Fits :
    (e : Message) (k offset : ℕ)
    → IsTyped e
    → offset + type_size (e.types k) ≤ e.num_bytes
    → Fits e (frame_of (e.types k) (u32 offset)).state (frame_of (e.types k) (u32 offset))
child-Fits e k offset typed h =
    frame_of-Fits e (e.types k) (u32 offset) (typed.whole k) (omega (arith, typed.small))

-- A member of a union has less work than the union: it is smaller, or no union.
member-less :
    (types : FidlTypes) (a b : ℕ) (t : FidlType) (offset : ℕ) (u : FidlCodedUnion)
    → a ≤ b
    → IsWhole types t
    → 0 < u.size
    → type_size t < u.size
    → work a (frame_of t offset).state (frame_of t offset).field < work b (state_union u) 0
unfolding work frame_of type_size
member-less types a b (coded_struct s) offset u l h k m = omega (arith, l, h.few)
member-less types a b (coded_struct_pointer s) offset u l h k m = omega (arith, l)
member-less types a b (coded_table t) offset u l h k m = omega (arith, l)
member-less types a b (coded_table_pointer t) offset u l h k m = absurd h
member-less types a b (coded_union v) offset u l h k m = omega (arith, l, m)
member-less types a b (coded_union_pointer v) offset u l h k m = omega (arith, l, k)
member-less types a b (coded_array x) offset u l h k m = omega (arith, l, m)
member-less types a b (coded_string s) offset u l h k m = omega (arith, l)
member-less types a b (coded_handle s) offset u l h k m = omega (arith, l)
member-less types a b (coded_vector v) offset u l h k m = omega (arith, l)

next_struct_field-Fits :
    (e : Message) (f : Frame) (s : StructState)
    → f.state ≡ state_struct s
    → Fits e (state_struct s) f
    → f.field < length s.fields
    → Fits e (next_struct_field f).state (next_struct_field f)
unfolding next_struct_field
next_struct_field-Fits e f s q h more = rw q (h.0, omega (arith, h.0), h.2, h.3)

next_struct_field-less :
    (a b : ℕ) (f : Frame) (s : StructState)
    → f.state ≡ state_struct s
    → length s.fields < 2 ^ 32
    → f.field < length s.fields
    → work a (next_struct_field f).state (next_struct_field f).field < work b f.state f.field
unfolding next_struct_field work
next_struct_field-less a b f s q few more = rw q (omega arith)

-- Between two elements, another one is left.
one_more :
    (field n size total : ℕ)
    → field + n * size ≡ total
    → field ≢ total
    → (m : ℕ) × (field + size + m * size ≡ total) × (0 < size)
one_more field zero size total h more = absurd (more (omega (arith, h)))
one_more field (suc m) zero total h more = absurd (more (grind (arith, h)))
one_more field (suc m) (suc k) total h more = (m, grind (arith, h), omega arith)

element_inside :
    (e : Message) (f : Frame) (a : FidlCodedArray)
    → Fits e (state_array a) f
    → f.field ≢ a.array_size
    → f.offset + f.field + type_size (e.types a.element) ≤ e.num_bytes
element_inside e f a h more =
    let (m, filled, some_size) =
      one_more f.field h.left.0 a.element_size a.array_size h.left.1 more in
    omega (arith, h.inside, h.sized)

next_array_offset-Fits :
    (e : Message) (f : Frame) (a : FidlCodedArray)
    → IsTyped e
    → f.state ≡ state_array a
    → Fits e (state_array a) f
    → f.field ≢ a.array_size
    → Fits e (next_array_offset a f).state (next_array_offset a f)
unfolding next_array_offset
next_array_offset-Fits e f a typed q h more =
    let (m, filled, some_size) =
      one_more f.field h.left.0 a.element_size a.array_size h.left.1 more in
    rw q (record {
      sized = h.sized;
      inside = h.inside;
      left = (m, omega (arith, h.inside, typed.small));
    })

next_array_offset-less :
    (now before : ℕ) (e : Message) (f : Frame) (a : FidlCodedArray)
    → IsTyped e
    → f.state ≡ state_array a
    → Fits e (state_array a) f
    → f.field ≢ a.array_size
    → work now (next_array_offset a f).state (next_array_offset a f).field
      < work before f.state f.field
unfolding next_array_offset work
next_array_offset-less now before e f a typed q h more =
    let (m, filled, some_size) =
      one_more f.field h.left.0 a.element_size a.array_size h.left.1 more in
    rw q (omega (arith, h.inside, typed.small))

module _ (e : Message) (left : ℕ) (f : Frame) (rest : List Frame) (w : Walker)
    (t : Turn e left f rest w) where
  pub struct_step-Safe :
      (s : StructState)
      → f.state ≡ state_struct s
      → Safe e (turns_left left (f ∷ rest)) (struct_step e s f w)
  unfolding struct_step
  struct_step-Safe s q =
      let g = next_struct_field f in
      let h = Turn-Fits (state_struct s) t q in
      rw h.3 (
        if-Safe e t.typed (turns_left left (f ∷ rest)) (f.field == length s.fields)
          (pop (set_top g w))
          (elim (get_elem? s.fields f.field) [
            | none ↦ faults
            | some field ↦
                push e Visitor.depth_struct
                  (frame_of (e.types field.kind) (u32 (f.offset + field.offset))) (set_top g w)
          ])
          (λ _. pop_top-Safe w g t)
          (λ more.
            get-Safe e t.typed (turns_left left (f ∷ rest)) s.fields f.field
              (λ field.
                push e Visitor.depth_struct
                  (frame_of (e.types field.kind) (u32 (f.offset + field.offset))) (set_top g w))
              (ground (arith, more, h.1))
              (λ field got.
                let room : f.field < length s.fields = ground (arith, more, h.1) in
                let there =
                  All-get (λ x. f.offset + x.offset + type_size (e.types x.kind) ≤ e.num_bytes)
                    s.fields f.field field h.2 got in
                push-Safe Visitor.depth_struct w (set_top g w) g
                  (frame_of (e.types field.kind) (u32 (f.offset + field.offset))) t
                  (set_top-frames f g rest w t.top) (omega (arith, set_top-storage g w))
                  (next_struct_field-Fits e f s q h room)
                  (next_struct_field-less (unclaimed e (set_top g w)) left f s q h.0 room)
                  (child-Fits e field.kind (f.offset + field.offset) t.typed there))))

  pub pointer-Safe :
      (large bad : Error) (size : ℕ) (g : ℕ → Frame)
      → f.offset + 8 ≤ e.num_bytes
      → ((offset : ℕ) → offset + size ≤ e.num_bytes → Fits e (g offset).state (g offset))
      → ((offset now : ℕ)
          → now + size ≤ left
          → work now (g offset).state (g offset).field < work left f.state f.field)
      → Safe e (turns_left left (f ∷ rest)) (
          by_pointer e f.offset w
            (λ p.
              claiming e large size p w
                λ offset w'. updating e f.offset offset w' λ w''. goes (set_top (g offset) w''))
            (λ _. pop w)
            (λ _. fail e bad w))
  pointer-Safe large bad size g here fits less =
      let turns = turns_left left (f ∷ rest) in
      by_pointer-Safe e t.typed turns f.offset w
        (λ p.
          claiming e large size p w
            λ offset w'. updating e f.offset offset w' λ w''. goes (set_top (g offset) w''))
        (λ _. pop w) (λ _. fail e bad w) here
        (λ p.
          claiming-Safe e t.typed turns large size p w
            (λ offset w'. updating e f.offset offset w' λ w''. goes (set_top (g offset) w''))
            (λ offset w' there same grown inside.
              updating-Safe e t.typed turns f.offset offset w'
                (λ w''. goes (set_top (g offset) w'')) here
                (λ w'' still kept.
                  replace-Safe w'' (g offset)
                    (Turn-same t (still ∙ same) (omega (arith, grown, kept))) (fits offset there)
                    (less offset (unclaimed e w'') (omega (arith, grown, inside, kept, t.spent))))))
        (λ _. pop-Safe w t) (λ _. fail-Safe e turns bad w t.typed)

  pub struct_pointer_step-Safe :
      (s : FidlCodedStruct)
      → f.state ≡ state_struct_pointer s
      → Safe e (turns_left left (f ∷ rest)) (struct_pointer_step e s f w)
  unfolding struct_pointer_step work frame_of_struct
  struct_pointer_step-Safe s q =
      let h = Turn-Fits (state_struct_pointer s) t q in
      pointer-Safe Visitor.struct_too_large Visitor.bad_struct_pointer s.size (frame_of_struct s)
        h.0 (λ offset there. frame_of_struct-Fits e s offset h.1 there)
        (λ offset now l. rw q (omega (arith, h.1.few)))

  pub union_pointer_step-Safe :
      (u : FidlCodedUnion)
      → f.state ≡ state_union_pointer u
      → Safe e (turns_left left (f ∷ rest)) (union_pointer_step e u f w)
  unfolding union_pointer_step work frame_of_union
  union_pointer_step-Safe u q =
      let h = Turn-Fits (state_union_pointer u) t q in
      pointer-Safe Visitor.union_too_large Visitor.bad_union_pointer u.size (frame_of_union u) h.0
        (λ offset there. (there, h.1))
        (λ offset now l. rw q (omega (arith, l, h.1.small, h.1.tagged, h.1.within)))

  pub array_step-Safe :
      (a : FidlCodedArray)
      → f.state ≡ state_array a
      → Safe e (turns_left left (f ∷ rest)) (array_step e a f w)
  unfolding array_step
  array_step-Safe a q =
      let g = next_array_offset a f in
      let c = frame_of (e.types a.element) (u32 (f.offset + f.field)) in
      let h = Turn-Fits (state_array a) t q in
      if-Safe e t.typed (turns_left left (f ∷ rest)) (f.field == a.array_size) (pop (set_top g w))
        (push e Visitor.depth_array c (set_top g w)) (λ _. pop_top-Safe w g t)
        (λ more.
          push-Safe Visitor.depth_array w (set_top g w) g c t (set_top-frames f g rest w t.top)
            (omega (arith, set_top-storage g w))
            (next_array_offset-Fits e f a t.typed q h (ground (arith, more)))
            (next_array_offset-less (unclaimed e (set_top g w)) left e f a t.typed q h
              (ground (arith, more)))
            (child-Fits e a.element (f.offset + f.field) t.typed
              (element_inside e f a h (ground (arith, more)))))

  pub union_step-Safe :
      (u : FidlCodedUnion)
      → f.state ≡ state_union u
      → Safe e (turns_left left (f ∷ rest)) (union_step e u f w)
  unfolding union_step work
  union_step-Safe u q =
      let h = Turn-Fits (state_union u) t q in
      let turns = turns_left left (f ∷ rest) in
      with_word-Safe e t.typed turns 4 f.offset w
        (λ tag.
          if leb (length u.members) tag
          then fail e Visitor.bad_union_tag w
          else member_of (get_elem? u.members tag))
        (omega (arith, h.0, h.1.tagged, h.1.within))
        (λ tag.
          if-Safe e t.typed turns (leb (length u.members) tag) (fail e Visitor.bad_union_tag w)
            (member_of (get_elem? u.members tag))
            (λ _. fail-Safe e turns Visitor.bad_union_tag w t.typed)
            (λ known.
              get-Safe e t.typed turns u.members tag by_kind (ground (arith, known)) (λ member got.
                by_member member
                  (All-get (MemberFits e.types u.data_offset u.size) u.members tag member h.1.fit
                    got)
                  h.0 h.1.tagged)))
    where
      by_kind : Option ℕ → Walked
      by_kind o = elim o [
        | none ↦ pop w
        | some member ↦
            goes (set_top (frame_of (e.types member) (u32 (f.offset + u.data_offset))) w)
      ]

      member_of : Option (Option ℕ) → Walked
      member_of o = elim o [
        | none ↦ faults
        | some none ↦ pop w
        | some (some member) ↦
            goes (set_top (frame_of (e.types member) (u32 (f.offset + u.data_offset))) w)
      ]

      by_member :
          (o : Option ℕ)
          → MemberFits e.types u.data_offset u.size o
          → f.offset + u.size ≤ e.num_bytes
          → 4 ≤ u.data_offset
          → Safe e (turns_left left (f ∷ rest)) (by_kind o)
      by_member none m h k = pop-Safe w t
      by_member (some member) m h k =
          replace-Safe w (frame_of (e.types member) (u32 (f.offset + u.data_offset))) t
            (child-Fits e member (f.offset + u.data_offset) t.typed (omega (arith, m, h)))
            (rw q (
              member-less e.types (unclaimed e w) left (e.types member)
                (u32 (f.offset + u.data_offset)) u t.spent (t.typed.whole member)
                (omega (arith, m, k)) (omega (arith, m, k))))
