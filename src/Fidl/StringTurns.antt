-- ===== src/Fidl/StringTurns.antt =====
-- The cases of strings, handles and vectors, and of the end of a walk, of the `switch` of
-- pkg/fidl/buffer_walker.h, by the rules of Fidl/Rules.
use fuchsia_sdk.Base.{
  ℕ, ◌+◌, ◌*◌, ◌^◌, Bool, Option, none, some, arith, ltb, leb, ◌==◌, if◌then◌else◌, Bool-cases, inl,
  inr,
}
use fuchsia_sdk.Fidl.Tables.{FidlCodedString, FidlCodedVector, u32}
use fuchsia_sdk.Fidl.Frames.{Frame, frame_of_array}
use fuchsia_sdk.Fidl.Visitor
use fuchsia_sdk.Fidl.Visitor.{
  Message, Walker, Error, PointerState, present, absent, invalid, set_error, get_handle_state,
}
use fuchsia_sdk.Fidl.Claims.{claimed, exhausted, wild_pointer, claim_handle}
use fuchsia_sdk.Fidl.Stack.{
  Walked, goes, faults, pop, fail, set_top, by_pointer, claiming, updating,
}
use fuchsia_sdk.Fidl.Steps.{string_step, handle_step, vector_step, done_step}
use fuchsia_sdk.Fidl.Rules.{
  Leads, IsKept, pop-Leads, fail-Leads, if-Leads, with_word-Leads, by_pointer-Leads, claiming-Leads,
  updating-Leads, claim_handle-Leads,
}

module _ (e : Message) (P Q : Walker → Type 0) (kept : IsKept e P Q) where
  pub string_step-Leads :
      (s : FidlCodedString) (f : Frame) (w : Walker) → P w → Leads P Q (string_step e s f w)
  unfolding string_step
  string_step-Leads s f w p =
      with_word-Leads e P Q kept 8 f.offset w (λ size. body size)
        λ size.
          by_pointer-Leads e P Q kept (f.offset + 8) w (given size) (λ _. missing size)
            (λ _. fail e Visitor.bad_string w)
            (λ v.
              if-Leads e P Q kept (ltb s.max_size size) (fail e Visitor.string_over_bound w)
                (claiming e Visitor.string_too_large (u32 size) v w
                  λ offset w'. updating e (f.offset + 8) offset w' pop)
                (fail-Leads e P Q kept Visitor.string_over_bound w p)
                (claiming-Leads e P Q kept Visitor.string_too_large (u32 size) v w
                  (λ offset w'. updating e (f.offset + 8) offset w' pop) p
                  (λ offset w' p'.
                    updating-Leads e P Q kept (f.offset + 8) offset w' pop p'
                      (pop-Leads e P Q kept))))
            (λ v.
              if-Leads e P Q kept s.nullable
                (if size == 0 then pop w else fail e Visitor.string_absent_nonempty w)
                (fail e Visitor.string_absent w)
                (if-Leads e P Q kept (size == 0) (pop w) (fail e Visitor.string_absent_nonempty w)
                  (pop-Leads e P Q kept w p)
                  (fail-Leads e P Q kept Visitor.string_absent_nonempty w p))
                (fail-Leads e P Q kept Visitor.string_absent w p))
            (λ v. fail-Leads e P Q kept Visitor.bad_string w p)
    where
      given : ℕ → ℕ → Walked
      given size v =
          if ltb s.max_size size
          then fail e Visitor.string_over_bound w
          else claiming e Visitor.string_too_large (u32 size) v w
              λ offset w'. updating e (f.offset + 8) offset w' pop

      missing : ℕ → Walked
      missing size =
          if s.nullable
          then if size == 0 then pop w else fail e Visitor.string_absent_nonempty w
          else fail e Visitor.string_absent w

      body : ℕ → Walked
      body size =
          by_pointer e (f.offset + 8) w (given size) (λ _. missing size)
            (λ _. fail e Visitor.bad_string w)

  pub handle_step-Leads :
      (nullable : Bool) (f : Frame) (w : Walker) → P w → Leads P Q (handle_step e nullable f w)
  unfolding handle_step
  handle_step-Leads nullable f w p =
      with_word-Leads e P Q kept 4 f.offset w (λ v. body (get_handle_state e.mode v))
        (λ v. by_state (get_handle_state e.mode v))
    where
      body : PointerState → Walked
      body s = elim s [
        | absent ↦ if nullable then pop w else fail e Visitor.handle_missing w
        | present ↦ elim (claim_handle e (some f.offset) w) [
          | claimed w' ↦ pop w'
          | exhausted w' ↦ fail e Visitor.too_many_handles w'
          | wild_pointer ↦ faults
        ]
        | invalid ↦ fail e Visitor.garbage_handle w
      ]

      by_state : (s : PointerState) → Leads P Q (body s)
      by_state absent =
          if-Leads e P Q kept nullable (pop w) (fail e Visitor.handle_missing w)
            (pop-Leads e P Q kept w p) (fail-Leads e P Q kept Visitor.handle_missing w p)
      by_state present =
          claim_handle-Leads e P Q kept Visitor.too_many_handles (some f.offset) w pop p
            (λ w' p'. pop-Leads e P Q kept w' p')
      by_state invalid = fail-Leads e P Q kept Visitor.garbage_handle w p

  pub vector_step-Leads :
      (v : FidlCodedVector) (f : Frame) (w : Walker) → P w → Leads P Q (vector_step e v f w)
  unfolding vector_step
  vector_step-Leads v f w p =
      with_word-Leads e P Q kept 8 f.offset w (λ count. body count)
        λ count.
          by_pointer-Leads e P Q kept (f.offset + 8) w (given count) (λ _. missing count)
            (λ _. fail e Visitor.bad_vector w)
            (λ s.
              if-Leads e P Q kept (ltb v.max_count count) (fail e Visitor.vector_over_bound w)
                (sized count s) (fail-Leads e P Q kept Visitor.vector_over_bound w p)
                (if-Leads e P Q kept (leb (2 ^ 32) (count * v.element_size))
                  (fail e Visitor.vector_size_overflow w)
                  (claiming e Visitor.vector_too_large (count * v.element_size) s w
                    (elements count))
                  (fail-Leads e P Q kept Visitor.vector_size_overflow w p)
                  (claiming-Leads e P Q kept Visitor.vector_too_large (count * v.element_size) s w
                    (elements count) p
                    (λ offset w' p'.
                      updating-Leads e P Q kept (f.offset + 8) offset w'
                        (λ w''. as_array count offset w'' v.element) p'
                        (λ w'' p''. by_element count offset w'' p'' v.element)))))
            (λ s.
              if-Leads e P Q kept v.nullable
                (if count == 0 then pop w else fail e Visitor.vector_absent_nonempty w)
                (fail e Visitor.vector_absent w)
                (if-Leads e P Q kept (count == 0) (pop w) (fail e Visitor.vector_absent_nonempty w)
                  (pop-Leads e P Q kept w p)
                  (fail-Leads e P Q kept Visitor.vector_absent_nonempty w p))
                (fail-Leads e P Q kept Visitor.vector_absent w p))
            (λ s. fail-Leads e P Q kept Visitor.bad_vector w p)
    where
      as_array : ℕ → ℕ → Walker → Option ℕ → Walked
      as_array count offset w'' o = elim o [
        | none ↦ pop w''
        | some element ↦
            goes
              (set_top (frame_of_array element (count * v.element_size) v.element_size offset) w'')
      ]

      elements : ℕ → ℕ → Walker → Walked
      elements count offset w' =
          updating e (f.offset + 8) offset w' λ w''. as_array count offset w'' v.element

      sized : ℕ → ℕ → Walked
      sized count s =
          if leb (2 ^ 32) (count * v.element_size)
          then fail e Visitor.vector_size_overflow w
          else claiming e Visitor.vector_too_large (count * v.element_size) s w (elements count)

      given : ℕ → ℕ → Walked
      given count s =
          if ltb v.max_count count then fail e Visitor.vector_over_bound w else sized count s

      missing : ℕ → Walked
      missing count =
          if v.nullable
          then if count == 0 then pop w else fail e Visitor.vector_absent_nonempty w
          else fail e Visitor.vector_absent w

      body : ℕ → Walked
      body count =
          by_pointer e (f.offset + 8) w (given count) (λ _. missing count)
            (λ _. fail e Visitor.bad_vector w)

      by_element :
          (count offset : ℕ) (w'' : Walker)
          → P w''
          → (o : Option ℕ) → Leads P Q (as_array count offset w'' o)
      by_element count offset w'' p'' none = pop-Leads e P Q kept w'' p''
      by_element count offset w'' p'' (some element) =
          kept.at_top (frame_of_array element (count * v.element_size) v.element_size offset) w''
            p''

  pub done_step-Leads : (w : Walker) → P w → Leads P Q (done_step e w)
  unfolding done_step
  done_step-Leads w p = elim (Bool-cases (w.out_of_line_offset == e.num_bytes)) [
    | inl all ↦ rw all (kept.finished w (ground arith) p)
    | inr some_left ↦ rw some_left (kept.failed Visitor.undecoded_bytes w p)
  ]
