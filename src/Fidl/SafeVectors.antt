-- ===== src/Fidl/SafeVectors.antt =====
-- The cases of strings, handles and vectors, and of the end of a walk, of the `switch` of
-- pkg/fidl/buffer_walker.h, by the rules of Fidl/Safe.
use fuchsia_sdk.Base.{
  ℕ, ◌+◌, ◌*◌, ◌^◌, ◌≤◌, ◌<◌, ◌≡◌, refl, ◌∙◌, Bool, true, false, Option, none, some, List, ◌∷◌,
  arith, ltb, leb, ◌==◌, if◌then◌else◌, Bool-cases, inl, inr,
}
use fuchsia_sdk.Fidl.Tables.{FidlCodedString, FidlCodedVector, u32, type_size}
use fuchsia_sdk.Fidl.Frames.{Frame, state_string, state_handle, state_vector, frame_of_array}
use fuchsia_sdk.Fidl.Visitor
use fuchsia_sdk.Fidl.Visitor.{
  Mode, validator, encoder, decoder, Message, Walker, Error, set_error, get_handle_state,
  PointerState, present, absent, invalid, continue_after_errors,
}
use fuchsia_sdk.Fidl.Claims.{
  HandleClaim, claimed, exhausted, wild_pointer, claim_handle, claimed_handle, unclaimed_handle,
}
use fuchsia_sdk.Fidl.Stack.{
  Walked, goes, faults, pop, fail, set_top, claiming, by_pointer, updating,
}
use fuchsia_sdk.Fidl.Steps.{string_step, handle_step, vector_step, done_step}
use fuchsia_sdk.Fidl.Typed.{IsTyped, frame_of_array-Fits}
use fuchsia_sdk.Fidl.Work.{work, turns_left}
use fuchsia_sdk.Fidl.Safe.{
  Safe, Turn, Turn-Fits, Turn-same, unclaimed, pop-Safe, replace-Safe, fail-Safe, if-Safe,
  with_word-Safe, by_pointer-Safe, claiming-Safe, updating-Safe,
}

-- Claiming a handle that stands in the message, or in no place of it, leaves the stack and the
-- storage alone and writes inside of the message.
pub record Handled (w w' : Walker) : Type 0 where
  pub same_frames : w'.frames ≡ w.frames
  pub same_storage : w'.out_of_line_offset ≡ w.out_of_line_offset

abbrev pub HandleSafe : Walker → HandleClaim → Type 0
HandleSafe w (claimed w') = Handled w w'
HandleSafe w (exhausted w') = Unit
HandleSafe w wild_pointer = ⊥

abbrev pub InMessage : Message → Option ℕ → Type 0
InMessage e none = Unit
InMessage e (some p) = p + 4 ≤ e.num_bytes

pub claim_handle-Safe :
    (e : Message) (p : Option ℕ) (w : Walker)
    → IsTyped e
    → InMessage e p
    → HandleSafe w (claim_handle e p w)
unfolding claim_handle
claim_handle-Safe e p w t h = elim (Bool-cases (w.handle_idx == e.num_handles)) [
  | inl no_more ↦ rw no_more (by_mode e.mode p t.stops_at_errors)
  | inr more ↦ rw more (with_more e.mode p t.stops_at_errors h)
]
  where
    by_mode :
        (m : Mode) (p : Option ℕ)
        → continue_after_errors m ≡ false
        → HandleSafe w (unclaimed_handle m p w)
    by_mode validator p q = tt
    by_mode decoder p q = tt
    by_mode encoder p q = cc

    with_more :
        (m : Mode) (p : Option ℕ)
        → continue_after_errors m ≡ false
        → InMessage e p
        → HandleSafe w (claimed_handle e m p w)
    with_more validator p q i = record { same_frames = refl; same_storage = refl }
    with_more decoder none q i = record { same_frames = refl; same_storage = refl }
    with_more decoder (some x) q i =
        let b : leb (x + 4) e.num_bytes ≡ true = ground (arith, i) in
        rw b (record { same_frames = refl; same_storage = refl })
    with_more encoder p q i = cc

array-less :
    (a b element count element_size offset : ℕ) (v : FidlCodedVector)
    → count * element_size < 2 ^ 32
    → work a
        (frame_of_array element (count * element_size) element_size offset).state
        (frame_of_array element (count * element_size) element_size offset).field
      < work b (state_vector v) 0
unfolding work frame_of_array
array-less a b element count element_size offset v few = omega (arith, few)

module _ (e : Message) (left : ℕ) (f : Frame) (rest : List Frame) (w : Walker)
    (t : Turn e left f rest w) where
  -- A handle is claimed, and the walk goes on or fails.
  pub by_handle-Safe :
      (err : Error) (p : Option ℕ) (k : Walker → Walked)
      → InMessage e p
      → ((w' : Walker) → Turn e left f rest w' → Safe e (turns_left left (f ∷ rest)) (k w'))
      → Safe e (turns_left left (f ∷ rest)) (elim (claim_handle e p w) [
        | claimed w' ↦ k w'
        | exhausted w' ↦ fail e err w'
        | wild_pointer ↦ faults
      ])
  by_handle-Safe err p k here h =
      by_claim (claim_handle e p w) (claim_handle-Safe e p w t.typed here)
    where
      by_claim :
          (c : HandleClaim)
          → HandleSafe w c
          → Safe e
              (turns_left left (f ∷ rest))
              (elim c [ claimed w' ↦ k w' | exhausted w' ↦ fail e err w' | wild_pointer ↦ faults ])
      by_claim (claimed w') i = h w' (Turn-same t i.same_frames (omega (arith, i.same_storage)))
      by_claim (exhausted w') i = fail-Safe e (turns_left left (f ∷ rest)) err w' t.typed
      by_claim wild_pointer i = absurd i

  pub handle_step-Safe :
      (nullable : Bool)
      → f.state ≡ state_handle nullable
      → Safe e (turns_left left (f ∷ rest)) (handle_step e nullable f w)
  unfolding handle_step
  handle_step-Safe nullable q =
      with_word-Safe e t.typed turns 4 f.offset w (λ v. body (get_handle_state e.mode v))
        (Turn-Fits (state_handle nullable) t q) (λ v. by_state (get_handle_state e.mode v))
    where
      turns : ℕ
      turns = turns_left left (f ∷ rest)

      body : PointerState → Walked
      body s = elim s [
        | absent ↦ if nullable then pop w else fail e Visitor.handle_missing w
        | present ↦ elim (claim_handle e (some f.offset) w) [
          | claimed w' ↦ pop w'
          | exhausted w' ↦ fail e Visitor.too_many_handles w'
          | wild_pointer ↦ faults
        ]
        | invalid ↦ fail e Visitor.garbage_handle w
      ]

      by_state : (s : PointerState) → Safe e turns (body s)
      by_state absent =
          if-Safe e t.typed turns nullable (pop w) (fail e Visitor.handle_missing w)
            (λ _. pop-Safe w t) (λ _. fail-Safe e turns Visitor.handle_missing w t.typed)
      by_state present =
          by_handle-Safe Visitor.too_many_handles (some f.offset) pop
            (Turn-Fits (state_handle nullable) t q) pop-Safe
      by_state invalid = fail-Safe e turns Visitor.garbage_handle w t.typed

  -- What a null pointer of a string or a vector leads to.
  absent-Safe :
      (nullable : Bool) (full missing : Error) (count : ℕ)
      → Safe e
          (turns_left left (f ∷ rest))
          (if nullable then if count == 0 then pop w else fail e full w else fail e missing w)
  absent-Safe nullable full missing count =
      let turns = turns_left left (f ∷ rest) in
      if-Safe e t.typed turns nullable (if count == 0 then pop w else fail e full w)
        (fail e missing w)
        (λ _.
          if-Safe e t.typed turns (count == 0) (pop w) (fail e full w) (λ _. pop-Safe w t)
            (λ _. fail-Safe e turns full w t.typed))
        (λ _. fail-Safe e turns missing w t.typed)

  pub string_step-Safe :
      (s : FidlCodedString)
      → f.state ≡ state_string s
      → Safe e (turns_left left (f ∷ rest)) (string_step e s f w)
  unfolding string_step
  string_step-Safe s q =
      let h = Turn-Fits (state_string s) t q in
      with_word-Safe e t.typed turns 8 f.offset w body (omega (arith, h)) (λ size.
        by_pointer-Safe e t.typed turns (f.offset + 8) w (given size) (λ _. missing size)
          (λ _. fail e Visitor.bad_string w) (omega (arith, h))
          (λ v.
            if-Safe e t.typed turns (ltb s.max_size size) (fail e Visitor.string_over_bound w)
              (claiming e Visitor.string_too_large (u32 size) v w kept)
              (λ _. fail-Safe e turns Visitor.string_over_bound w t.typed)
              (λ _.
                claiming-Safe e t.typed turns Visitor.string_too_large (u32 size) v w kept
                  (λ offset w' there same grown inside.
                    claimed_string (omega (arith, h)) offset w' same (omega (arith, grown)))))
          (λ _. absent-Safe s.nullable Visitor.string_absent_nonempty Visitor.string_absent size)
          (λ _. fail-Safe e turns Visitor.bad_string w t.typed))
    where
      turns : ℕ
      turns = turns_left left (f ∷ rest)

      kept : ℕ → Walker → Walked
      kept offset w' = updating e (f.offset + 8) offset w' pop

      given : ℕ → ℕ → Walked
      given size v =
          if ltb s.max_size size
          then fail e Visitor.string_over_bound w
          else claiming e Visitor.string_too_large (u32 size) v w kept

      missing : ℕ → Walked
      missing size =
          if s.nullable
          then if size == 0 then pop w else fail e Visitor.string_absent_nonempty w
          else fail e Visitor.string_absent w

      body : ℕ → Walked
      body size =
          by_pointer e (f.offset + 8) w (given size) (λ _. missing size)
            (λ _. fail e Visitor.bad_string w)

      claimed_string :
          f.offset + 8 + 8 ≤ e.num_bytes
          → (offset : ℕ) (w' : Walker) → w'.frames ≡ w.frames
          → w.out_of_line_offset ≤ w'.out_of_line_offset
          → Safe e turns (kept offset w')
      claimed_string here offset w' same grown =
          updating-Safe e t.typed turns (f.offset + 8) offset w' pop here (λ w'' still kept.
            pop-Safe w'' (Turn-same t (still ∙ same) (omega (arith, grown, kept))))

  pub vector_step-Safe :
      (v : FidlCodedVector)
      → f.state ≡ state_vector v
      → Safe e (turns_left left (f ∷ rest)) (vector_step e v f w)
  unfolding vector_step work
  vector_step-Safe v q =
      let h = Turn-Fits (state_vector v) t q in
      with_word-Safe e t.typed turns 8 f.offset w body (omega (arith, h.0)) (λ count.
        by_pointer-Safe e t.typed turns (f.offset + 8) w (given count) (λ _. missing count)
          (λ _. fail e Visitor.bad_vector w) (omega (arith, h.0))
          (λ p.
            if-Safe e t.typed turns (ltb v.max_count count) (fail e Visitor.vector_over_bound w)
              (sized count p) (λ _. fail-Safe e turns Visitor.vector_over_bound w t.typed)
              (λ _.
                if-Safe e t.typed turns (leb (2 ^ 32) (count * v.element_size))
                  (fail e Visitor.vector_size_overflow w)
                  (claiming e Visitor.vector_too_large (count * v.element_size) p w
                    (elements count))
                  (λ _. fail-Safe e turns Visitor.vector_size_overflow w t.typed)
                  (λ fits.
                    claiming-Safe e t.typed turns Visitor.vector_too_large (count * v.element_size)
                      p w (elements count)
                      (λ offset w' there same grown inside.
                        updating-Safe e t.typed turns (f.offset + 8) offset w'
                          (λ w''. as_array count offset w'' v.element) (omega (arith, h.0))
                          (λ w'' still kept.
                            by_element count offset w''
                              (Turn-same t (still ∙ same) (omega (arith, grown, kept))) there
                              (ground (arith, fits)) v.element h.1)))))
          (λ _. absent-Safe v.nullable Visitor.vector_absent_nonempty Visitor.vector_absent count)
          (λ _. fail-Safe e turns Visitor.bad_vector w t.typed))
    where
      turns : ℕ
      turns = turns_left left (f ∷ rest)

      as_array : ℕ → ℕ → Walker → Option ℕ → Walked
      as_array count offset w'' o = elim o [
        | none ↦ pop w''
        | some element ↦
            goes
              (set_top (frame_of_array element (count * v.element_size) v.element_size offset) w'')
      ]

      elements : ℕ → ℕ → Walker → Walked
      elements count offset w' =
          updating e (f.offset + 8) offset w' λ w''. as_array count offset w'' v.element

      sized : ℕ → ℕ → Walked
      sized count p =
          if leb (2 ^ 32) (count * v.element_size)
          then fail e Visitor.vector_size_overflow w
          else claiming e Visitor.vector_too_large (count * v.element_size) p w (elements count)

      given : ℕ → ℕ → Walked
      given count p =
          if ltb v.max_count count then fail e Visitor.vector_over_bound w else sized count p

      missing : ℕ → Walked
      missing count =
          if v.nullable
          then if count == 0 then pop w else fail e Visitor.vector_absent_nonempty w
          else fail e Visitor.vector_absent w

      body : ℕ → Walked
      body count =
          by_pointer e (f.offset + 8) w (given count) (λ _. missing count)
            (λ _. fail e Visitor.bad_vector w)

      by_element :
          (count offset : ℕ) (w'' : Walker)
          → Turn e left f rest w''
          → offset + count * v.element_size ≤ e.num_bytes
          → count * v.element_size < 2 ^ 32
          → (o : Option ℕ)
          → (elim o as (λ _. Type 0) [
            | none ↦ Unit {0}
            | some element ↦ v.element_size ≡ type_size (e.types element)
          ])
          → Safe e turns (as_array count offset w'' o)
      by_element count offset w'' u there few none whole = pop-Safe w'' u
      by_element count offset w'' u there few (some element) whole =
          replace-Safe w'' (frame_of_array element (count * v.element_size) v.element_size offset) u
            (frame_of_array-Fits e element count v.element_size offset whole there)
            (rw q (array-less (unclaimed e w'') left element count v.element_size offset v few))

pub done_step-Safe : (e : Message) (turns : ℕ) (w : Walker) → Safe e turns (done_step e w)
unfolding done_step
done_step-Safe e turns w = elim (Bool-cases (w.out_of_line_offset == e.num_bytes)) [
  | inl all ↦ rw all tt
  | inr some_left ↦ rw some_left tt
]
