-- ===== src/Fidl/SafeTables.antt =====
-- The case of tables of the `switch` of pkg/fidl/buffer_walker.h, by the rules of Fidl/Safe.
use mathlib.Core.Path.{subst}
use fuchsia_sdk.Base.{
  ℕ, zero, suc, ◌+◌, ◌-◌, ◌*◌, ◌/◌, ◌%◌, ◌^◌, ◌≤◌, ◌<◌, ◌≡◌, ◌≢◌, refl, ◌∙◌, ◌||◌, Option, none,
  some, List, ◌∷◌, arith, ltb, leb, ◌==◌, if◌then◌else◌, Bool-cases, inl, inr,
}
use fuchsia_sdk.Fidl.Tables.{FidlTableField, u32, type_size}
use fuchsia_sdk.Fidl.Frames.{Frame, FrameState, TableState, TableVisit, state_table, frame_of}
use fuchsia_sdk.Fidl.Visitor
use fuchsia_sdk.Fidl.Visitor.{Message, Walker, Error}
use fuchsia_sdk.Fidl.Claims.{HandleClaim, claimed, exhausted, wild_pointer, claim_handle}
use fuchsia_sdk.Fidl.Stack.{
  Walked, goes, faults, pop, fail, push, set_top, claiming, by_pointer, with_word, updating,
}
use fuchsia_sdk.Fidl.Table.{
  table_step, table_vector_step, table_field_step, table_visit_step, envelope_step,
  envelope_contents, discard_handles, past_known, known_field,
}
use fuchsia_sdk.Fidl.Typed.{Fits, TableFits, VisitFits, TableStands, frame_of-Fits}
use fuchsia_sdk.Fidl.Work.{work, turns_left}
use fuchsia_sdk.Fidl.Safe.{
  Safe, Turn, Turn-Fits, Turn-same, unclaimed, set_top-frames, set_top-storage, pop-Safe,
  replace-Safe, push-Safe, goes-Safe, fail-Safe, if-Safe, with_word-Safe, by_pointer-Safe,
  claiming-Safe, updating-Safe,
}
use fuchsia_sdk.Fidl.SafeVectors.{HandleSafe, claim_handle-Safe}

-- Past a field, the table is at the next envelope.
next_envelope-Fits :
    (e : Message) (count offset n : ℕ)
    → TableStands e count offset (suc n)
    → n < count
    → TableFits e count offset (u32 (suc n + 1))
next_envelope-Fits e count offset n h l =
    let q : u32 (suc n + 1) ≡ suc (suc n) = omega (arith, h.few, l) in
    rw q (record { few = h.few; envelope = omega (arith, l); inside = h.inside })

next_envelope-less :
    (a b n field : ℕ) (t t' : TableState)
    → field ≡ suc n
    → t'.present_count ≡ t.present_count
    → t.present_count < 2 ^ 28
    → n < t.present_count
    → work a (state_table t') (u32 (field + 1)) < work b (state_table t) field
unfolding work
next_envelope-less a b n field t t' r c few l =
    let q : u32 (field + 1) ≡ suc (suc n) = omega (arith, few, l, r) in
    rw (q, r) (omega (arith, c, l))

VisitFits-set :
    (s : TableState) (field : ℕ) (v : TableVisit) → VisitFits (record s { visit = some v }) field
VisitFits-set s zero v = tt
VisitFits-set s (suc n) v = (v, refl)

-- The table's state once it is known where the objects of a field will end.
abbrev visited : TableState → TableVisit → ℕ → ℕ → TableState
visited s v offset handle = record s {
  visit = some (record v { end_offset = offset; end_handle = handle });
}

ends-less :
    (now bound : ℕ) (s : TableState) (field : ℕ) (v : TableVisit)
    → work now (state_table s) field < bound
    → work now (state_table (record s { visit = some v })) field < bound
unfolding work
ends-less now bound s zero v h = h
ends-less now bound s (suc n) v h = h

module _ (e : Message) (left : ℕ) (f : Frame) (rest : List Frame) (w : Walker)
    (t : Turn e left f rest w) where
  -- The frame of the table stands above the rest, with less work than at the start of the turn.
  record Moved (g : Frame) (w' : Walker) : Type 0 where
    here : w'.frames ≡ g ∷ rest
    grown : w.out_of_line_offset ≤ w'.out_of_line_offset
    fits : Fits e g.state g
    less : (now : ℕ) → work now g.state g.field < work left f.state f.field

  Moved-same :
      (g : Frame) (w' w'' : Walker)
      → Moved g w'
      → w''.frames ≡ w'.frames
      → w'.out_of_line_offset ≤ w''.out_of_line_offset
      → Moved g w''
  Moved-same g w' w'' m q h = record {
    here = q ∙ m.here;
    grown = omega (arith, m.grown, h);
    fits = m.fits;
    less = m.less;
  }

  Moved-Safe :
      (g : Frame) (w' : Walker) → Moved g w' → Safe e (turns_left left (f ∷ rest)) (goes w')
  Moved-Safe g w' m = goes-Safe w w' g t m.here m.grown m.fits (m.less (unclaimed e w'))

  discard_handles-Safe :
      (n : ℕ) (g : Frame) (w' : Walker)
      → Moved g w'
      → Safe e (turns_left left (f ∷ rest)) (discard_handles e n w')
  unfolding discard_handles
  discard_handles-Safe zero g w' m = Moved-Safe g w' m
  discard_handles-Safe (suc n) g w' m =
      by_claim (discard_handles-Safe n g) (claim_handle e none w')
        (claim_handle-Safe e none w' t.typed tt)
    where
      by_claim :
          ((x : Walker) → Moved g x → Safe e (turns_left left (f ∷ rest)) (discard_handles e n x))
          → (c : HandleClaim) → HandleSafe w' c
          → Safe e (turns_left left (f ∷ rest)) (elim c [
            | claimed x ↦ discard_handles e n x
            | exhausted x ↦ fail e Visitor.table_handle_missing x
            | wild_pointer ↦ faults
          ])
      by_claim ih (claimed x) i =
          ih x (Moved-same g w' x m i.same_frames (omega (arith, i.same_storage)))
      by_claim ih (exhausted x) i =
          fail-Safe e (turns_left left (f ∷ rest)) Visitor.table_handle_missing x t.typed
      by_claim ih wild_pointer i = absurd i

  envelope_contents-Safe :
      (known : Option FidlTableField) (d bytes handles : ℕ) (g : Frame) (w' : Walker)
      → d + 8 ≤ e.num_bytes
      → Moved g w'
      → Safe e (turns_left left (f ∷ rest)) (envelope_contents e known d bytes handles w')
  unfolding envelope_contents
  envelope_contents-Safe (some field) d bytes handles g w' here m =
      let kind = e.types field.kind in
      claiming-Safe e t.typed (turns_left left (f ∷ rest)) Visitor.table_field_too_large
        (type_size kind) (e.base + d) w'
        (λ offset x. updating e d offset x (push e Visitor.depth_table (frame_of kind offset)))
        (λ offset x there same grown inside.
          updating-Safe e t.typed (turns_left left (f ∷ rest)) d offset x
            (push e Visitor.depth_table (frame_of kind offset)) here
            (λ u still kept.
              let v = Moved-same g w' u m (still ∙ same) (omega (arith, grown, kept)) in
              push-Safe Visitor.depth_table w u g (frame_of kind offset) t v.here v.grown v.fits
                (v.less (unclaimed e u))
                (frame_of-Fits e kind offset (t.typed.whole field.kind) there)))
  envelope_contents-Safe none d bytes handles g w' here m =
      claiming-Safe e t.typed (turns_left left (f ∷ rest)) Visitor.table_field_too_large bytes
        (e.base + d) w' (λ offset x. updating e d offset x (discard_handles e handles))
        (λ offset x there same grown inside.
          updating-Safe e t.typed (turns_left left (f ∷ rest)) d offset x
            (discard_handles e handles) here
            (λ u still kept.
              discard_handles-Safe handles g u
                (Moved-same g w' u m (still ∙ same) (omega (arith, grown, kept)))))

  envelope_step-Safe :
      (s : TableState) (v : TableVisit) (known : Option FidlTableField) (g : Frame) (d packed : ℕ)
      (w' : Walker)
      → g.state ≡ state_table (record s { visit = some v })
      → d + 8 ≤ e.num_bytes
      → Moved g w'
      → Safe e (turns_left left (f ∷ rest)) (envelope_step e s v known g d packed w')
  unfolding envelope_step
  envelope_step-Safe s v known g d packed w' q here m =
      let turns = turns_left left (f ∷ rest) in
      let offset = w'.out_of_line_offset + packed % 2 ^ 32 in
      let handle = w'.handle_idx + packed / 2 ^ 32 in
      let g' = record g { state = state_table (visited s v offset handle) } in
      let inside =
        envelope_contents e known d (packed % 2 ^ 32) (packed / 2 ^ 32) (set_top g' w') in
      if-Safe e t.typed turns (leb (2 ^ 32) offset || ltb e.num_bytes offset)
        (fail e Visitor.table_field_overflow w')
        (if leb (2 ^ 32) handle || ltb e.num_handles handle
          then fail e Visitor.table_handles_overflow w'
          else inside)
        (λ _. fail-Safe e turns Visitor.table_field_overflow w' t.typed)
        (λ _.
          if-Safe e t.typed turns (leb (2 ^ 32) handle || ltb e.num_handles handle)
            (fail e Visitor.table_handles_overflow w') inside
            (λ _. fail-Safe e turns Visitor.table_handles_overflow w' t.typed)
            (λ _.
              envelope_contents-Safe known d (packed % 2 ^ 32) (packed / 2 ^ 32) g' (set_top g' w')
                here (with_ends offset handle)))
    where
      with_ends :
          (offset handle : ℕ)
          → Moved
              (record g { state = state_table (visited s v offset handle) })
              (set_top (record g { state = state_table (visited s v offset handle) }) w')
      with_ends offset handle =
          let g' = record g { state = state_table (visited s v offset handle) } in
          record {
            here = set_top-frames g g' rest w' m.here;
            grown = omega (arith, m.grown, set_top-storage g' w');
            fits =
                let h : Fits e (state_table (record s { visit = some v })) g =
                  subst (λ (x : FrameState). Fits e x g) q m.fits in
                (
                  h.0,
                  VisitFits-set s g.field (record v { end_offset = offset; end_handle = handle }),
                );
            less = λ now.
                ends-less now (work left f.state f.field) (record s { visit = some v }) g.field
                  (record v { end_offset = offset; end_handle = handle })
                  (subst (λ (x : FrameState). work now x g.field < work left f.state f.field) q
                    (m.less now));
          }

  table_field_step-Safe :
      (s : TableState) (v : TableVisit) (n : ℕ)
      → f.state ≡ state_table s
      → f.field ≡ suc n
      → n < s.present_count
      → Safe e (turns_left left (f ∷ rest)) (table_field_step e s v f w)
  unfolding table_field_step
  table_field_step-Safe s v n q r l =
      let known = known_field s v f.field in
      let v' = past_known known v in
      let s' = record s { visit = some v' } in
      let f' = record f { state = state_table s'; field = u32 (f.field + 1) } in
      let tag_offset = u32 (f.offset + (f.field - 1) * 16) in
      let d = u32 (tag_offset + 8) in
      let w' = set_top f' w in
      let turns = turns_left left (f ∷ rest) in
      let h : TableStands e s.present_count f.offset (suc n) =
        subst (λ (x : ℕ). TableFits e s.present_count f.offset x) r
          (Turn-Fits (state_table s) t q).0 in
      let m : Moved f' w' = record {
        here = set_top-frames f f' rest w t.top;
        grown = omega (arith, set_top-storage f' w);
        fits = (
          rw r (next_envelope-Fits e s.present_count f.offset n h l),
          VisitFits-set s (u32 (f.field + 1)) v',
        );
        less = λ now. rw q (next_envelope-less now left n f.field s s' r refl h.few l);
      } in
      with_word-Safe e t.typed turns 8 tag_offset w
        (λ packed.
          by_pointer e d w
            (λ _.
              if packed == 0
              then fail e Visitor.envelope_present_empty w'
              else envelope_step e s v' known f' d packed w')
            (λ _. if packed == 0 then goes w' else fail e Visitor.envelope_absent_full w')
            (λ _. fail e Visitor.envelope_bad w'))
        (omega (arith, r, l, h.inside, t.typed.small))
        (λ packed.
          by_pointer-Safe e t.typed turns d w
            (λ _.
              if packed == 0
              then fail e Visitor.envelope_present_empty w'
              else envelope_step e s v' known f' d packed w')
            (λ _. if packed == 0 then goes w' else fail e Visitor.envelope_absent_full w')
            (λ _. fail e Visitor.envelope_bad w') (omega (arith, r, l, h.inside, t.typed.small))
            (λ _.
              if-Safe e t.typed turns (packed == 0) (fail e Visitor.envelope_present_empty w')
                (envelope_step e s v' known f' d packed w')
                (λ _. fail-Safe e turns Visitor.envelope_present_empty w' t.typed)
                (λ _.
                  envelope_step-Safe s v' known f' d packed w' refl
                    (omega (arith, r, l, h.inside, t.typed.small)) m))
            (λ _.
              if-Safe e t.typed turns (packed == 0) (goes w')
                (fail e Visitor.envelope_absent_full w') (λ _. Moved-Safe f' w' m)
                (λ _. fail-Safe e turns Visitor.envelope_absent_full w' t.typed))
            (λ _. fail-Safe e turns Visitor.envelope_bad w' t.typed))

  table_vector_step-Safe :
      (s : TableState)
      → f.state ≡ state_table s
      → f.field ≡ 0
      → Safe e (turns_left left (f ∷ rest)) (table_vector_step e s f w)
  unfolding table_vector_step work
  table_vector_step-Safe s q z =
      let h : f.offset + 16 ≤ e.num_bytes =
        subst (λ (x : ℕ). TableFits e s.present_count f.offset x) z
          (Turn-Fits (state_table s) t q).0 in
      by_pointer-Safe e t.typed turns (f.offset + 8) w (λ p. with_word e 8 f.offset w (sized p))
        (λ _. fail e Visitor.table_absent w) (λ _. fail e Visitor.bad_table_vector w)
        (omega (arith, h))
        (λ p. with_word-Safe e t.typed turns 8 f.offset w (sized p) (omega (arith, h)) (λ count.
          if-Safe e t.typed turns (leb (2 ^ 32) (count * 16)) (fail e Visitor.table_size_overflow w)
            (claiming e Visitor.table_too_large (count * 16) p w (first_field count))
            (λ _. fail-Safe e turns Visitor.table_size_overflow w t.typed)
            (λ fits.
              claiming-Safe e t.typed turns Visitor.table_too_large (count * 16) p w
                (first_field count)
                (λ offset w' there same grown inside.
                  started (omega (arith, h)) count offset w' there same (omega (arith, grown))
                    (ground (arith, fits))))))
        (λ _. fail-Safe e turns Visitor.table_absent w t.typed)
        (λ _. fail-Safe e turns Visitor.bad_table_vector w t.typed)
    where
      turns : ℕ
      turns = turns_left left (f ∷ rest)

      field_frame : ℕ → ℕ → Walker → Frame
      field_frame count offset w' = record {
        state = state_table (record s {
          present_count = u32 count;
          visit = some (record {
            known_index = 0;
            end_offset = w'.out_of_line_offset;
            end_handle = w'.handle_idx;
          });
        });
        offset = offset;
        field = 1;
      }

      first_field : ℕ → ℕ → Walker → Walked
      first_field count offset w' =
          updating e (f.offset + 8) offset w'
            λ w''. goes (set_top (field_frame count offset w') w'')

      sized : ℕ → ℕ → Walked
      sized p count =
          if leb (2 ^ 32) (count * 16)
          then fail e Visitor.table_size_overflow w
          else claiming e Visitor.table_too_large (count * 16) p w (first_field count)

      started :
          f.offset + 8 + 8 ≤ e.num_bytes
          → (count offset : ℕ) (w' : Walker) → offset + count * 16 ≤ e.num_bytes
          → w'.frames ≡ w.frames
          → w.out_of_line_offset ≤ w'.out_of_line_offset
          → count * 16 < 2 ^ 32
          → Safe e turns (first_field count offset w')
      started here count offset w' there same grown few =
          updating-Safe e t.typed turns (f.offset + 8) offset w'
            (λ w''. goes (set_top (field_frame count offset w') w'')) here
            (λ w'' still kept.
              replace-Safe w'' (field_frame count offset w')
                (Turn-same t (still ∙ same) (omega (arith, grown, kept)))
                (
                  record {
                    few = omega (arith, few);
                    envelope = omega arith;
                    inside = omega (arith, there, few);
                  },
                  VisitFits-set s 1 (record {
                    known_index = 0;
                    end_offset = w'.out_of_line_offset;
                    end_handle = w'.handle_idx;
                  }),
                )
                (rw (q, z) (omega (arith, few))))

  table_visit_step-Safe :
      (s : TableState) (v : TableVisit)
      → f.state ≡ state_table s
      → f.field ≢ 0
      → Safe e (turns_left left (f ∷ rest)) (table_visit_step e s v f w)
  unfolding table_visit_step
  table_visit_step-Safe s v q later = elim (Bool-cases (v.end_offset == w.out_of_line_offset)) [
    | inr off ↦ rw off (fail-Safe e turns Visitor.table_missized w t.typed)
    | inl on ↦ elim (Bool-cases (v.end_handle == w.handle_idx)) [
      | inr off ↦ rw (on, off) (fail-Safe e turns Visitor.table_handles_missized w t.typed)
      | inl even ↦
          rw (on, even)
            (if-Safe e t.typed turns (ltb s.present_count f.field) (pop w)
              (table_field_step e s v f w) (λ _. pop-Safe w t)
              (λ present.
                table_field_step-Safe s v (f.field - 1) q (omega (arith, later))
                  (ground (arith, later, present))))
    ]
  ]
    where
      turns : ℕ
      turns = turns_left left (f ∷ rest)

  pub table_step-Safe :
      (s : TableState)
      → f.state ≡ state_table s
      → Safe e (turns_left left (f ∷ rest)) (table_step e s f w)
  unfolding table_step
  table_step-Safe s q =
      if-Safe e t.typed (turns_left left (f ∷ rest)) (f.field == 0) (table_vector_step e s f w)
        (elim s.visit [ none ↦ faults | some v ↦ table_visit_step e s v f w ])
        (λ first. table_vector_step-Safe s q (ground (arith, first)))
        (λ later.
          let (v, set) =
            is_visited f.field (ground (arith, later)) (Turn-Fits (state_table s) t q).1 in
          rw set (table_visit_step-Safe s v q (ground (arith, later))))
    where
      is_visited : (n : ℕ) → n ≢ 0 → VisitFits s n → (v : TableVisit) × (s.visit ≡ some v)
      is_visited zero h i = absurd (h refl)
      is_visited (suc n) h i = i
