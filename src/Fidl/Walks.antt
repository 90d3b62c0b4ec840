-- ===== src/Fidl/Walks.antt =====
-- Every turn of the loop of pkg/fidl/buffer_walker.h, and a whole walk, by the rules of
-- Fidl/Rules.
use fuchsia_sdk.Base.{
  arith, Bool-cases, inr, inl, ◌≤◌, ℕ, zero, suc, Option, none, some, List, [], ◌∷◌, ltb, ◌==◌,
  if◌then◌else◌,
}
use fuchsia_sdk.Fidl.Tables.{u32}
use fuchsia_sdk.Fidl.Frames.{
  Frame, FrameState, state_struct, state_struct_pointer, state_table, state_table_pointer,
  state_union, state_union_pointer, state_array, state_string, state_handle, state_vector,
  state_done, frame_of, frame_of_struct, frame_of_table, frame_of_union,
}
use fuchsia_sdk.Fidl.Visitor
use fuchsia_sdk.Fidl.Visitor.{
  Message, Walker, Error, PointerState, present, absent, invalid, update_pointer, set_error,
  get_handle_state,
}
use fuchsia_sdk.Fidl.Stack.{Walked, goes, stops, faults}
use fuchsia_sdk.Fidl.Steps.{struct_pointer_step, table_pointer_step, union_pointer_step}
use fuchsia_sdk.Fidl.Walk.{frame_step, step, walk_loop}
use fuchsia_sdk.Fidl.Rules.{Leads, IsKept, if-Leads}
use fuchsia_sdk.Fidl.Turns.{struct_step-Leads, pointer-Leads, union_step-Leads, array_step-Leads}
use fuchsia_sdk.Fidl.StringTurns.{
  string_step-Leads, handle_step-Leads, vector_step-Leads, done_step-Leads,
}
use fuchsia_sdk.Fidl.TableTurns.{table_step-Leads}
use fuchsia_sdk.Fidl.Tables.{
  FidlType, fidl_align, coded_struct, coded_table, coded_struct_pointer, coded_table_pointer,
  coded_union, coded_union_pointer, coded_array, coded_string, coded_handle, coded_vector,
}
use fuchsia_sdk.Fidl.Frames.{done_sentinel}
use fuchsia_sdk.Fidl.Walk.{walk, start, start_at, start_type}

module _ (e : Message) (P Q : Walker → Type 0) (kept : IsKept e P Q) where
  frame_step-Leads :
      (s : FrameState) (f : Frame) (w : Walker) → P w → Leads P Q (frame_step e s f w)
  unfolding frame_step struct_pointer_step table_pointer_step union_pointer_step
  frame_step-Leads (state_struct s) f w p = struct_step-Leads e P Q kept s f w p
  frame_step-Leads (state_struct_pointer s) f w p =
      pointer-Leads e P Q kept f w Visitor.struct_too_large Visitor.bad_struct_pointer s.size
        (frame_of_struct s) p
  frame_step-Leads (state_table t) f w p = table_step-Leads e P Q kept t f w p
  frame_step-Leads (state_table_pointer t) f w p =
      pointer-Leads e P Q kept f w Visitor.nullable_table_too_large Visitor.bad_table_pointer 16
        (frame_of_table t) p
  frame_step-Leads (state_union u) f w p = union_step-Leads e P Q kept u f w p
  frame_step-Leads (state_union_pointer u) f w p =
      pointer-Leads e P Q kept f w Visitor.union_too_large Visitor.bad_union_pointer u.size
        (frame_of_union u) p
  frame_step-Leads (state_array a) f w p = array_step-Leads e P Q kept a f w p
  frame_step-Leads (state_string s) f w p = string_step-Leads e P Q kept s f w p
  frame_step-Leads (state_handle nullable) f w p = handle_step-Leads e P Q kept nullable f w p
  frame_step-Leads (state_vector v) f w p = vector_step-Leads e P Q kept v f w p
  frame_step-Leads state_done f w p = done_step-Leads e P Q kept w p

  pub step-Leads : (w : Walker) → P w → Leads P Q (step e w)
  unfolding step
  step-Leads w p = by_frames w.frames
    where
      by_frames :
          (l : List Frame)
          → Leads P Q (elim l [ [] ↦ faults | f ∷ rest ↦ frame_step e f.state f w ])
      by_frames [] = tt
      by_frames (f ∷ rest) = frame_step-Leads f.state f w p

  -- The loop keeps what one turn of it keeps.
  pub walk_loop-Leads : (fuel : ℕ) (w : Walker) → P w → Leads P Q (walk_loop fuel e w)
  unfolding walk_loop
  walk_loop-Leads zero w p = p
  walk_loop-Leads (suc fuel) w p = by_turn (walk_loop-Leads fuel) (step e w) (step-Leads w p)
    where
      by_turn :
          ((w' : Walker) → P w' → Leads P Q (walk_loop fuel e w'))
          → (o : Walked) → Leads P Q o
          → Leads P Q
              (elim o [ goes w' ↦ walk_loop fuel e w' | stops w' ↦ stops w' | faults ↦ faults ])
      by_turn ih (goes w') l = ih w' l
      by_turn ih (stops w') l = l
      by_turn ih faults l = tt

  -- Before the loop, the walk makes the first two frames or stops.
  pub start-Leads :
      (w : Walker)
      → ((t : FidlType) (size : ℕ)
          → size ≤ e.num_bytes
          → P (record w {
            out_of_line_offset = u32 (fidl_align size);
            frames = frame_of t 0 ∷ done_sentinel ∷ [];
          }))
      → ((err : Error) → Q (set_error e err w))
      → Leads P Q (start e w)
  unfolding start start_at start_type
  start-Leads w ready refused = by_root e.root
    where
      at_size : (t : FidlType) (size : ℕ) → Leads P Q (start_at e t size w)
      at_size t size = elim (Bool-cases (ltb e.num_bytes size)) [
        | inl short ↦ rw short (refused Visitor.message_too_small)
        | inr long ↦ rw long (ready t size (ground (arith, long)))
      ]

      by_type : (t : FidlType) → Leads P Q (start_type e t w)
      by_type (coded_struct s) = at_size (coded_struct s) s.size
      by_type (coded_table t) = at_size (coded_table t) 16
      by_type (coded_struct_pointer x) = refused Visitor.not_a_message
      by_type (coded_table_pointer x) = refused Visitor.not_a_message
      by_type (coded_union x) = refused Visitor.not_a_message
      by_type (coded_union_pointer x) = refused Visitor.not_a_message
      by_type (coded_array x) = refused Visitor.not_a_message
      by_type (coded_string x) = refused Visitor.not_a_message
      by_type (coded_handle x) = refused Visitor.not_a_message
      by_type (coded_vector x) = refused Visitor.not_a_message

      by_root :
          (r : Option ℕ)
          → Leads P Q (elim r [
            | none ↦ stops (set_error e Visitor.null_type w)
            | some root ↦
                if e.base == 0
                then stops (set_error e Visitor.null_bytes w)
                else start_type e (e.types root) w
          ])
      by_root none = refused Visitor.null_type
      by_root (some root) =
          if-Leads e P Q kept (e.base == 0) (stops (set_error e Visitor.null_bytes w))
            (start_type e (e.types root) w) (refused Visitor.null_bytes) (by_type (e.types root))

  -- A whole walk.
  pub walk-Leads :
      (fuel : ℕ) (w : Walker)
      → ((t : FidlType) (size : ℕ)
          → size ≤ e.num_bytes
          → P (record w {
            out_of_line_offset = u32 (fidl_align size);
            frames = frame_of t 0 ∷ done_sentinel ∷ [];
          }))
      → ((err : Error) → Q (set_error e err w))
      → Leads P Q (walk fuel e w)
  unfolding walk
  walk-Leads fuel w ready refused = by_start (start e w) (start-Leads w ready refused)
    where
      by_start :
          (o : Walked)
          → Leads P Q o
          → Leads P Q
              (elim o [ goes w' ↦ walk_loop fuel e w' | stops w' ↦ stops w' | faults ↦ faults ])
      by_start (goes w') l = walk_loop-Leads fuel w' l
      by_start (stops w') l = l
      by_start faults l = tt
