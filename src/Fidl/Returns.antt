-- ===== src/Fidl/Returns.antt =====
-- When fidl_validate and fidl_decode of pkg/fidl return, and what they return.
use mathlib.Core.Path.{subst}
use fuchsia_sdk.Base.{
  ℕ, zero, suc, ◌+◌, ◌*◌, ◌≤◌, ◌<◌, ◌≡◌, refl, ap, ◌∙◌, false, not, ◌&&◌, Option, none, some, List,
  [], ◌∷◌, arith, ltb, ◌==◌, if◌then◌else◌, Bool-cases, inl, inr,
}
use fuchsia_sdk.Fidl.Tables.{
  FidlType, coded_struct, coded_table, coded_struct_pointer, coded_table_pointer, coded_union,
  coded_union_pointer, coded_array, coded_string, coded_handle, coded_vector, u32, fidl_align,
  type_size,
}
use fuchsia_sdk.Fidl.Frames.{
  Frame, FrameState, state_struct, state_struct_pointer, state_table, state_table_pointer,
  state_union, state_union_pointer, state_array, state_string, state_handle, state_vector,
  state_done, frame_of, done_sentinel,
}
use fuchsia_sdk.Fidl.Visitor
use fuchsia_sdk.Fidl.Visitor.{Message, Walker, Error, set_error}
use fuchsia_sdk.Fidl.Stack.{Walked, goes, stops, faults}
use fuchsia_sdk.Fidl.Walk.{
  frame_step, step, walk_loop, start, start_at, start_type, walk, check_handles, after_walk,
  fidl_validate, fidl_decode,
}
use fuchsia_sdk.Fidl.Rules.{Leads}
use fuchsia_sdk.Fidl.Accepted.{AllConsumed, fidl_validate-AllConsumed, fidl_decode-AllConsumed}
use fuchsia_sdk.Fidl.Typed.{IsTyped, IsWhole, Fits, frame_of-Fits}
use fuchsia_sdk.Fidl.Work.{work, weight, weight_pos, weight_step, turns_left, work-lt, work_bound}
use fuchsia_sdk.Fidl.Safe.{Safe, Stands, Turn, unclaimed, is_done}
use fuchsia_sdk.Fidl.SafeTurns.{
  struct_step-Safe, struct_pointer_step-Safe, union_step-Safe, union_pointer_step-Safe,
  array_step-Safe,
}
use fuchsia_sdk.Fidl.SafeVectors.{
  string_step-Safe, handle_step-Safe, vector_step-Safe, done_step-Safe,
}
use fuchsia_sdk.Fidl.SafeTables.{table_step-Safe}

-- The walk returns a walker of which P holds.
abbrev pub Returns : (Walker → Type 0) → Walked → Type 0
Returns P (goes w) = ⊥
Returns P (stops w) = P w
Returns P faults = ⊥

frame_step-Safe :
    (e : Message) (f : Frame) (rest : List Frame) (w : Walker)
    → IsTyped e
    → w.frames ≡ f ∷ rest
    → Stands e (f ∷ rest)
    → (s : FrameState) → f.state ≡ s
    → Safe e (turns_left (unclaimed e w) (f ∷ rest)) (frame_step e s f w)
unfolding frame_step
frame_step-Safe e f rest w typed top stands s q = by_state s q
  where
    turn : (s : FrameState) → f.state ≡ s → is_done s ≡ false → Turn e (unclaimed e w) f rest w
    turn s q u = record {
      typed = typed;
      top = top;
      stands = stands;
      unfinished = ap is_done q ∙ u;
      spent = omega arith;
    }

    by_state :
        (s : FrameState)
        → f.state ≡ s
        → Safe e (turns_left (unclaimed e w) (f ∷ rest)) (frame_step e s f w)
    by_state (state_struct x) q =
        struct_step-Safe e (unclaimed e w) f rest w (turn (state_struct x) q refl) x q
    by_state (state_struct_pointer x) q =
        struct_pointer_step-Safe e (unclaimed e w) f rest w (turn (state_struct_pointer x) q refl) x
          q
    by_state (state_table x) q =
        table_step-Safe e (unclaimed e w) f rest w (turn (state_table x) q refl) x q
    by_state (state_table_pointer x) q =
        absurd (subst (λ (s : FrameState). Fits e s f) q stands.fits.0)
    by_state (state_union x) q =
        union_step-Safe e (unclaimed e w) f rest w (turn (state_union x) q refl) x q
    by_state (state_union_pointer x) q =
        union_pointer_step-Safe e (unclaimed e w) f rest w (turn (state_union_pointer x) q refl) x q
    by_state (state_array x) q =
        array_step-Safe e (unclaimed e w) f rest w (turn (state_array x) q refl) x q
    by_state (state_string x) q =
        string_step-Safe e (unclaimed e w) f rest w (turn (state_string x) q refl) x q
    by_state (state_handle x) q =
        handle_step-Safe e (unclaimed e w) f rest w (turn (state_handle x) q refl) x q
    by_state (state_vector x) q =
        vector_step-Safe e (unclaimed e w) f rest w (turn (state_vector x) q refl) x q
    by_state state_done q = done_step-Safe e (turns_left (unclaimed e w) (f ∷ rest)) w

-- One turn of the loop.
step-Safe :
    (e : Message) (w : Walker)
    → IsTyped e
    → Stands e w.frames
    → Safe e (turns_left (unclaimed e w) w.frames) (step e w)
unfolding step
step-Safe e w typed stands = by_frames w.frames refl stands
  where
    by_frames :
        (l : List Frame)
        → w.frames ≡ l
        → Stands e l
        → Safe e
            (turns_left (unclaimed e w) l)
            (elim l [ [] ↦ faults | f ∷ rest ↦ frame_step e f.state f w ])
    by_frames [] q s = absurd s.ends
    by_frames (f ∷ rest) q s = frame_step-Safe e f rest w typed q s f.state refl

-- The loop returns within the turns that are left.
walk_loop-Returns :
    (fuel : ℕ) (e : Message) (w : Walker)
    → IsTyped e
    → Stands e w.frames
    → turns_left (unclaimed e w) w.frames < fuel
    → Returns (λ _. Unit) (walk_loop fuel e w)
unfolding walk_loop
walk_loop-Returns zero e w typed s h = absurd (omega (arith, h))
walk_loop-Returns (suc fuel) e w typed s h =
    by_turn (walk_loop-Returns fuel e) (step e w) (step-Safe e w typed s)
  where
    by_turn :
        ((w' : Walker)
          → IsTyped e
          → Stands e w'.frames
          → turns_left (unclaimed e w') w'.frames < fuel
          → Returns (λ _. Unit) (walk_loop fuel e w'))
        → (o : Walked) → Safe e (turns_left (unclaimed e w) w.frames) o
        → Returns
            (λ _. Unit)
            (elim o [ goes w' ↦ walk_loop fuel e w' | stops w' ↦ stops w' | faults ↦ faults ])
    by_turn ih (goes w') l = ih w' typed l.0 (omega (arith, l.1, h))
    by_turn ih (stops w') l = tt
    by_turn ih faults l = absurd l

-- Enough turns for every message.
abbrev pub enough_turns : ℕ
enough_turns = 2 * weight 31

-- The two frames that the walk starts with.
abbrev started : ℕ → FidlType → Walker → Walker
started size t w = record w {
  out_of_line_offset = u32 (fidl_align size);
  frames = frame_of t 0 ∷ done_sentinel ∷ [];
}

started-Stands :
    (e : Message) (t : FidlType) (w : Walker)
    → IsWhole e.types t
    → type_size t ≤ e.num_bytes
    → Stands e (started (type_size t) t w).frames
unfolding done_sentinel
started-Stands e t w whole long = record {
  fits = (frame_of-Fits e t 0 whole (omega (arith, long)), (tt, tt));
  ends = refl;
  room = omega arith;
}

two_frames-lt :
    (work_left heavy : ℕ)
    → work_left < work_bound
    → 0 < heavy
    → work_left * heavy + (1 * (work_bound * heavy) + 0) < 2 * (work_bound * heavy)
two_frames-lt a h less pos = grind arith

started-turns :
    (e : Message) (left : ℕ) (t : FidlType)
    → IsTyped e
    → left ≤ e.num_bytes
    → Fits e (frame_of t 0).state (frame_of t 0)
    → turns_left left (frame_of t 0 ∷ done_sentinel ∷ []) < enough_turns
unfolding turns_left done_sentinel work
started-turns e left t typed few fits =
    let heavy : weight 31 ≡ work_bound * weight 30 = weight_step 0 (omega arith) in
    rw heavy (
      two_frames-lt (work left (frame_of t 0).state (frame_of t 0).field) (weight 30)
        (work-lt left e (frame_of t 0).state (frame_of t 0) few typed.small fits) (weight_pos 30))

-- The walk has stopped, or it goes on and enough turns are given.
abbrev Begun : Message → Walked → Type 0
Begun e (goes w) = Stands e w.frames × (turns_left (unclaimed e w) w.frames < enough_turns)
Begun e (stops w) = Unit
Begun e faults = ⊥

start-Begun : (e : Message) (w : Walker) → IsTyped e → Begun e (start e w)
unfolding start start_at start_type type_size
start-Begun e w typed = by_root e.root
  where
    at_size : (t : FidlType) → IsWhole e.types t → Begun e (start_at e t (type_size t) w)
    at_size t whole = elim (Bool-cases (ltb e.num_bytes (type_size t))) [
      | inl short ↦ rw short tt
      | inr long ↦
          let fits : type_size t ≤ e.num_bytes = ground (arith, long) in
          rw long (
            started-Stands e t w whole fits,
            started-turns e (unclaimed e (started (type_size t) t w)) t typed (omega arith)
                (frame_of-Fits e t 0 whole (omega (arith, fits))),
          )
    ]

    by_type : (t : FidlType) → IsWhole e.types t → Begun e (start_type e t w)
    by_type (coded_struct s) h = at_size (coded_struct s) h
    by_type (coded_table t) h = at_size (coded_table t) h
    by_type (coded_struct_pointer x) h = tt
    by_type (coded_table_pointer x) h = tt
    by_type (coded_union x) h = tt
    by_type (coded_union_pointer x) h = tt
    by_type (coded_array x) h = tt
    by_type (coded_string x) h = tt
    by_type (coded_handle x) h = tt
    by_type (coded_vector x) h = tt

    by_root :
        (r : Option ℕ)
        → Begun e (elim r [
          | none ↦ stops (set_error e Visitor.null_type w)
          | some root ↦
              if e.base == 0
              then stops (set_error e Visitor.null_bytes w)
              else start_type e (e.types root) w
        ])
    by_root none = tt
    by_root (some root) = elim (Bool-cases (e.base == 0)) [
      | inl null ↦ rw null tt
      | inr given ↦ rw given (by_type (e.types root) (typed.whole root))
    ]

walk-Returns :
    (fuel : ℕ) (e : Message) (w : Walker)
    → IsTyped e
    → enough_turns ≤ fuel
    → Returns (λ _. Unit) (walk fuel e w)
unfolding walk
walk-Returns fuel e w typed enough = by_start (start e w) (start-Begun e w typed)
  where
    by_start :
        (o : Walked)
        → Begun e o
        → Returns
            (λ _. Unit)
            (elim o [ goes w' ↦ walk_loop fuel e w' | stops w' ↦ stops w' | faults ↦ faults ])
    by_start (goes w') b = walk_loop-Returns fuel e w' typed b.0 (omega (arith, b.1, enough))
    by_start (stops w') b = tt
    by_start faults b = b

after_walk-Returns :
    (f : Walker → Walker) (o : Walked)
    → Returns (λ _. Unit) o
    → Returns (λ _. Unit) (after_walk f o)
after_walk-Returns f (goes w) h = h
after_walk-Returns f (stops w) h = tt
after_walk-Returns f faults h = h

-- What a walk that returns leads to holds of what it returns.
Returns-Leads :
    (P Q : Walker → Type 0) (o : Walked) → Returns (λ _. Unit) o → Leads P Q o → Returns Q o
Returns-Leads P Q (goes w) h l = absurd h
Returns-Leads P Q (stops w) h l = l
Returns-Leads P Q faults h l = absurd h

-- fidl_validate returns on every message of less than 2^32 bytes whose coding tables are whole,
-- whatever its bytes are: it reads inside of the message only and ends within 2 * weight 31 turns
-- of its loop. If the walker it returns has no error, each byte of the message is claimed by an
-- object and each handle is consumed.
pub fidl_validate-Returns :
    (fuel : ℕ) (e : Message) (w : Walker)
    → IsTyped e
    → enough_turns ≤ fuel
    → Returns (AllConsumed e) (fidl_validate fuel e w)
unfolding fidl_validate
fidl_validate-Returns fuel e w typed enough =
    Returns-Leads (λ _. Unit) (AllConsumed e) (fidl_validate fuel e w)
      (after_walk-Returns (check_handles e) (walk fuel e w) (walk-Returns fuel e w typed enough))
      (fidl_validate-AllConsumed fuel e w)

-- fidl_decode returns on every message of less than 2^32 bytes whose coding tables are whole,
-- whatever its bytes are: it reads and writes inside of the message only and ends within
-- 2 * weight 31 turns of its loop. If the walker it returns has no error, each byte of the message
-- is claimed by an object and each handle is consumed.
pub fidl_decode-Returns :
    (fuel : ℕ) (e : Message) (w : Walker)
    → IsTyped e
    → enough_turns ≤ fuel
    → Returns (AllConsumed e) (fidl_decode fuel e w)
unfolding fidl_decode
fidl_decode-Returns fuel e w typed enough =
    Returns-Leads (λ _. Unit) (AllConsumed e) (fidl_decode fuel e w) returns
      (fidl_decode-AllConsumed fuel e w)
  where
    returns : Returns (λ _. Unit) (fidl_decode fuel e w)
    returns = elim (Bool-cases (e.handles_null && not (e.num_handles == 0))) [
      | inl bad ↦ rw bad tt
      | inr good ↦ rw good (
          after_walk-Returns (check_handles e) (walk fuel e w) (walk-Returns fuel e w typed enough))
    ]
