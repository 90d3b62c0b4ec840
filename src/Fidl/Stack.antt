-- ===== src/Fidl/Stack.antt =====
-- One round of the walk in pkg/fidl/buffer_walker.h: how it can end, and its stack of frames.
use fuchsia_sdk.Base.{ℕ, none, some, [], ◌∷◌, length, ◌==◌, if◌then◌else◌}
use fuchsia_sdk.Fidl.Tables.{recursion_depth}
use fuchsia_sdk.Fidl.Memory.{typed_at}
use fuchsia_sdk.Fidl.Frames.{Frame}
use fuchsia_sdk.Fidl.Visitor.{
  Message, Walker, Error, set_error, continue_after_errors, present, absent, invalid,
  get_pointer_state, update_pointer,
}
use fuchsia_sdk.Fidl.Claims.{claim_out_of_line_storage}

-- The walk goes on, it returns, or the program's behaviour is undefined: a read or a write outside of
-- the buffer or of a value that was never set, a null pointer, an empty stack.
pub data Walked : Type 0 where
  goes : Walker → Walked
  stops : Walker → Walked
  faults : Walked

-- `Pop`.
unfoldable pub pop : Walker → Walked
pop w = elim w.frames [ [] ↦ faults | f ∷ rest ↦ goes (record w { frames = rest }) ]

-- `SetError`, and FIDL_POP_AND_CONTINUE_OR_RETURN.
unfoldable pub fail : Message → Error → Walker → Walked
fail e err w =
    let w' = set_error e err w in if continue_after_errors e.mode then pop w' else stops w'

-- `Push`, and what follows where it fails.
unfoldable pub push : Message → Error → Frame → Walker → Walked
push e err f w =
    if length w.frames == recursion_depth
    then fail e err w
    else goes (record w { frames = f ∷ w.frames })

-- The frame at the top is changed or replaced.
unfoldable pub set_top : Frame → Walker → Walker
set_top f w = elim w.frames [ [] ↦ w | _ ∷ rest ↦ record w { frames = f ∷ rest } ]

-- A word of the message is read, and the walk goes on with it.
abbrev pub with_word : Message → ℕ → ℕ → Walker → (ℕ → Walked) → Walked
with_word e n offset w k = elim (typed_at n e.num_bytes w.mem offset) [
  | none ↦ faults
  | some v ↦ k v
]

-- A pointer of the message is read and its state found.
abbrev pub by_pointer : Message → ℕ → Walker → (ℕ → Walked) → (ℕ → Walked) → (ℕ → Walked) → Walked
by_pointer e offset w on_present on_absent on_invalid = with_word e 8 offset w λ v.
    elim (get_pointer_state e.mode v) [
      | present ↦ on_present v
      | absent ↦ on_absent v
      | invalid ↦ on_invalid v
    ]

-- A pointer of the message is updated, and the walk goes on.
abbrev pub updating : Message → ℕ → ℕ → Walker → (Walker → Walked) → Walked
updating e p v w k = elim (update_pointer e p v w) [ none ↦ faults | some w' ↦ k w' ]

-- Storage is claimed, and the walk goes on with its offset, or fails.
abbrev pub claiming : Message → Error → ℕ → ℕ → Walker → (ℕ → Walker → Walked) → Walked
claiming e err size storage w k = elim (claim_out_of_line_storage e size storage w) [
  | none ↦ fail e err w
  | some (offset, w') ↦ k offset w'
]
