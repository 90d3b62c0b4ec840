-- ===== src/Fidl/Bounds.antt =====
-- The bounds of the walker of pkg/fidl/buffer_walker.h: its handles, its stack and its storage.
use fuchsia_sdk.Base.{◌+◌, ◌%◌, ◌∷◌, [], ◌≡◌, ℕ, ◌^◌, ◌≤◌, ◌<◌, ◌≡◌, Option, some, arith, length}
use fuchsia_sdk.Fidl.Tables.{recursion_depth}
use fuchsia_sdk.Fidl.Frames.{Frame}
use fuchsia_sdk.Fidl.Visitor.{Message, Walker, Error, set_error, update_pointer}
use fuchsia_sdk.Fidl.Claims.{
  claimed, exhausted, claim_handle, claimed_handle, unclaimed_handle, claim_out_of_line_storage,
}
use fuchsia_sdk.Fidl.Tables.{FidlType, u32, fidl_align}
use fuchsia_sdk.Fidl.Frames.{frame_of, done_sentinel}
use fuchsia_sdk.Fidl.Memory.{Bytes}
use fuchsia_sdk.Fidl.Stack.{set_top}
use fuchsia_sdk.Fidl.Walk.{walk, new_walker}
use fuchsia_sdk.Fidl.Rules.{IsKept, Leads}
use fuchsia_sdk.Fidl.Walks.{walk-Leads}

-- No more handles are consumed than there are, the stack holds at most 32 frames, and the storage
-- claimed ends at a multiple of 8, in the message but for the padding of the inline part.
pub record Within (e : Message) (w : Walker) : Type 0 where
  pub handles_left : w.handle_idx ≤ e.num_handles
  pub depth : length w.frames ≤ recursion_depth
  pub inside : w.out_of_line_offset < e.num_bytes + 8
  pub aligned : w.out_of_line_offset % 8 ≡ 0

record SameCursor (w w' : Walker) : Type 0 where
  same_handle : w'.handle_idx ≡ w.handle_idx
  same_frames : w'.frames ≡ w.frames
  same_storage : w'.out_of_line_offset ≡ w.out_of_line_offset

set_error-SameCursor : (e : Message) (err : Error) (w : Walker) → SameCursor w (set_error e err w)
unfolding set_error
set_error-SameCursor e err w = ground arith

update_pointer-SameCursor :
    (e : Message) (p v : ℕ) (w w' : Walker) → update_pointer e p v w ≡ some w' → SameCursor w w'
unfolding update_pointer
update_pointer-SameCursor e p v w w' q = record {
  same_handle = ground (arith, q);
  same_frames = ground (arith, q);
  same_storage = ground (arith, q);
}

moved : {e : Message} {w w' : Walker} → SameCursor w w' → Within e w → Within e w'
moved m i = record {
  handles_left = omega (arith, m.same_handle, i.handles_left);
  depth = rw (m.same_frames) i.depth;
  inside = omega (arith, m.same_storage, i.inside);
  aligned = rw (m.same_storage) i.aligned;
}

set_top-depth :
    (f : Frame) (w : Walker)
    → length w.frames ≤ recursion_depth
    → length (set_top f w).frames ≤ recursion_depth
unfolding set_top
set_top-depth f w h = ground arith

claimed-Within :
    (e : Message) (p : Option ℕ) (w w' : Walker)
    → e.num_handles < 2 ^ 32
    → claim_handle e p w ≡ claimed w'
    → Within e w
    → Within e w'
unfolding claim_handle claimed_handle unclaimed_handle
claimed-Within e p w w' h q i = record {
  handles_left = ground arith;
  depth = ground arith;
  inside = ground arith;
  aligned = ground arith;
}

unhanded-Within :
    (e : Message) (p : Option ℕ) (w w' : Walker)
    → claim_handle e p w ≡ exhausted w'
    → Within e w
    → Within e w'
unfolding claim_handle claimed_handle unclaimed_handle
unhanded-Within e p w w' q i = record {
  handles_left = ground arith;
  depth = ground arith;
  inside = ground arith;
  aligned = ground arith;
}

stored-Within :
    (e : Message) (size storage offset : ℕ) (w w' : Walker)
    → claim_out_of_line_storage e size storage w ≡ some (offset, w')
    → Within e w
    → Within e w'
unfolding claim_out_of_line_storage
stored-Within e size storage offset w w' q i = record {
  handles_left = ground arith;
  depth = ground arith;
  inside = ground arith;
  aligned = ground arith;
}

Within-IsKept : (e : Message) → e.num_handles < 2 ^ 32 → IsKept e (Within e) (Within e)
Within-IsKept e h = record {
  at_top = λ f w i. record {
    handles_left = unfold set_top in ground (arith, i.handles_left);
    depth = set_top-depth f w i.depth;
    inside = unfold set_top in ground (arith, i.inside);
    aligned = unfold set_top in ground (arith, i.aligned);
  };
  popped = λ f rest w q i. record {
    handles_left = i.handles_left;
    depth = omega (arith, rw q at (i.depth));
    inside = i.inside;
    aligned = i.aligned;
  };
  pushed = λ f w q i. record {
    handles_left = i.handles_left;
    depth = ground (arith, i.depth, q);
    inside = i.inside;
    aligned = i.aligned;
  };
  erred = λ err w i. moved (set_error-SameCursor e err w) i;
  updated = λ p v w w' q i. moved (update_pointer-SameCursor e p v w w' q) i;
  stored = stored-Within e;
  handed = λ p w w' q i. claimed-Within e p w w' h q i;
  unhanded = unhanded-Within e;
  failed = λ err w i. moved (set_error-SameCursor e err w) i;
  finished = λ w q i. i;
}

fresh-Within : (e : Message) (mem : Bytes) (handles : ℕ → ℕ) → Within e (new_walker mem handles)
unfolding new_walker
fresh-Within e mem handles = record {
  handles_left = omega arith;
  depth = omega arith;
  inside = omega arith;
  aligned = omega arith;
}

started-Within :
    (e : Message) (mem : Bytes) (handles : ℕ → ℕ) (t : FidlType) (size : ℕ)
    → size ≤ e.num_bytes
    → Within e (record (new_walker mem handles) {
      out_of_line_offset = u32 (fidl_align size);
      frames = frame_of t 0 ∷ done_sentinel ∷ [];
    })
unfolding new_walker
started-Within e mem handles t size h = record {
  handles_left = omega arith;
  depth = omega arith;
  inside = omega (arith, h);
  aligned = omega arith;
}

-- Over any walk of a message of less than 2^32 handles, however long it runs and however it ends:
-- no more handles are consumed than there are, the stack never holds more than 32 frames, and the
-- storage claimed ends at a multiple of 8, less than 8 bytes behind the end of the message.
pub walk-Within :
    (fuel : ℕ) (e : Message) (mem : Bytes) (handles : ℕ → ℕ)
    → e.num_handles < 2 ^ 32
    → Leads (Within e) (Within e) (walk fuel e (new_walker mem handles))
walk-Within fuel e mem handles h =
    walk-Leads e (Within e) (Within e) (Within-IsKept e h) fuel (new_walker mem handles)
      (started-Within e mem handles)
      (λ err.
        moved (set_error-SameCursor e err (new_walker mem handles)) (fresh-Within e mem handles))
