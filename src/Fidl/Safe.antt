-- ===== src/Fidl/Safe.antt =====
-- One turn of the loop of pkg/fidl/buffer_walker.h that reads and writes inside of the message only
-- and leaves less work: the rules for the turn's parts.
use fuchsia_sdk.Base.{
  ℕ, zero, suc, ◌+◌, ◌-◌, ◌≤◌, ◌<◌, ◌≡◌, ◌≢◌, refl, ap, ◌∙◌, Bool, true, false, Option, none, some,
  List, [], ◌∷◌, arith, length, get_elem?, ◌==◌, if◌then◌else◌, Bool-cases, inl, inr, All,
}
use mathlib.Core.Path.{subst}
use fuchsia_sdk.Fidl.Tables.{recursion_depth}
use fuchsia_sdk.Fidl.Memory.{typed_at}
use fuchsia_sdk.Fidl.Frames.{Frame, FrameState, state_done}
use fuchsia_sdk.Fidl.Visitor.{
  Message, Walker, Error, update_pointer, PointerState, present, absent, invalid, get_pointer_state,
}
use fuchsia_sdk.Fidl.Claims.{claim_out_of_line_storage}
use fuchsia_sdk.Fidl.Stack.{
  Walked, goes, stops, faults, pop, fail, push, set_top, with_word, by_pointer, claiming, updating,
}
use fuchsia_sdk.Fidl.Storage.{claim-Granted}
use fuchsia_sdk.Fidl.Typed.{IsTyped, Fits}
use fuchsia_sdk.Fidl.Work.{
  work, turns_left, work-lt, turns_left-pop, turns_left-replace, turns_left-push,
}

get_elem?-ne-none : {A : Type 0} (l : List A) (i : ℕ) → i < length l → get_elem? l i ≢ none
get_elem?-ne-none [] i h q = absurd (omega (arith, h))
get_elem?-ne-none (x ∷ l) zero h q = cc
get_elem?-ne-none (x ∷ l) (suc i) h q = get_elem?-ne-none l i (omega (arith, h)) q

abbrev pub is_done : FrameState → Bool
is_done state_done = true
is_done _ = false

-- The sentinel stands at the bottom of the stack.
abbrev pub EndsDone : List Frame → Type 0
EndsDone [] = ⊥
EndsDone (f ∷ []) = is_done f.state ≡ true
EndsDone (f ∷ g ∷ rest) = EndsDone (g ∷ rest)

-- Every frame of the stack stays inside of the message.
pub record Stands (e : Message) (l : List Frame) : Type 0 where
  pub fits : All (λ f. Fits e f.state f) l
  pub ends : EndsDone l
  pub room : length l ≤ recursion_depth

-- The bytes behind the claims so far.
abbrev pub unclaimed : Message → Walker → ℕ
unclaimed e w = e.num_bytes - w.out_of_line_offset

-- The walk returns, or goes on with a stack that stands and has less to do than `turns`.
abbrev pub Safe : Message → ℕ → Walked → Type 0
Safe e turns (goes w) = Stands e w.frames × (turns_left (unclaimed e w) w.frames < turns)
Safe e turns (stops w) = Unit
Safe e turns faults = ⊥

pub EndsDone-pop :
    (f : Frame) (rest : List Frame) → is_done f.state ≡ false → EndsDone (f ∷ rest) → EndsDone rest
EndsDone-pop f [] q h = cc
EndsDone-pop f (g ∷ rest) q h = h

EndsDone-top :
    (f g : Frame) (rest : List Frame)
    → is_done f.state ≡ false
    → EndsDone (f ∷ rest)
    → EndsDone (g ∷ rest)
EndsDone-top f g [] q h = cc
EndsDone-top f g (x ∷ rest) q h = h

-- The frame that the turn is for, what is below it, and the bytes that were left at its start.
pub record Turn (e : Message) (left : ℕ) (f : Frame) (rest : List Frame) (w : Walker) : Type 0 where
  pub typed : IsTyped e
  pub top : w.frames ≡ f ∷ rest
  pub stands : Stands e (f ∷ rest)
  pub unfinished : is_done f.state ≡ false
  pub spent : unclaimed e w ≤ left

-- What a turn may do to the walker and still be the same turn.
pub Turn-same :
    {e : Message} {left : ℕ} {f : Frame} {rest : List Frame} {w w' : Walker}
    → Turn e left f rest w
    → w'.frames ≡ w.frames
    → w.out_of_line_offset ≤ w'.out_of_line_offset
    → Turn e left f rest w'
Turn-same t q h = record {
  typed = t.typed;
  top = q ∙ t.top;
  stands = t.stands;
  unfinished = t.unfinished;
  spent = omega (arith, t.spent, h);
}

-- An update of a pointer changes bytes only.
record Updated (w w' : Walker) : Type 0 where
  same_frames : w'.frames ≡ w.frames
  same_storage : w'.out_of_line_offset ≡ w.out_of_line_offset

update_pointer-Updated :
    (e : Message) (p v : ℕ) (w w' : Walker) → update_pointer e p v w ≡ some w' → Updated w w'
unfolding update_pointer
update_pointer-Updated e p v w w' q = record {
  same_frames = ground (arith, q);
  same_storage = ground (arith, q);
}

update_pointer-inside :
    (e : Message) (p v : ℕ) (w : Walker) → p + 8 ≤ e.num_bytes → update_pointer e p v w ≢ none
unfolding update_pointer
update_pointer-inside e p v w h q = ground (arith, h, q)

pub set_top-frames :
    (f g : Frame) (rest : List Frame) (w : Walker)
    → w.frames ≡ f ∷ rest
    → (set_top g w).frames ≡ g ∷ rest
unfolding set_top
set_top-frames f g rest w q = ground (arith, q)

pub fail-Safe :
    (e : Message) (turns : ℕ) (err : Error) (w : Walker) → IsTyped e → Safe e turns (fail e err w)
unfolding fail
fail-Safe e turns err w t = rw (t.stops_at_errors) tt

pub set_top-storage :
    (g : Frame) (w : Walker) → (set_top g w).out_of_line_offset ≡ w.out_of_line_offset
unfolding set_top
set_top-storage g w = ground arith

module _ {e : Message} {left : ℕ} {f : Frame} {rest : List Frame} where
  pub pop-Safe : (w : Walker) → Turn e left f rest w → Safe e (turns_left left (f ∷ rest)) (pop w)
  unfolding pop
  pop-Safe w t =
      rw (t.top, pop)
        (
          record {
            fits = t.stands.fits.1;
            ends = EndsDone-pop f rest t.unfinished t.stands.ends;
            room = omega (arith, t.stands.room);
          },
          turns_left-pop (unclaimed e w) left f rest t.spent,
        )

  -- The frame changes before it is taken away.
  pub pop_top-Safe :
      (w : Walker) (g : Frame)
      → Turn e left f rest w
      → Safe e (turns_left left (f ∷ rest)) (pop (set_top g w))
  unfolding pop
  pop_top-Safe w g t =
      rw (set_top-frames f g rest w t.top, pop)
        (
          record {
            fits = t.stands.fits.1;
            ends = EndsDone-pop f rest t.unfinished t.stands.ends;
            room = omega (arith, t.stands.room);
          },
          turns_left-pop (unclaimed e (set_top g w)) left f rest (rw (set_top-storage g w) t.spent),
        )

  pub replace-Safe :
      (w : Walker) (g : Frame)
      → Turn e left f rest w
      → Fits e g.state g
      → work (unclaimed e w) g.state g.field < work left f.state f.field
      → Safe e (turns_left left (f ∷ rest)) (goes (set_top g w))
  replace-Safe w g t h less =
      rw (set_top-frames f g rest w t.top, set_top-storage g w)
        (
          record {
            fits = (h, t.stands.fits.1);
            ends = EndsDone-top f g rest t.unfinished t.stands.ends;
            room = omega (arith, t.stands.room);
          },
          turns_left-replace (unclaimed e w) left f g rest t.spent less,
        )

  -- The turn is over, with the frame changed.
  pub goes-Safe :
      (w w' : Walker) (g : Frame)
      → Turn e left f rest w
      → w'.frames ≡ g ∷ rest
      → w.out_of_line_offset ≤ w'.out_of_line_offset
      → Fits e g.state g
      → work (unclaimed e w') g.state g.field < work left f.state f.field
      → Safe e (turns_left left (f ∷ rest)) (goes w')
  goes-Safe w w' g t q grown h less = rw q (
    record {
      fits = (h, t.stands.fits.1);
      ends = EndsDone-top f g rest t.unfinished t.stands.ends;
      room = omega (arith, t.stands.room);
    },
    turns_left-replace (unclaimed e w') left f g rest (omega (arith, t.spent, grown)) less,
  )

  pub push-Safe :
      (err : Error) (w w' : Walker) (g c : Frame)
      → Turn e left f rest w
      → w'.frames ≡ g ∷ rest
      → w.out_of_line_offset ≤ w'.out_of_line_offset
      → Fits e g.state g
      → work (unclaimed e w') g.state g.field < work left f.state f.field
      → Fits e c.state c
      → Safe e (turns_left left (f ∷ rest)) (push e err c w')
  unfolding push
  push-Safe err w w' g c t q same h less k =
      elim (Bool-cases (length w'.frames == recursion_depth)) [
        | inl full ↦ rw full (fail-Safe e (turns_left left (f ∷ rest)) err w' t.typed)
        | inr room ↦
            rw (room, q)
              (
                record {
                  fits = (k, (h, t.stands.fits.1));
                  ends = EndsDone-top f g rest t.unfinished t.stands.ends;
                  room = omega (arith, not_full room, t.stands.room);
                },
                turns_left-push (unclaimed e w') left f g c rest (omega (arith, t.spent, same))
                    (not_full room) less
                    (work-lt (unclaimed e w') e c.state c (omega arith) t.typed.small k),
              )
      ]
    where
      not_full : (length w'.frames == recursion_depth) ≡ false → length rest < 31
      not_full room =
          let r : (length (g ∷ rest) == 32) ≡ false = rw q at room in
          ground (arith, r, t.stands.room)

module _ (e : Message) (typed : IsTyped e) (turns : ℕ) where
  pub if-Safe :
      (b : Bool) (x y : Walked)
      → (b ≡ true → Safe e turns x)
      → (b ≡ false → Safe e turns y)
      → Safe e turns (if b then x else y)
  if-Safe true x y i j = i refl
  if-Safe false x y i j = j refl

  pub with_word-Safe :
      (n offset : ℕ) (w : Walker) (k : ℕ → Walked)
      → offset + n ≤ e.num_bytes
      → ((v : ℕ) → Safe e turns (k v))
      → Safe e turns (with_word e n offset w k)
  unfolding typed_at
  with_word-Safe n offset w k h i = by_read (typed_at n e.num_bytes w.mem offset) refl
    where
      by_read :
          (o : Option ℕ)
          → typed_at n e.num_bytes w.mem offset ≡ o
          → Safe e turns (elim o [ none ↦ faults | some v ↦ k v ])
      by_read none q = absurd (ground (arith, q, h))
      by_read (some v) q = i v

  pub by_pointer-Safe :
      (offset : ℕ) (w : Walker) (a b c : ℕ → Walked)
      → offset + 8 ≤ e.num_bytes
      → ((v : ℕ) → Safe e turns (a v))
      → ((v : ℕ) → Safe e turns (b v))
      → ((v : ℕ) → Safe e turns (c v))
      → Safe e turns (by_pointer e offset w a b c)
  by_pointer-Safe offset w a b c h i j k =
      with_word-Safe 8 offset w
        (λ v. elim (get_pointer_state e.mode v) [ present ↦ a v | absent ↦ b v | invalid ↦ c v ]) h
        (λ v. by_state v (get_pointer_state e.mode v))
    where
      by_state :
          (v : ℕ) (s : PointerState)
          → Safe e turns (elim s [ present ↦ a v | absent ↦ b v | invalid ↦ c v ])
      by_state v present = i v
      by_state v absent = j v
      by_state v invalid = k v

  -- A pointer inside of the message can be updated, and the stack and the storage are as they were.
  pub updating-Safe :
      (p v : ℕ) (w : Walker) (k : Walker → Walked)
      → p + 8 ≤ e.num_bytes
      → ((w' : Walker)
          → w'.frames ≡ w.frames
          → w'.out_of_line_offset ≡ w.out_of_line_offset
          → Safe e turns (k w'))
      → Safe e turns (updating e p v w k)
  updating-Safe p v w k h i = by_update (update_pointer e p v w) refl
    where
      by_update :
          (o : Option Walker)
          → update_pointer e p v w ≡ o
          → Safe e turns (elim o [ none ↦ faults | some w' ↦ k w' ])
      by_update none q = absurd (update_pointer-inside e p v w h q)
      by_update (some w') q =
          let u = update_pointer-Updated e p v w w' q in i w' u.same_frames u.same_storage

  -- Storage that is granted lies in the message, and the stack is as it was.
  pub claiming-Safe :
      (err : Error) (size storage : ℕ) (w : Walker) (k : ℕ → Walker → Walked)
      → ((offset : ℕ) (w' : Walker)
          → offset + size ≤ e.num_bytes
          → w'.frames ≡ w.frames
          → w.out_of_line_offset + size ≤ w'.out_of_line_offset
          → w'.out_of_line_offset ≤ e.num_bytes
          → Safe e turns (k offset w'))
      → Safe e turns (claiming e err size storage w k)
  claiming-Safe err size storage w k h = by_claim (claim_out_of_line_storage e size storage w) refl
    where
      by_claim :
          (o : Option (ℕ × Walker))
          → claim_out_of_line_storage e size storage w ≡ o
          → Safe e turns (elim o [ none ↦ fail e err w | some (offset, w') ↦ k offset w' ])
      by_claim none q = fail-Safe e turns err w typed
      by_claim (some (offset, w')) q =
          let g = claim-Granted e size storage offset w w' q in
          h offset w' (omega (arith, g.holds, g.inside)) (ap (λ (x : Walker). x.frames) g.rest)
            (omega (arith, g.holds, g.starts)) g.inside

  pub get-Safe :
      {A : Type 0} (l : List A) (i : ℕ) (k : A → Walked)
      → i < length l
      → ((a : A) → get_elem? l i ≡ some a → Safe e turns (k a))
      → Safe e turns (elim (get_elem? l i) [ none ↦ faults | some a ↦ k a ])
  get-Safe {A} l i k h j = by_get (get_elem? l i) refl
    where
      by_get :
          (o : Option A)
          → get_elem? l i ≡ o
          → Safe e turns (elim o [ none ↦ faults | some a ↦ k a ])
      by_get none q = absurd (get_elem?-ne-none l i h q)
      by_get (some a) q = j a q

pub Turn-Fits :
    {e : Message} {left : ℕ} {f : Frame} {rest : List Frame} {w : Walker} (s : FrameState)
    → Turn e left f rest w
    → f.state ≡ s
    → Fits e s f
Turn-Fits {e} {left} {f} s t q = subst (λ (x : FrameState). Fits e x f) q t.stands.fits.0
