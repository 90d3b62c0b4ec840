-- ===== src/Fidl/Rules.antt =====
-- How a property of the walker of pkg/fidl/buffer_walker.h is carried through one turn of its loop:
-- what has to be shown of its parts, once for each property.
use fuchsia_sdk.Base.{
  ℕ, ◌≡◌, refl, Bool, true, false, Option, none, some, List, [], ◌∷◌, length, ◌==◌, if◌then◌else◌,
  Bool-cases, inl, inr,
}
use fuchsia_sdk.Fidl.Tables.{recursion_depth}
use fuchsia_sdk.Fidl.Memory.{typed_at}
use fuchsia_sdk.Fidl.Frames.{Frame}
use fuchsia_sdk.Fidl.Visitor.{
  Message, Walker, Error, set_error, update_pointer, continue_after_errors, PointerState, present,
  absent, invalid, get_pointer_state,
}
use fuchsia_sdk.Fidl.Claims.{
  HandleClaim, claimed, exhausted, wild_pointer, claim_handle, claim_out_of_line_storage,
}
use fuchsia_sdk.Fidl.Stack.{
  Walked, goes, stops, faults, pop, fail, push, set_top, with_word, by_pointer, claiming, updating,
}

-- P holds of the walker if the walk goes on, and Q if it returns.
abbrev pub Leads : (Walker → Type 0) → (Walker → Type 0) → Walked → Type 0
Leads P Q (goes w) = P w
Leads P Q (stops w) = Q w
Leads P Q faults = Unit

-- P is kept by all that the walk does to the walker, Q holds where it returns with an error, and
-- where it returns at the end of the message.
pub record IsKept (e : Message) (P Q : Walker → Type 0) : Type 0 where
  pub at_top : (f : Frame) (w : Walker) → P w → P (set_top f w)
  pub popped :
      (f : Frame) (rest : List Frame) (w : Walker)
      → w.frames ≡ f ∷ rest
      → P w
      → P (record w { frames = rest })
  pub pushed :
      (f : Frame) (w : Walker)
      → (length w.frames == recursion_depth) ≡ false
      → P w
      → P (record w { frames = f ∷ w.frames })
  pub erred : (err : Error) (w : Walker) → P w → P (set_error e err w)
  pub updated : (p v : ℕ) (w w' : Walker) → update_pointer e p v w ≡ some w' → P w → P w'
  pub stored :
      (size storage offset : ℕ) (w w' : Walker)
      → claim_out_of_line_storage e size storage w ≡ some (offset, w')
      → P w
      → P w'
  pub handed : (p : Option ℕ) (w w' : Walker) → claim_handle e p w ≡ claimed w' → P w → P w'
  pub unhanded : (p : Option ℕ) (w w' : Walker) → claim_handle e p w ≡ exhausted w' → P w → P w'
  pub failed : (err : Error) (w : Walker) → P w → Q (set_error e err w)
  pub finished : (w : Walker) → w.out_of_line_offset ≡ e.num_bytes → P w → Q w

module _ (e : Message) (P Q : Walker → Type 0) (kept : IsKept e P Q) where
  pub pop-Leads : (w : Walker) → P w → Leads P Q (pop w)
  unfolding pop
  pop-Leads w p = by_frames w.frames refl
    where
      by_frames : (l : List Frame) → w.frames ≡ l → Leads P Q (pop w)
      by_frames [] q = rw (q, pop) tt
      by_frames (f ∷ rest) q = rw (q, pop) (kept.popped f rest w q p)

  pub fail-Leads : (err : Error) (w : Walker) → P w → Leads P Q (fail e err w)
  unfolding fail
  fail-Leads err w p = elim (Bool-cases (continue_after_errors e.mode)) [
    | inl more ↦ rw more (pop-Leads (set_error e err w) (kept.erred err w p))
    | inr last ↦ rw last (kept.failed err w p)
  ]

  pub push-Leads : (err : Error) (f : Frame) (w : Walker) → P w → Leads P Q (push e err f w)
  unfolding push
  push-Leads err f w p = elim (Bool-cases (length w.frames == recursion_depth)) [
    | inl full ↦ rw full (fail-Leads err w p)
    | inr room ↦ rw room (kept.pushed f w room p)
  ]

  pub if-Leads :
      (b : Bool) (x y : Walked) → Leads P Q x → Leads P Q y → Leads P Q (if b then x else y)
  if-Leads true x y i j = i
  if-Leads false x y i j = j

  pub with_word-Leads :
      (n offset : ℕ) (w : Walker) (k : ℕ → Walked)
      → ((v : ℕ) → Leads P Q (k v))
      → Leads P Q (with_word e n offset w k)
  with_word-Leads n offset w k h = by_read (typed_at n e.num_bytes w.mem offset)
    where
      by_read : (o : Option ℕ) → Leads P Q (elim o [ none ↦ faults | some v ↦ k v ])
      by_read none = tt
      by_read (some v) = h v

  pub by_pointer-Leads :
      (offset : ℕ) (w : Walker) (a b c : ℕ → Walked)
      → ((v : ℕ) → Leads P Q (a v))
      → ((v : ℕ) → Leads P Q (b v))
      → ((v : ℕ) → Leads P Q (c v))
      → Leads P Q (by_pointer e offset w a b c)
  by_pointer-Leads offset w a b c i j k =
      with_word-Leads 8 offset w
        (λ v. elim (get_pointer_state e.mode v) [ present ↦ a v | absent ↦ b v | invalid ↦ c v ])
        (λ v. by_state v (get_pointer_state e.mode v))
    where
      by_state :
          (v : ℕ) (s : PointerState)
          → Leads P Q (elim s [ present ↦ a v | absent ↦ b v | invalid ↦ c v ])
      by_state v present = i v
      by_state v absent = j v
      by_state v invalid = k v

  pub claiming-Leads :
      (err : Error) (size storage : ℕ) (w : Walker) (k : ℕ → Walker → Walked)
      → P w
      → ((offset : ℕ) (w' : Walker) → P w' → Leads P Q (k offset w'))
      → Leads P Q (claiming e err size storage w k)
  claiming-Leads err size storage w k p h =
      by_claim (claim_out_of_line_storage e size storage w) refl
    where
      by_claim :
          (o : Option (ℕ × Walker))
          → claim_out_of_line_storage e size storage w ≡ o
          → Leads P Q (elim o [ none ↦ fail e err w | some (offset, w') ↦ k offset w' ])
      by_claim none q = fail-Leads err w p
      by_claim (some (offset, w')) q = h offset w' (kept.stored size storage offset w w' q p)

  pub updating-Leads :
      (p v : ℕ) (w : Walker) (k : Walker → Walked)
      → P w
      → ((w' : Walker) → P w' → Leads P Q (k w'))
      → Leads P Q (updating e p v w k)
  updating-Leads p v w k i h = by_update (update_pointer e p v w) refl
    where
      by_update :
          (o : Option Walker)
          → update_pointer e p v w ≡ o
          → Leads P Q (elim o [ none ↦ faults | some w' ↦ k w' ])
      by_update none q = tt
      by_update (some w') q = h w' (kept.updated p v w w' q i)

  pub claim_handle-Leads :
      (err : Error) (p : Option ℕ) (w : Walker) (k : Walker → Walked)
      → P w
      → ((w' : Walker) → P w' → Leads P Q (k w'))
      → Leads P Q (elim (claim_handle e p w) [
        | claimed w' ↦ k w'
        | exhausted w' ↦ fail e err w'
        | wild_pointer ↦ faults
      ])
  claim_handle-Leads err p w k q h = by_claim (claim_handle e p w) refl
    where
      by_claim :
          (c : HandleClaim)
          → claim_handle e p w ≡ c
          → Leads P Q
              (elim c [ claimed w' ↦ k w' | exhausted w' ↦ fail e err w' | wild_pointer ↦ faults ])
      by_claim (claimed w') r = h w' (kept.handed p w w' r q)
      by_claim (exhausted w') r = fail-Leads err w' (kept.unhanded p w w' r q)
      by_claim wild_pointer r = tt

  pub get-Leads :
      {A : Type 0} (o : Option A) (k : A → Walked)
      → ((a : A) → Leads P Q (k a))
      → Leads P Q (elim o [ none ↦ faults | some a ↦ k a ])
  get-Leads none k h = tt
  get-Leads (some a) k h = h a
