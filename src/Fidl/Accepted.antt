-- ===== src/Fidl/Accepted.antt =====
-- What is known of a message that fidl_validate or fidl_decode of pkg/fidl has accepted, and what
-- the validator leaves alone.
use fuchsia_sdk.Base.{
  Bool, ℕ, ◌≡◌, ◌≢◌, refl, ◌&&◌, not, Option, none, some, arith, ◌==◌, if◌then◌else◌, Bool-cases,
  inl, inr,
}
use fuchsia_sdk.Fidl.Frames.{Frame}
use fuchsia_sdk.Fidl.Visitor.{
  null_actual_handles, validator, Message, Walker, Error, set_error, update_pointer, handle_count,
  null_handles,
}
use fuchsia_sdk.Fidl.Claims.{
  claimed, exhausted, claim_handle, claimed_handle, unclaimed_handle, claim_out_of_line_storage,
}
use fuchsia_sdk.Fidl.Stack.{Walked, goes, stops, faults, set_top}
use fuchsia_sdk.Fidl.Walk.{fidl_encode, walk, fidl_validate, fidl_decode, check_handles, after_walk}
use fuchsia_sdk.Fidl.Rules.{IsKept, Leads}
use fuchsia_sdk.Fidl.Walks.{walk-Leads}

-- If there is no error, every byte belongs to an object.
abbrev pub AllClaimed : Message → Walker → Type 0
AllClaimed e w = w.error ≡ none → w.out_of_line_offset ≡ e.num_bytes

errs : (e : Message) (err : Error) (w : Walker) → (set_error e err w).error ≢ none
unfolding set_error
errs e err w = ground arith

errs-AllClaimed : (e : Message) (err : Error) (w : Walker) → AllClaimed e (set_error e err w)
errs-AllClaimed e err w q = absurd (errs e err w q)

AllClaimed-IsKept : (e : Message) → IsKept e (λ _. Unit) (AllClaimed e)
AllClaimed-IsKept e = record {
  at_top = λ f w i. tt;
  popped = λ f rest w q i. tt;
  pushed = λ f w q i. tt;
  erred = λ err w i. tt;
  updated = λ p v w w' q i. tt;
  stored = λ size storage offset w w' q i. tt;
  handed = λ p w w' q i. tt;
  unhanded = λ p w w' q i. tt;
  failed = λ err w i. errs-AllClaimed e err w;
  finished = λ w q i _. q;
}

walk-AllClaimed :
    (fuel : ℕ) (e : Message) (w : Walker) → Leads (λ _. Unit) (AllClaimed e) (walk fuel e w)
walk-AllClaimed fuel e w =
    walk-Leads e (λ _. Unit) (AllClaimed e) (AllClaimed-IsKept e) fuel w (λ t size h. tt)
      (λ err. errs-AllClaimed e err w)

-- If there is no error, every byte belongs to an object and every handle was consumed.
abbrev pub AllConsumed : Message → Walker → Type 0
AllConsumed e w =
    w.error ≡ none → (w.out_of_line_offset ≡ e.num_bytes) × (w.handle_idx ≡ e.num_handles)

check_handles-AllConsumed :
    (e : Message) (w : Walker) → AllClaimed e w → AllConsumed e (check_handles e w)
check_handles-AllConsumed e w h = by_error w.error refl
  where
    by_error :
        (o : Option Error)
        → w.error ≡ o
        → AllConsumed e (elim o [
          | none ↦ if w.handle_idx == e.num_handles then w else set_error e handle_count w
          | some _ ↦ w
        ])
    by_error none n = elim (Bool-cases (w.handle_idx == e.num_handles)) [
      | inl all ↦ rw all (λ q. (h n, ground arith))
      | inr fewer ↦ rw fewer (λ q. absurd (errs e handle_count w q))
    ]
    by_error (some err) n = λ q. absurd (ground (arith, q, n))

after_walk-Leads :
    (P Q R : Walker → Type 0) (f : Walker → Walker) (o : Walked)
    → ((w : Walker) → Q w → R (f w))
    → Leads P Q o
    → Leads P R (after_walk f o)
after_walk-Leads P Q R f (goes w) h l = l
after_walk-Leads P Q R f (stops w) h l = h w l
after_walk-Leads P Q R f faults h l = tt

-- fidl_validate accepts a message only if each of its bytes is claimed by an object and each of
-- its handles is consumed.
pub fidl_validate-AllConsumed :
    (fuel : ℕ) (e : Message) (w : Walker)
    → Leads (λ _. Unit) (AllConsumed e) (fidl_validate fuel e w)
unfolding fidl_validate
fidl_validate-AllConsumed fuel e w =
    after_walk-Leads (λ _. Unit) (AllClaimed e) (AllConsumed e) (check_handles e) (walk fuel e w)
      (check_handles-AllConsumed e) (walk-AllClaimed fuel e w)

-- fidl_decode accepts a message only if each of its bytes is claimed by an object and each of its
-- handles is consumed.
pub fidl_decode-AllConsumed :
    (fuel : ℕ) (e : Message) (w : Walker) → Leads (λ _. Unit) (AllConsumed e) (fidl_decode fuel e w)
unfolding fidl_decode
fidl_decode-AllConsumed fuel e w = elim (Bool-cases (e.handles_null && not (e.num_handles == 0))) [
  | inl bad ↦ rw bad (λ q. absurd (errs e null_handles w q))
  | inr good ↦ rw good (
      after_walk-Leads (λ _. Unit) (AllClaimed e) (AllConsumed e) (check_handles e) (walk fuel e w)
        (check_handles-AllConsumed e) (walk-AllClaimed fuel e w))
]

-- The bytes and handles are as they were, and no handle has been closed.
pub record IsUntouched (v w : Walker) : Type 0 where
  pub same_mem : w.mem ≡ v.mem
  pub same_handles : w.handles ≡ v.handles
  pub same_closed : w.closed ≡ v.closed

set_error-IsUntouched :
    (e : Message) (v w : Walker) (err : Error)
    → e.mode ≡ validator
    → IsUntouched v w
    → IsUntouched v (set_error e err w)
unfolding set_error
set_error-IsUntouched e v w err m i = record {
  same_mem = ground (arith, i.same_mem, m);
  same_handles = ground (arith, i.same_handles, m);
  same_closed = ground (arith, i.same_closed, m);
}

update_pointer-IsUntouched :
    (e : Message) (v w w' : Walker) (p x : ℕ)
    → e.mode ≡ validator
    → update_pointer e p x w ≡ some w'
    → IsUntouched v w
    → IsUntouched v w'
unfolding update_pointer
update_pointer-IsUntouched e v w w' p x m q i = record {
  same_mem = ground (arith, i.same_mem, m);
  same_handles = ground (arith, i.same_handles, m);
  same_closed = ground (arith, i.same_closed, m);
}

handed-IsUntouched :
    (e : Message) (v w : Walker) (w' : Walker) (p : Option ℕ)
    → e.mode ≡ validator
    → claim_handle e p w ≡ claimed w'
    → IsUntouched v w
    → IsUntouched v (w')
unfolding claim_handle claimed_handle unclaimed_handle
handed-IsUntouched e v w w' p m q i = record {
  same_mem = ground (arith, i.same_mem, m);
  same_handles = ground (arith, i.same_handles, m);
  same_closed = ground (arith, i.same_closed, m);
}

unhanded-IsUntouched :
    (e : Message) (v w : Walker) (w' : Walker) (p : Option ℕ)
    → e.mode ≡ validator
    → claim_handle e p w ≡ exhausted w'
    → IsUntouched v w
    → IsUntouched v (w')
unfolding claim_handle claimed_handle unclaimed_handle
unhanded-IsUntouched e v w w' p m q i = record {
  same_mem = ground (arith, i.same_mem, m);
  same_handles = ground (arith, i.same_handles, m);
  same_closed = ground (arith, i.same_closed, m);
}

stored-IsUntouched :
    (e : Message) (v w : Walker) (w' : Walker) (size storage offset : ℕ)
    → e.mode ≡ validator
    → claim_out_of_line_storage e size storage w ≡ some (offset, w')
    → IsUntouched v w
    → IsUntouched v (w')
unfolding claim_out_of_line_storage
stored-IsUntouched e v w w' size storage offset m q i = record {
  same_mem = ground (arith, i.same_mem, m);
  same_handles = ground (arith, i.same_handles, m);
  same_closed = ground (arith, i.same_closed, m);
}

set_top-IsUntouched :
    (e : Message) (v w : Walker) (f : Frame)
    → e.mode ≡ validator
    → IsUntouched v w
    → IsUntouched v (set_top f w)
unfolding set_top
set_top-IsUntouched e v w f m i = record {
  same_mem = ground (arith, i.same_mem, m);
  same_handles = ground (arith, i.same_handles, m);
  same_closed = ground (arith, i.same_closed, m);
}

IsUntouched-IsKept :
    (e : Message) (v : Walker) → e.mode ≡ validator → IsKept e (IsUntouched v) (IsUntouched v)
IsUntouched-IsKept e v m = record {
  at_top = λ f w i. set_top-IsUntouched e v w f m i;
  popped = λ f rest w q i. record {
    same_mem = i.same_mem;
    same_handles = i.same_handles;
    same_closed = i.same_closed;
  };
  pushed = λ f w q i. record {
    same_mem = i.same_mem;
    same_handles = i.same_handles;
    same_closed = i.same_closed;
  };
  erred = λ err w i. set_error-IsUntouched e v w err m i;
  updated = λ p x w w' q i. update_pointer-IsUntouched e v w w' p x m q i;
  stored = λ size storage offset w w' q i. stored-IsUntouched e v w w' size storage offset m q i;
  handed = λ p w w' q i. handed-IsUntouched e v w w' p m q i;
  unhanded = λ p w w' q i. unhanded-IsUntouched e v w w' p m q i;
  failed = λ err w i. set_error-IsUntouched e v w err m i;
  finished = λ w q i. i;
}

check_handles-IsUntouched :
    (e : Message) (v w : Walker)
    → e.mode ≡ validator
    → IsUntouched v w
    → IsUntouched v (check_handles e w)
check_handles-IsUntouched e v w m i = by_error w.error
  where
    by_error :
        (o : Option Error)
        → IsUntouched v (elim o [
          | none ↦ if w.handle_idx == e.num_handles then w else set_error e handle_count w
          | some _ ↦ w
        ])
    by_error none = elim (Bool-cases (w.handle_idx == e.num_handles)) [
      | inl all ↦ rw all i
      | inr fewer ↦ rw fewer (set_error-IsUntouched e v w handle_count m i)
    ]
    by_error (some err) = i

-- fidl_validate changes neither the bytes nor the handles of the message and closes no handle,
-- however long it runs and whatever it finds.
pub fidl_validate-IsUntouched :
    (fuel : ℕ) (e : Message) (w : Walker)
    → e.mode ≡ validator
    → Leads (IsUntouched w) (IsUntouched w) (fidl_validate fuel e w)
unfolding fidl_validate
fidl_validate-IsUntouched fuel e w m =
    let i : IsUntouched w w = record { same_mem = refl; same_handles = refl; same_closed = refl } in
    after_walk-Leads (IsUntouched w) (IsUntouched w) (IsUntouched w) (check_handles e)
      (walk fuel e w) (λ w' j. check_handles-IsUntouched e w w' m j)
      (walk-Leads e (IsUntouched w) (IsUntouched w) (IsUntouched-IsKept e w m) fuel w
        (λ t size h. record {
          same_mem = i.same_mem;
          same_handles = i.same_handles;
          same_closed = i.same_closed;
        })
        (λ err. set_error-IsUntouched e w w err m i))

-- fidl_encode accepts a message only if each of its bytes is claimed by an object.
pub fidl_encode-AllClaimed :
    (fuel : ℕ) (actual_handles_null : Bool) (e : Message) (w : Walker)
    → Leads (λ _. Unit) (AllClaimed e) (fidl_encode fuel actual_handles_null e w)
unfolding fidl_encode
fidl_encode-AllClaimed fuel b e w = elim (Bool-cases (e.handles_null && not (e.num_handles == 0))) [
  | inl bad ↦ rw bad (errs-AllClaimed e null_handles w)
  | inr good ↦ elim (Bool-cases b) [
    | inl null ↦ rw (good, null) (errs-AllClaimed e null_actual_handles w)
    | inr given ↦ rw (good, given) (walk-AllClaimed fuel e w)
  ]
]
