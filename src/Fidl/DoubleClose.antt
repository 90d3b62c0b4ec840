-- ===== src/Fidl/DoubleClose.antt =====
-- The handles that FidlDecoder of pkg/fidl/decoding.cpp closes.
use fuchsia_sdk.Base.{
  ℕ, zero, suc, ◌≤◌, ◌<◌, ◌≡◌, ap, false, none, List, [], ◌∷◌, arith, ◌==◌, if◌then◌else◌,
  Bool-cases, inl, inr,
}
use fuchsia_sdk.Fidl.Visitor.{Message, Walker, Error, decoder, close_many, set_error}
use fuchsia_sdk.Fidl.Claims.{claimed, claim_handle, claimed_handle, unclaimed_handle}

-- How often a handle has been closed.
unfoldable pub times_closed : ℕ → List ℕ → ℕ
times_closed h [] = 0
times_closed h (x ∷ l) = if x == h then suc (times_closed h l) else times_closed h l

close_many-more :
    (handles : ℕ → ℕ) (h n : ℕ) (l : List ℕ)
    → times_closed h l ≤ times_closed h (close_many handles n l)
unfolding close_many times_closed
close_many-more handles h zero l = omega arith
close_many-more handles h (suc n) l = ground (arith, close_many-more handles h n l)

-- Closing the first n handles closes each of them once more.
close_many-each :
    (handles : ℕ → ℕ) (i n : ℕ) (l : List ℕ)
    → i < n
    → suc (times_closed (handles i) l) ≤ times_closed (handles i) (close_many handles n l)
unfolding close_many times_closed
close_many-each handles i zero l h = absurd (omega (arith, h))
close_many-each handles i (suc n) l h = elim (Bool-cases (i == n)) [
  | inl last ↦
      let e : i ≡ n = ground arith in
      ground (arith, ap handles e, close_many-more handles (handles i) n l)
  | inr earlier ↦ ground (arith, close_many-each handles i n l (ground arith))
]

record Discarded (w w' : Walker) : Type 0 where
  same_handles : w'.handles ≡ w.handles
  closes : w'.closed ≡ w.handles w.handle_idx ∷ w.closed

discarded :
    (e : Message) (w w' : Walker)
    → e.mode ≡ decoder
    → claim_handle e none w ≡ claimed w'
    → Discarded w w'
unfolding claim_handle claimed_handle unclaimed_handle
discarded e w w' m q = record { same_handles = ground (arith, m); closes = ground (arith, m) }

closed_all :
    (e : Message) (err : Error) (w : Walker)
    → e.mode ≡ decoder
    → e.handles_null ≡ false
    → (set_error e err w).closed ≡ close_many w.handles e.num_handles w.closed
unfolding set_error
closed_all e err w m n = ground (arith, m, n)

closed_once : (h : ℕ) (l : List ℕ) → 1 ≤ times_closed h (h ∷ l)
unfolding times_closed
closed_once h l = ground arith

-- The decoder closes the handle of an unknown table field when it claims it, and once more if it
-- then reports any error.
pub discarded-twice :
    (e : Message) (err : Error) (w w' : Walker)
    → e.mode ≡ decoder
    → e.handles_null ≡ false
    → w.handle_idx < e.num_handles
    → claim_handle e none w ≡ claimed w'
    → 2 ≤ times_closed (w.handles w.handle_idx) (set_error e err w').closed
discarded-twice e err w w' m n h q =
    let d = discarded e w w' m q in
    let c = close_many-each w.handles w.handle_idx e.num_handles w'.closed h in
    let once : 1 ≤ times_closed (w.handles w.handle_idx) w'.closed =
      rw (d.closes) (closed_once (w.handles w.handle_idx) w.closed) in
    rw (closed_all e err w' m n, d.same_handles) (omega (arith, c, once))
