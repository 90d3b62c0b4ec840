-- ===== src/Fidl/Storage.antt =====
-- The claims of out-of-line storage of pkg/fidl/buffer_walker.h, and the words of a message.
use fuchsia_sdk.Base.{
  ℕ, zero, suc, ◌+◌, ◌*◌, ◌/◌, ◌%◌, ◌^◌, ◌≤◌, ◌<◌, ◌≡◌, ◌⊎◌, ◌↔◌, ◌≢◌, ◌==◌, refl, true, false,
  none, some, arith, Bool-cases, inl, inr,
}
use fuchsia_sdk.Fidl.Memory.{Bytes, read_le, write_le, update}
use fuchsia_sdk.Fidl.Visitor.{Mode, validator, encoder, decoder, Message, Walker, validate_claim}
use fuchsia_sdk.Fidl.Claims.{claim_out_of_line_storage}

-- What a granted claim gives: the storage starts where the claims so far end, holds the object,
-- and lies in the message; the claims so far then end behind it, at a multiple of 8, and less than
-- 8 bytes of padding are between.
pub record Granted (e : Message) (size offset : ℕ) (w w' : Walker) : Type 0 where
  pub starts : offset ≡ w.out_of_line_offset
  pub holds : offset + size ≤ w'.out_of_line_offset
  pub pads : w'.out_of_line_offset < offset + size + 8
  pub inside : w'.out_of_line_offset ≤ e.num_bytes
  pub aligned : w'.out_of_line_offset % 8 ≡ 0
  pub rest : w' ≡ record w { out_of_line_offset = w'.out_of_line_offset }

-- A claim that is granted gives storage at the end of the claims so far, which holds the object and
-- lies in the message; the claims then end behind the object, at a multiple of 8, with less than 8
-- bytes between. Nothing else of the walker changes.
pub claim-Granted :
    (e : Message) (size storage offset : ℕ) (w w' : Walker)
    → claim_out_of_line_storage e size storage w ≡ some (offset, w')
    → Granted e size offset w w'
unfolding claim_out_of_line_storage
claim-Granted e size storage offset w w' h = record {
  starts = ground arith;
  holds = ground arith;
  pads = ground arith;
  inside = ground arith;
  aligned = ground arith;
  rest = ground arith;
}

validate_claim-refuses :
    (m : Mode) (a b : ℕ) → validate_claim m a b ≡ false → (m ≡ encoder) × (a ≢ b)
unfolding validate_claim
validate_claim-refuses validator a b q = cc
validate_claim-refuses decoder a b q = cc
validate_claim-refuses encoder a b q = (refl, λ e. ground (arith, q, e))

-- A claim in the right place is refused for lack of room only.
no_room :
    (e : Message) (size storage : ℕ) (w : Walker)
    → e.num_bytes < 2 ^ 32
    → validate_claim e.mode storage (e.base + w.out_of_line_offset) ≡ true
    → claim_out_of_line_storage e size storage w ≡ none
    → (end : ℕ) → end % 8 ≡ 0
    → w.out_of_line_offset + size ≤ end
    → e.num_bytes < end
unfolding claim_out_of_line_storage
no_room e size storage w h here q end m l = ground (arith, h, here, q, m, l)

pub elsewhere_refused :
    (e : Message) (size storage : ℕ) (w : Walker)
    → e.mode ≡ encoder
    → storage ≢ e.base + w.out_of_line_offset
    → claim_out_of_line_storage e size storage w ≡ none
unfolding claim_out_of_line_storage validate_claim
elsewhere_refused e size storage w m n =
    let q : (storage == e.base + w.out_of_line_offset) ≡ false = ground (arith, n) in rw (m, q) refl

full_refused :
    (e : Message) (size storage : ℕ) (w : Walker)
    → e.num_bytes < (w.out_of_line_offset + size + 7) / 8 * 8
    → claim_out_of_line_storage e size storage w ≡ none
unfolding claim_out_of_line_storage
full_refused e size storage w full = ground (arith, full)

-- In a message of less than 2^32 bytes, a claim is refused exactly if no multiple of 8 up to the end
-- of the message stands behind the object, or, in the encoder, if the message gives another address
-- than that of the end of the claims so far.
pub claim-refused :
    (e : Message) (size storage : ℕ) (w : Walker)
    → e.num_bytes < 2 ^ 32
    → (claim_out_of_line_storage e size storage w ≡ none) ↔ (
        ((e.mode ≡ encoder) × (storage ≢ e.base + w.out_of_line_offset))
        ⊎ ((end : ℕ) → end % 8 ≡ 0 → w.out_of_line_offset + size ≤ end → e.num_bytes < end))
claim-refused e size storage w h = (refused, refuses)
  where
    from : ℕ
    from = w.out_of_line_offset

    refused :
        claim_out_of_line_storage e size storage w ≡ none
        → ((e.mode ≡ encoder) × (storage ≢ e.base + from))
          ⊎ ((end : ℕ) → end % 8 ≡ 0 → from + size ≤ end → e.num_bytes < end)
    refused q = elim (Bool-cases (validate_claim e.mode storage (e.base + from))) [
      | inl here ↦ inr (no_room e size storage w h here q)
      | inr elsewhere ↦ inl (validate_claim-refuses e.mode storage (e.base + from) elsewhere)
    ]

    refuses :
        ((e.mode ≡ encoder) × (storage ≢ e.base + from))
          ⊎ ((end : ℕ) → end % 8 ≡ 0 → from + size ≤ end → e.num_bytes < end)
        → claim_out_of_line_storage e size storage w ≡ none
    refuses (inl (m, n)) = elsewhere_refused e size storage w m n
    refuses (inr full) =
        full_refused e size storage w (full ((from + size + 7) / 8 * 8) (omega arith) (omega arith))

read-update : (n : ℕ) (m : Bytes) (p q v : ℕ) → q < p → read_le n (update m q v) p ≡ read_le n m p
unfolding read_le
read-update zero m p q v h = refl
read-update (suc n) m p q v h = ground (arith, read-update n m (p + 1) q v (omega arith))

-- A word of n bytes that is written is read back, if n bytes can hold it.
pub read-write : (n : ℕ) (m : Bytes) (p v : ℕ) → v < 256 ^ n → read_le n (write_le n m p v) p ≡ v
unfolding read_le write_le
read-write zero m p v h = omega (arith, h)
read-write (suc n) m p v h =
    let m' = write_le n m (p + 1) (v / 256) in
    let rest = read-update n m' (p + 1) p (v % 256) (omega arith) in
    let ih = read-write n m (p + 1) (v / 256) (by_power (256 ^ n) (pow_suc n)) in
    rw (rest, ih) (ground arith)
  where
    pow_suc : (n : ℕ) → 256 ^ suc n ≡ 256 * 256 ^ n
    pow_suc n = omega arith

    by_power : (x : ℕ) → 256 ^ suc n ≡ 256 * x → v / 256 < x
    by_power x e = omega (arith, e, h)
