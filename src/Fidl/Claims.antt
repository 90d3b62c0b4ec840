-- ===== src/Fidl/Claims.antt =====
-- `ClaimHandle` and `ClaimOutOfLineStorage` of pkg/fidl/buffer_walker.h, with the `UnclaimedHandle`
-- and `ClaimedHandle` of the derived classes.
use fuchsia_sdk.Base.{
  ℕ, ◌+◌, ◌*◌, ◌/◌, ◌^◌, Option, none, some, ◌∷◌, leb, ltb, ◌==◌, if◌then◌else◌, ◌||◌,
}
use fuchsia_sdk.Fidl.Tables.{u32, handle_present}
use fuchsia_sdk.Fidl.Memory.{read_le, update}
use fuchsia_sdk.Fidl.Visitor.{
  Mode, validator, encoder, decoder, Message, Walker, write_at, validate_claim,
}

-- A handle is claimed, or none is left, or a pointer that is null or outside of the buffer was
-- written through.
pub data HandleClaim : Type 0 where
  claimed : Walker → HandleClaim
  exhausted : Walker → HandleClaim
  wild_pointer : HandleClaim

abbrev pub next_handle : Walker → Walker
next_handle w = record w { handle_idx = u32 (w.handle_idx + 1) }

-- `UnclaimedHandle`, by mode and where the handle stands in the message (none for a null pointer).
unfoldable pub unclaimed_handle : Mode → Option ℕ → Walker → HandleClaim
unclaimed_handle encoder none w = wild_pointer
unclaimed_handle encoder (some p) w = exhausted (record w { closed = read_le 4 w.mem p ∷ w.closed })
unclaimed_handle validator p w = exhausted w
unclaimed_handle decoder p w = exhausted w

-- The handle is claimed once it has been written.
abbrev claimed_by : Option Walker → HandleClaim
claimed_by none = wild_pointer
claimed_by (some w) = claimed (next_handle w)

-- `ClaimedHandle`.
unfoldable pub claimed_handle : Message → Mode → Option ℕ → Walker → HandleClaim
claimed_handle e encoder none w = wild_pointer
claimed_handle e encoder (some p) w = claimed_by (
    write_at 4 e p handle_present
      (record w { handles = update w.handles w.handle_idx (read_le 4 w.mem p) }))
claimed_handle e decoder none w =
    claimed (next_handle (record w { closed = w.handles w.handle_idx ∷ w.closed }))
claimed_handle e decoder (some p) w = claimed_by (write_at 4 e p (w.handles w.handle_idx) w)
claimed_handle e validator p w = claimed (next_handle w)

unfoldable pub claim_handle : Message → Option ℕ → Walker → HandleClaim
unfolding unclaimed_handle claimed_handle
claim_handle e p w =
    if w.handle_idx == e.num_handles
    then unclaimed_handle e.mode p w
    else claimed_handle e e.mode p w

-- The claimed offset and the walker after it, or none where the claim is refused. `storage` is the
-- address that the message gives. The two `add_overflow` are into a `uint32_t`.
unfoldable pub claim_out_of_line_storage : Message → ℕ → ℕ → Walker → Option (ℕ × Walker)
claim_out_of_line_storage e size storage w =
    let start = w.out_of_line_offset in
    let offset = (start + size + 7) / 8 * 8 in
    if validate_claim e.mode storage (e.base + start)
    then if leb (2 ^ 32) (start + size) || leb (2 ^ 32) (start + size + 7)
      then none
      else if ltb e.num_bytes offset
      then none
      else some (start, record w { out_of_line_offset = offset })
    else none
