-- ===== src/Fidl/Examples.antt =====
-- pkg/fidl on a concrete message: a struct of one string and one handle, with the string's four
-- bytes out of line.
use fuchsia_sdk.Base.{
  ◌≤◌, zero, suc, ◌+◌, ◌*◌, ◌≡◌, ◌<◌, ◌↔◌, ◌⊎◌, refl, false, none, some, [], ◌∷◌, arith,
}
use fuchsia_sdk.Fidl.Tables.{
  FidlTypes, coded_struct, coded_string, coded_handle, alloc_present, handle_present,
}
use fuchsia_sdk.Fidl.Memory.{Bytes, read_le, write_le, typed_at}
use fuchsia_sdk.Fidl.Visitor
use fuchsia_sdk.Fidl.Visitor.{
  Mode, validator, encoder, decoder, Message, Walker, present, get_pointer_state, validate_claim,
}
use fuchsia_sdk.Fidl.Claims.{claim_out_of_line_storage}
use fuchsia_sdk.Fidl.Stack.{faults, fail}
use fuchsia_sdk.Fidl.Table.{envelope_contents}
use fuchsia_sdk.Fidl.Walk.{walk, walk_loop, new_walker, fidl_validate, fidl_decode}
use fuchsia_sdk.Fidl.Rules.{Leads}
use fuchsia_sdk.Fidl.Storage.{Granted, claim-Granted, claim-refused, read-write}
use fuchsia_sdk.Fidl.Bounds.{Within, walk-Within}
use fuchsia_sdk.Fidl.Accepted.{AllConsumed, IsUntouched, fidl_validate-IsUntouched}
use fuchsia_sdk.Base.{ℕ, Bool, true, ◌≢◌, ◌%◌}
use fuchsia_sdk.Fidl.Visitor.{continue_after_errors}
use fuchsia_sdk.Fidl.Typed.{IsWhole, IsTyped}
use fuchsia_sdk.Fidl.Builder.{
  Builder, IsBuilder, IsAnswer, allocate, new_array, allocate-IsAnswer, new_array-overruns,
}
use fuchsia_sdk.Fidl.Returns.{Returns, enough_turns, fidl_validate-Returns, fidl_decode-Returns}
use fuchsia_sdk.Fidl.Tables.{type_size}
use fuchsia_sdk.Fidl.Frames.{frame_of, done_sentinel, next_struct_field}
use fuchsia_sdk.Fidl.Visitor.{get_handle_state, update_pointer, get_pointer_state, validate_claim}
use fuchsia_sdk.Fidl.Stack.{Walked, goes, stops, pop, fail, push, set_top}
use fuchsia_sdk.Fidl.Steps.{struct_step, string_step, handle_step, done_step}
use fuchsia_sdk.Fidl.Walk.{start, start_type, start_at, step, frame_step, fidl_encode}
use fuchsia_sdk.Fidl.Accepted.{AllClaimed, fidl_encode-AllClaimed}
use fuchsia_sdk.Fidl.DoubleClose.{times_closed, discarded-twice}
use fuchsia_sdk.Fidl.Visitor.{set_error}
use fuchsia_sdk.Fidl.Claims.{claim_handle, claimed_handle}
use fuchsia_sdk.Fidl.TableFaults.{envelope_contents-refused}

-- The struct at address 0, the string at 1 and the handle at any other.
abbrev types : FidlTypes
types zero = coded_struct (record {
  fields = record { kind = 1; offset = 0 } ∷ record { kind = 2; offset = 16 } ∷ [];
  size = 24;
})
types (suc zero) = coded_string (record { max_size = 100; nullable = false })
types (suc (suc n)) = coded_handle (record { handle_subtype = 0; nullable = false })

abbrev message : Mode → Message
message mode = record {
  mode = mode;
  types = types;
  root = some 0;
  base = 4096;
  num_bytes = 32;
  handles_null = false;
  num_handles = 1;
}

abbrev bytes : Bytes
bytes = write_le 8 (write_le 8 (write_le 4 (λ i. 0) 16 handle_present) 8 alloc_present) 0 4

abbrev fresh : Walker
fresh = new_walker bytes (λ i. 77)

walk-Within_example :
    Leads
      (Within (message decoder))
      (Within (message decoder))
      (walk 20 (message decoder) (new_walker bytes (λ i. 77)))
walk-Within_example = walk-Within 20 (message decoder) bytes (λ i. 77) (omega arith)

fidl_validate-IsUntouched_example :
    Leads (IsUntouched fresh) (IsUntouched fresh) (fidl_validate 20 (message validator) fresh)
fidl_validate-IsUntouched_example = fidl_validate-IsUntouched 20 (message validator) fresh refl

-- A walker whose inline part is claimed, and the one after a claim of 4 bytes.
abbrev inline_claimed : Walker
inline_claimed = record fresh { out_of_line_offset = 24 }

abbrev all_claimed : Walker
all_claimed = record fresh { out_of_line_offset = 32 }

claim-Granted_example : Granted (message decoder) 4 24 inline_claimed all_claimed
unfolding claim_out_of_line_storage validate_claim
claim-Granted_example = claim-Granted (message decoder) 4 0 24 inline_claimed all_claimed refl

claim-refused_example : (claim_out_of_line_storage (message decoder) 9 0 inline_claimed ≡ none) ↔ (
    ((decoder ≡ encoder) × (0 ≢ 4096 + 24)) ⊎ ((end : ℕ) → end % 8 ≡ 0 → 24 + 9 ≤ end → 32 < end))
claim-refused_example = claim-refused (message decoder) 9 0 inline_claimed (omega arith)

read-write_example : read_le 8 (write_le 8 bytes 8 alloc_present) 8 ≡ alloc_present
read-write_example = read-write 8 bytes 8 alloc_present (omega arith)

envelope_contents-refused_example :
    envelope_contents
      (message encoder)
      (some (record { kind = 1; ordinal = 1 }))
      8
      16
      0
      inline_claimed
    ≡ fail (message encoder) Visitor.table_field_too_large inline_claimed
envelope_contents-refused_example =
    envelope_contents-refused (message encoder) (some (record { kind = 1; ordinal = 1 })) 8 16 0
      inline_claimed refl (ground arith)

-- The decoder after it has discarded the one handle.
abbrev handle_discarded : Walker
handle_discarded = record fresh { handle_idx = 1; closed = 77 ∷ [] }

discarded-twice_example :
    2
    ≤ times_closed 77 (set_error (message decoder) Visitor.undecoded_bytes handle_discarded).closed
unfolding claim_handle claimed_handle new_walker
discarded-twice_example =
    discarded-twice (message decoder) Visitor.undecoded_bytes fresh handle_discarded refl refl
      (omega arith) refl

fidl_encode-AllClaimed_example :
    Leads (λ _. Unit) (AllClaimed (message encoder)) (fidl_encode 20 false (message encoder) fresh)
fidl_encode-AllClaimed_example = fidl_encode-AllClaimed 20 false (message encoder) fresh

-- The walk has returned without an error.
unfoldable accepted : Walked → Bool
accepted (goes w) = false
accepted (stops w) = elim w.error [ none ↦ true | some err ↦ false ]
accepted faults = false

-- The message is accepted by the validator and the decoder.
validator_accepts : accepted (fidl_validate 20 (message validator) fresh) ≡ true
unfolding accepted fidl_validate walk start start_type start_at walk_loop step frame_step
    struct_step string_step handle_step done_step frame_of done_sentinel next_struct_field typed_at
    read_le write_le get_pointer_state get_handle_state claim_out_of_line_storage validate_claim
    update_pointer claim_handle claimed_handle pop fail push set_top new_walker type_size
validator_accepts = refl

decoder_accepts : accepted (fidl_decode 20 (message decoder) fresh) ≡ true
unfolding accepted fidl_decode walk start start_type start_at walk_loop step frame_step struct_step
    string_step handle_step done_step frame_of done_sentinel next_struct_field typed_at read_le
    write_le get_pointer_state get_handle_state claim_out_of_line_storage validate_claim
    update_pointer claim_handle claimed_handle pop fail push set_top new_walker type_size
decoder_accepts = refl

types-IsWhole : (k : ℕ) → IsWhole types (types k)
unfolding type_size
types-IsWhole zero = record { few = omega arith; fit = (omega arith, (omega arith, tt)) }
types-IsWhole (suc zero) = tt
types-IsWhole (suc (suc n)) = tt

message-IsTyped : (mode : Mode) → continue_after_errors mode ≡ false → IsTyped (message mode)
message-IsTyped mode h = record { stops_at_errors = h; small = omega arith; whole = types-IsWhole }

fidl_validate-Returns_example :
    Returns (AllConsumed (message validator)) (fidl_validate enough_turns (message validator) fresh)
fidl_validate-Returns_example =
    fidl_validate-Returns enough_turns (message validator) fresh (message-IsTyped validator refl)
      (omega arith)

fidl_decode-Returns_example :
    Returns (AllConsumed (message decoder)) (fidl_decode enough_turns (message decoder) fresh)
fidl_decode-Returns_example =
    fidl_decode-Returns enough_turns (message decoder) fresh (message-IsTyped decoder refl)
      (omega arith)

-- A builder over 64 bytes that has given 8.
abbrev started_builder : Builder
started_builder = record { capacity = 64; at = 8; buffer = λ i. 1 }

started_builder-IsBuilder : IsBuilder started_builder
started_builder-IsBuilder = record { aligned = refl; inside = omega arith; small = omega arith }

allocate-IsAnswer_example : IsAnswer 20 started_builder (allocate 20 started_builder)
allocate-IsAnswer_example =
    allocate-IsAnswer 20 started_builder started_builder-IsBuilder (omega arith)

new_array-overruns_example :
    (64 < 8 + 1 * 4294967288)
    × ((new_array 1 4294967288 started_builder).0 ≡ some 8)
    × ((new_array 1 4294967288 started_builder).1.at ≤ 8)
new_array-overruns_example =
    new_array-overruns 1 4294967288 started_builder started_builder-IsBuilder (omega arith)
      (omega arith)
