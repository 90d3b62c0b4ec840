-- ===== src/Fidl/TableFaults.antt =====
-- The contents of table fields in the encoder, over pkg/fidl/buffer_walker.h.
use fuchsia_sdk.Base.{ℕ, ◌+◌, ◌≡◌, ◌≢◌, ap, Option, none, some, arith}
use fuchsia_sdk.Fidl.Tables.{FidlTableField, type_size}
use fuchsia_sdk.Fidl.Frames.{frame_of}
use fuchsia_sdk.Fidl.Visitor
use fuchsia_sdk.Fidl.Visitor.{
  Message, Walker, encoder, present, get_pointer_state, validate_claim, PointerState, absent,
  invalid, Error, update_pointer,
}
use fuchsia_sdk.Fidl.Claims.{claim_out_of_line_storage}
use fuchsia_sdk.Fidl.Storage.{elsewhere_refused}
use fuchsia_sdk.Fidl.Stack.{Walked, fail, claiming, push, updating}
use fuchsia_sdk.Fidl.Table.{envelope_contents, discard_handles}

module _ (e : Message) (err : Error) (size storage : ℕ) (w : Walker) (k : ℕ → Walker → Walked) where
  claiming-none :
      claim_out_of_line_storage e size storage w ≡ none
      → claiming e err size storage w k ≡ fail e err w
  claiming-none = ap λ o. elim o [ none ↦ fail e err w | some (offset, w') ↦ k offset w' ]

none_claimed :
    (e : Message) (size d : ℕ) (w : Walker)
    → e.mode ≡ encoder
    → d ≢ w.out_of_line_offset
    → claim_out_of_line_storage e size (e.base + d) w ≡ none
none_claimed e size d w m n = elsewhere_refused e size (e.base + d) w m (λ q. n (omega (arith, q)))

-- The encoder refuses every present field of a table, known or not and wherever its contents are,
-- unless the pointer to the contents itself stands where the next contents would go: it compares
-- the address of the pointer, and not the pointer, with the end of the claims so far.
pub envelope_contents-refused :
    (e : Message) (known : Option FidlTableField) (data_offset bytes handles : ℕ) (w : Walker)
    → e.mode ≡ encoder
    → data_offset ≢ w.out_of_line_offset
    → envelope_contents e known data_offset bytes handles w ≡ fail e Visitor.table_field_too_large w
unfolding envelope_contents
envelope_contents-refused e (some field) d bytes handles w m n =
    claiming-none e Visitor.table_field_too_large (type_size (e.types field.kind)) (e.base + d) w
      (λ offset w'.
        updating e d offset w' (push e Visitor.depth_table (frame_of (e.types field.kind) offset)))
      (none_claimed e (type_size (e.types field.kind)) d w m n)
envelope_contents-refused e none d bytes handles w m n =
    claiming-none e Visitor.table_field_too_large bytes (e.base + d) w
      (λ offset w'. updating e d offset w' (discard_handles e handles))
      (none_claimed e bytes d w m n)
