-- ===== src/Fidl/Memory.antt =====
-- The bytes of a message, as pkg/fidl/buffer_walker.h reads and writes them: little-endian words at
-- any offset.
use fuchsia_sdk.Base.{
  ℕ, zero, suc, ◌+◌, ◌*◌, ◌/◌, ◌%◌, Option, none, some, leb, ◌==◌, if◌then◌else◌,
}

-- The byte at each offset from the start of the buffer.
abbrev pub Bytes : Type 0
Bytes = ℕ → ℕ

unfoldable pub read_le : ℕ → Bytes → ℕ → ℕ
read_le zero m offset = 0
read_le (suc n) m offset = m offset + 256 * read_le n m (offset + 1)

abbrev pub update : Bytes → ℕ → ℕ → Bytes
update m offset v = λ j. if j == offset then v else m j

unfoldable pub write_le : ℕ → Bytes → ℕ → ℕ → Bytes
write_le zero m offset v = m
write_le (suc n) m offset v = update (write_le n m (offset + 1) (v / 256)) offset (v % 256)

-- A read of n bytes through `TypedAt`, or none where it is not inside of the buffer.
unfoldable pub typed_at : ℕ → ℕ → Bytes → ℕ → Option ℕ
typed_at n num_bytes m offset =
    if leb (offset + n) num_bytes then some (read_le n m offset) else none
