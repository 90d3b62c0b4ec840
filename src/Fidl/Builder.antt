-- ===== src/Fidl/Builder.antt =====
-- pkg/fidl/builder.cpp: storage for the objects of a message, one behind the other in a buffer.
use fuchsia_sdk.Base.{
  ℕ, ◌+◌, ◌-◌, ◌*◌, ◌%◌, ◌^◌, ◌≤◌, ◌<◌, ◌≡◌, refl, ◌⊎◌, inl, inr, false, ◌&&◌, Option, none, some,
  arith, ltb, leb, if◌then◌else◌, Bool-cases,
}
use fuchsia_sdk.Fidl.Tables.{u32, fidl_align}
use fuchsia_sdk.Fidl.Memory.{Bytes}

-- `Builder`, with the bytes behind `buffer_` by their distance from it.
pub record Builder : Type 0 where
  pub capacity : ℕ
  pub at : ℕ
  pub buffer : Bytes

-- `memset` to zero of so many bytes.
unfoldable pub memset : ℕ → ℕ → Bytes → Bytes
memset first len mem i = if leb first i && ltb i (first + len) then 0 else mem i

-- `Allocate` gives the distance of the object from `buffer_`.
unfoldable pub allocate : ℕ → Builder → Option ℕ × Builder
allocate size b =
    let limit = fidl_align (u32 (b.at + size)) in
    if ltb b.capacity limit then (none, b) else (
      some b.at,
      record b { at = u32 limit; buffer = memset b.at ((limit + 2 ^ 64 - b.at) % 2 ^ 64) b.buffer },
    )

-- `NewArray`, of objects of one size.
unfoldable pub new_array : ℕ → ℕ → Builder → Option ℕ × Builder
new_array element_size count b =
    if ltb (2 ^ 32 - 1) (element_size * count) then (none, b) else allocate (element_size * count) b

-- `Finalize` gives the capacity and the size of what was built.
unfoldable pub finalize : Builder → (ℕ × ℕ) × Builder
finalize b = ((b.capacity, b.at), record b { capacity = 0; at = 0 })

unfoldable pub reset : Bytes → ℕ → Builder → Builder
reset buffer capacity b = record { capacity = capacity; at = 0; buffer = buffer }

-- Objects end at multiples of 8 inside of the buffer.
pub record IsBuilder (b : Builder) : Type 0 where
  pub aligned : b.at % 8 ≡ 0
  pub inside : b.at ≤ b.capacity
  pub small : b.capacity < 2 ^ 32

-- Storage for so many bytes: it is all zero, padded to a multiple of 8, inside of the buffer, and
-- nothing else has changed.
pub record Allocated (size : ℕ) (b b' : Builder) : Type 0 where
  pub same_capacity : b'.capacity ≡ b.capacity
  pub holds : b.at + size ≤ b'.at
  pub padded : b'.at < b.at + size + 8
  pub kept : IsBuilder b'
  pub zeroed : (i : ℕ) → b.at ≤ i → i < b'.at → b'.buffer i ≡ 0
  pub below : (i : ℕ) → i < b.at → b'.buffer i ≡ b.buffer i
  pub above : (i : ℕ) → b'.at ≤ i → b'.buffer i ≡ b.buffer i

memset-inside :
    (first len i : ℕ) (mem : Bytes) → first ≤ i → i < first + len → memset first len mem i ≡ 0
unfolding memset
memset-inside first len i mem h k = ground (arith, h, k)

memset-outside :
    (first len i : ℕ) (mem : Bytes)
    → (i < first) ⊎ (first + len ≤ i)
    → memset first len mem i ≡ mem i
unfolding memset
memset-outside first len i mem h = ground (arith, h)

-- An answer of `Allocate`: there is no room and nothing changes, or storage behind the objects so
-- far.
abbrev pub IsAnswer : ℕ → Builder → Option ℕ × Builder → Type 0
IsAnswer size b (none, b') = (b' ≡ b) × (b.capacity < fidl_align (b.at + size))
IsAnswer size b (some p, b') = (p ≡ b.at) × Allocated size b b'

-- Builder::Allocate gives storage behind the objects so far, zeroed and padded to a multiple of 8,
-- and leaves all other bytes; or it refuses and changes nothing, exactly if the buffer ends too
-- early. The condition is that the end of the object is below 2^32.
pub allocate-IsAnswer :
    (size : ℕ) (b : Builder)
    → IsBuilder b
    → b.at + size < 2 ^ 32
    → IsAnswer size b (allocate size b)
unfolding allocate
allocate-IsAnswer size b h few =
    let unwrapped : u32 (b.at + size) ≡ b.at + size = omega (arith, few) in
    elim (Bool-cases (ltb b.capacity (fidl_align (u32 (b.at + size))))) [
      | inl short ↦ rw short (refl, ground (arith, short, unwrapped))
      | inr long ↦
          let fits : end_ ≤ b.capacity = ground (arith, long, unwrapped) in
          let short_size : u32 (fidl_align (u32 (b.at + size))) ≡ end_ =
            omega (arith, few, fits, h.small) in
          let length : (fidl_align (u32 (b.at + size)) + 2 ^ 64 - b.at) % 2 ^ 64 ≡ end_ - b.at =
            omega (arith, few, fits, h.small) in
          rw (long, short_size, length) (refl, at_end fits)
    ]
  where
    end_ : ℕ
    end_ = fidl_align (b.at + size)

    at_end :
        end_ ≤ b.capacity
        → Allocated size b (record b { at = end_; buffer = memset b.at (end_ - b.at) b.buffer })
    at_end fits = record {
      same_capacity = refl;
      holds = omega arith;
      padded = omega arith;
      kept = record { aligned = omega arith; inside = fits; small = h.small };
      zeroed = λ i j k. memset-inside b.at (end_ - b.at) i b.buffer j (omega (arith, k));
      below = λ i j. memset-outside b.at (end_ - b.at) i b.buffer (inl j);
      above = λ i j. memset-outside b.at (end_ - b.at) i b.buffer (inr (omega (arith, j)));
    }

-- Builder::NewArray wraps around: objects whose end is at 2^32 or behind it are given storage at
-- the end of the objects so far, though the buffer ends before they do; and the next object will not
-- be behind them.
pub new_array-overruns :
    (element_size count : ℕ) (b : Builder)
    → IsBuilder b
    → element_size * count < 2 ^ 32
    → 2 ^ 32 ≤ b.at + element_size * count
    → (b.capacity < b.at + element_size * count)
      × ((new_array element_size count b).0 ≡ some b.at)
      × ((new_array element_size count b).1.at ≤ b.at)
unfolding new_array allocate
new_array-overruns element_size count b h small far =
    let size = element_size * count in
    let end_ = fidl_align (u32 (b.at + size)) in
    let back : end_ ≤ b.at = omega (arith, h.aligned, small, far, h.inside, h.small) in
    let room : ltb b.capacity end_ ≡ false = ground (arith, back, h.inside) in
    let few : ltb (2 ^ 32 - 1) size ≡ false = ground (arith, small) in
    rw (few, room) (omega (arith, h.small, far), refl, omega (arith, back, h.inside, h.small))

-- The builder is empty afterwards.
pub finalize-IsBuilder : (b : Builder) → IsBuilder (finalize b).1
unfolding finalize
finalize-IsBuilder b = record { aligned = refl; inside = omega arith; small = omega arith }

pub reset-IsBuilder :
    (buffer : Bytes) (capacity : ℕ) (b : Builder)
    → capacity < 2 ^ 32
    → IsBuilder (reset buffer capacity b)
unfolding reset
reset-IsBuilder buffer capacity b h = record { aligned = refl; inside = omega arith; small = h }
