-- ===== src/Fidl/Work.antt =====
-- How many turns of the loop of pkg/fidl/buffer_walker.h a stack of frames can still take.
use fuchsia_sdk.Base.{
  ℕ, zero, suc, ◌+◌, ◌-◌, ◌*◌, ◌^◌, ◌≤◌, ◌<◌, ◌≡◌, refl, ap, List, [], ◌∷◌, arith, length,
}
use fuchsia_sdk.Fidl.Frames.{
  Frame, FrameState, TableState, state_struct, state_struct_pointer, state_table,
  state_table_pointer, state_union, state_union_pointer, state_array, state_string, state_handle,
  state_vector, state_done,
}
use fuchsia_sdk.Fidl.Visitor.{Message}
use fuchsia_sdk.Fidl.Typed.{Fits, TableFits}

-- The turns of a frame itself, and of the frames that take its place, while so many bytes of the
-- message are unclaimed: a chain of unions through nullable pointers is as long as the bytes that
-- it claims.
unfoldable pub work : ℕ → FrameState → ℕ → ℕ
work left (state_struct s) field = suc (length s.fields - field)
work left (state_struct_pointer s) field = 2 ^ 32 + 1
work left (state_table t) zero = 2 ^ 32
work left (state_table t) (suc n) = suc (t.present_count - n)
work left (state_table_pointer t) field = 1
work left (state_union u) field = 2 ^ 33 * left + 2 ^ 32 + 2 + u.size
work left (state_union_pointer u) field = 2 ^ 33 * left + 2 ^ 32 + 2
work left (state_array a) field = suc (a.array_size - field)
work left (state_string s) field = 1
work left (state_handle nullable) field = 1
work left (state_vector v) field = 2 ^ 32 + 1
work left state_done field = 1

-- More than the work of any frame.
abbrev pub work_bound : ℕ
work_bound = 2 ^ 66

-- What one turn counts for, with room for so many frames above.
unfoldable pub weight : ℕ → ℕ
weight zero = 1
weight (suc room) = work_bound * weight room

unfoldable pub turns_left : ℕ → List Frame → ℕ
turns_left left [] = 0
turns_left left (f ∷ rest) =
    work left f.state f.field * weight (31 - length rest) + turns_left left rest

pub work_pos : (left : ℕ) (s : FrameState) (field : ℕ) → 0 < work left s field
unfolding work
work_pos left (state_struct s) field = omega arith
work_pos left (state_struct_pointer s) field = omega arith
work_pos left (state_table t) zero = omega arith
work_pos left (state_table t) (suc n) = omega arith
work_pos left (state_table_pointer t) field = omega arith
work_pos left (state_union u) field = omega arith
work_pos left (state_union_pointer u) field = omega arith
work_pos left (state_array a) field = omega arith
work_pos left (state_string s) field = omega arith
work_pos left (state_handle nullable) field = omega arith
work_pos left (state_vector v) field = omega arith
work_pos left state_done field = omega arith

table_work-lt :
    (left : ℕ) (e : Message) (t : TableState) (offset field : ℕ)
    → TableFits e t.present_count offset field
    → work left (state_table t) field < work_bound
unfolding work
table_work-lt left e t offset zero h = omega arith
table_work-lt left e t offset (suc n) h = omega (arith, h.few)

pub work-lt :
    (left : ℕ) (e : Message) (s : FrameState) (f : Frame)
    → left ≤ e.num_bytes
    → e.num_bytes < 2 ^ 32
    → Fits e s f
    → work left s f.field < work_bound
unfolding work
work-lt left e (state_struct s) f l small h = omega (arith, h.0)
work-lt left e (state_struct_pointer s) f l small h = omega arith
work-lt left e (state_table t) f l small h = table_work-lt left e t f.offset f.field h.0
work-lt left e (state_table_pointer t) f l small h = absurd h
work-lt left e (state_union u) f l small h = omega (arith, h.0)
work-lt left e (state_union_pointer u) f l small h = omega arith
work-lt left e (state_array a) f l small h = omega (arith, h.inside)
work-lt left e (state_string s) f l small h = omega arith
work-lt left e (state_handle nullable) f l small h = omega arith
work-lt left e (state_vector v) f l small h = omega arith
work-lt left e state_done f l small h = omega arith

scale-le : (a b w : ℕ) → a ≤ b → a * w ≤ b * w
scale-le a b w h = grind arith

scale-lt : (a b w : ℕ) → a < b → 0 < w → a * w < b * w
scale-lt a b w h k = grind arith

push_scale :
    (c g f w : ℕ)
    → g < f
    → c < work_bound
    → 0 < w
    → c * w + g * (work_bound * w) < f * (work_bound * w)
push_scale c g f w h k l =
    let one : (g + 1) * (work_bound * w) ≤ f * (work_bound * w) =
      scale-le (g + 1) f (work_bound * w) (omega arith) in
    let two : c * w < work_bound * w = scale-lt c work_bound w k l in omega (arith, one, two)

-- Less is left as storage is claimed.
pub work_mono : (a b : ℕ) (s : FrameState) (field : ℕ) → a ≤ b → work a s field ≤ work b s field
unfolding work
work_mono a b (state_struct s) field h = omega (arith, h)
work_mono a b (state_struct_pointer s) field h = omega (arith, h)
work_mono a b (state_table_pointer t) field h = omega (arith, h)
work_mono a b (state_union u) field h = omega (arith, h)
work_mono a b (state_union_pointer u) field h = omega (arith, h)
work_mono a b (state_array x) field h = omega (arith, h)
work_mono a b (state_string s) field h = omega (arith, h)
work_mono a b (state_handle nullable) field h = omega (arith, h)
work_mono a b (state_vector v) field h = omega (arith, h)
work_mono a b state_done field h = omega arith
work_mono a b (state_table t) zero h = omega arith
work_mono a b (state_table t) (suc n) h = omega arith

pub weight_pos : (room : ℕ) → 0 < weight room
unfolding weight
weight_pos zero = omega arith
weight_pos (suc room) = omega (arith, weight_pos room)

pub turns_left_mono : (a b : ℕ) (l : List Frame) → a ≤ b → turns_left a l ≤ turns_left b l
unfolding turns_left
turns_left_mono a b [] h = omega arith
turns_left_mono a b (f ∷ rest) h = omega (
  arith,
  scale-le (work a f.state f.field) (work b f.state f.field) (weight (31 - length rest))
      (work_mono a b f.state f.field h),
  turns_left_mono a b rest h,
)

-- Taking the top frame away.
pub turns_left-pop :
    (a b : ℕ) (f : Frame) (rest : List Frame) → a ≤ b → turns_left a rest < turns_left b (f ∷ rest)
unfolding turns_left
turns_left-pop a b f rest h =
    let some_work : 0 * weight (31 - length rest)
        < work b f.state f.field * weight (31 - length rest) =
      scale-lt 0 (work b f.state f.field) (weight (31 - length rest)) (work_pos b f.state f.field)
        (weight_pos (31 - length rest)) in
    omega (arith, some_work, turns_left_mono a b rest h)

-- Replacing it by one with less work.
pub turns_left-replace :
    (a b : ℕ) (f g : Frame) (rest : List Frame)
    → a ≤ b
    → work a g.state g.field < work b f.state f.field
    → turns_left a (g ∷ rest) < turns_left b (f ∷ rest)
unfolding turns_left
turns_left-replace a b f g rest l h = omega (
  arith,
  scale-lt (work a g.state g.field) (work b f.state f.field) (weight (31 - length rest)) h
      (weight_pos (31 - length rest)),
  turns_left_mono a b rest l,
)

pub weight_step : (n : ℕ) → n < 31 → weight (31 - n) ≡ work_bound * weight (30 - n)
unfolding weight
weight_step n h = let e : 31 - n ≡ suc (30 - n) = omega arith in rw e refl

-- And pushing another frame on that.
pub turns_left-push :
    (a b : ℕ) (f g c : Frame) (rest : List Frame)
    → a ≤ b
    → length rest < 31
    → work a g.state g.field < work b f.state f.field
    → work a c.state c.field < work_bound
    → turns_left a (c ∷ g ∷ rest) < turns_left b (f ∷ rest)
unfolding turns_left
turns_left-push a b f g c rest l room h k =
    let w = weight (30 - length rest) in
    let here : weight (31 - length rest) ≡ work_bound * w = weight_step (length rest) room in
    let above : weight (31 - suc (length rest)) ≡ w = ap weight (omega arith) in
    rw (here, above)
      (omega (
        arith,
        push_scale (work a c.state c.field) (work a g.state g.field) (work b f.state f.field) w h k
            (weight_pos (30 - length rest)),
        turns_left_mono a b rest l,
      ))
