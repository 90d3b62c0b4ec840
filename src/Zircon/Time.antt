-- ===== src/Zircon/Time.antt =====
-- arch/x64/sysroot/include/zircon/time.h: arithmetic on times and durations that saturates.
use fuchsia_sdk.Base.{
  zero, suc, ◌-◌, ◌^◌, ◌≤◌, ◌<◌, ◌≡◌, refl, Bool, true, false, not, ◌&&◌, ◌||◌, arith, ltb,
  if◌then◌else◌,
}
use fuchsia_sdk.Zircon.Int.{
  ℤ, pos, negsuc, pos_part, neg_part, ◌+ℤ◌, ◌-ℤ◌, ◌*ℤ◌, ◌≤ℤ◌, is_int64, wrap, clamp,
}

-- `ZX_TIME_INFINITE` and `ZX_TIME_INFINITE_PAST`.
abbrev pub zx_time_infinite : ℤ
zx_time_infinite = pos (2 ^ 63 - 1)

abbrev pub zx_time_infinite_past : ℤ
zx_time_infinite_past = negsuc (2 ^ 63 - 1)

-- `add_overflow` and its kin: whether an int64_t cannot hold the result, and the result modulo 2^64.
abbrev pub overflow : ℤ → Bool × ℤ
overflow z = (not (is_int64 z), wrap z)

abbrev pub is_negative : ℤ → Bool
is_negative (pos n) = false
is_negative (negsuc n) = true

abbrev pub is_positive : ℤ → Bool
is_positive (pos n) = ltb 0 n
is_positive (negsuc n) = false

-- What the five functions that add or subtract do with the result.
abbrev pub saturate : Bool × ℤ → ℤ
saturate (o, x) = if o then if is_negative x then zx_time_infinite else zx_time_infinite_past else x

unfoldable pub zx_time_add_duration : ℤ → ℤ → ℤ
zx_time_add_duration time duration = saturate (overflow (time +ℤ duration))

unfoldable pub zx_time_sub_duration : ℤ → ℤ → ℤ
zx_time_sub_duration time duration = saturate (overflow (time -ℤ duration))

unfoldable pub zx_time_sub_time : ℤ → ℤ → ℤ
zx_time_sub_time time1 time2 = saturate (overflow (time1 -ℤ time2))

unfoldable pub zx_duration_add_duration : ℤ → ℤ → ℤ
zx_duration_add_duration dur1 dur2 = saturate (overflow (dur1 +ℤ dur2))

unfoldable pub zx_duration_sub_duration : ℤ → ℤ → ℤ
zx_duration_sub_duration dur1 dur2 = saturate (overflow (dur1 -ℤ dur2))

unfoldable pub zx_duration_mul_int64 : ℤ → ℤ → ℤ
zx_duration_mul_int64 duration multiplier =
    let (o, x) = overflow (duration *ℤ multiplier) in
    if o
    then if is_positive duration && is_positive multiplier
        || is_negative duration && is_negative multiplier
      then zx_time_infinite
      else zx_time_infinite_past
    else x

-- A result that an int64_t holds is itself.
wrap-int64 : (z : ℤ) → is_int64 z ≡ true → wrap z ≡ z
unfolding wrap
wrap-int64 (pos n) h = ground (arith, h)
wrap-int64 (negsuc n) h = ground (arith, h)

-- Of a sum or difference of two values that overflows the sign is wrong.
saturate-clamp :
    (z : ℤ) → pos_part z < 2 ^ 64 → neg_part z ≤ 2 ^ 64 → saturate (overflow z) ≡ clamp z
unfolding wrap clamp
saturate-clamp (pos n) h k = ground (arith, h)
saturate-clamp (negsuc n) h k = ground (arith, k)

abbrev pub IsInt64 : ℤ → Type 0
IsInt64 z = is_int64 z ≡ true

sum-saturate : (a b : ℤ) → IsInt64 a → IsInt64 b → saturate (overflow (a +ℤ b)) ≡ clamp (a +ℤ b)
unfolding ◌+ℤ◌
sum-saturate a b h k = saturate-clamp (a +ℤ b) (ground (arith, h, k)) (ground (arith, h, k))

difference-saturate :
    (a b : ℤ) → IsInt64 a → IsInt64 b → saturate (overflow (a -ℤ b)) ≡ clamp (a -ℤ b)
unfolding ◌-ℤ◌
difference-saturate a b h k = saturate-clamp (a -ℤ b) (ground (arith, h, k)) (ground (arith, h, k))

pub add-clamp :
    (a b : ℤ)
    → IsInt64 a
    → IsInt64 b
    → (zx_time_add_duration a b ≡ clamp (a +ℤ b)) × (zx_duration_add_duration a b ≡ clamp (a +ℤ b))
unfolding zx_time_add_duration zx_duration_add_duration
add-clamp a b h k = (sum-saturate a b h k, sum-saturate a b h k)

pub sub-clamp :
    (a b : ℤ)
    → IsInt64 a
    → IsInt64 b
    → (zx_time_sub_duration a b ≡ clamp (a -ℤ b))
      × (zx_time_sub_time a b ≡ clamp (a -ℤ b))
      × (zx_duration_sub_duration a b ≡ clamp (a -ℤ b))
unfolding zx_time_sub_duration zx_time_sub_time zx_duration_sub_duration
sub-clamp a b h k =
    (difference-saturate a b h k, difference-saturate a b h k, difference-saturate a b h k)

-- Of int64_t values, the functions that add return the sum and those that subtract the difference,
-- clamped to an int64_t.
pub add_sub-clamp :
    (a b : ℤ)
    → IsInt64 a
    → IsInt64 b
    → (zx_time_add_duration a b ≡ clamp (a +ℤ b))
      × (zx_duration_add_duration a b ≡ clamp (a +ℤ b))
      × (zx_time_sub_duration a b ≡ clamp (a -ℤ b))
      × (zx_time_sub_time a b ≡ clamp (a -ℤ b))
      × (zx_duration_sub_duration a b ≡ clamp (a -ℤ b))
add_sub-clamp a b h k =
    let plus = add-clamp a b h k in
    let minus = sub-clamp a b h k in (plus.0, plus.1, minus.0, minus.1, minus.2)

clamp-mono : (a b : ℤ) → a ≤ℤ b → clamp a ≤ℤ clamp b
unfolding clamp
clamp-mono (pos n) (pos m) h = ground (arith, h)
clamp-mono (pos n) (negsuc m) h = absurd (omega (arith, h))
clamp-mono (negsuc n) (pos m) h = ground (arith, h)
clamp-mono (negsuc n) (negsuc m) h = ground (arith, h)

sum_mono : (a b d : ℤ) → a ≤ℤ b → a +ℤ d ≤ℤ b +ℤ d
unfolding ◌+ℤ◌
sum_mono a b d h = ground (arith, h)

-- Adding a duration to two times keeps their order, also where it overflows.
pub zx_time_add_duration-mono :
    (a b d : ℤ)
    → IsInt64 a
    → IsInt64 b
    → IsInt64 d
    → a ≤ℤ b
    → zx_time_add_duration a d ≤ℤ zx_time_add_duration b d
zx_time_add_duration-mono a b d ha hb hd h =
    rw ((add-clamp a d ha hd).0, (add-clamp b d hb hd).0)
      (clamp-mono (a +ℤ d) (b +ℤ d) (sum_mono a b d h))

-- A product by its sign: only the clamp of a result that is not zero looks at it.
mul_sign :
    (z : ℤ) (up : Bool)
    → (up ≡ true → is_negative z ≡ false)
    → (up ≡ false → pos_part z ≡ 0)
    → (if not (is_int64 z) then if up then zx_time_infinite else zx_time_infinite_past else wrap z)
      ≡ clamp z
unfolding clamp
mul_sign (pos n) true h k = ground (arith, wrap-int64 (pos n))
mul_sign (pos n) false h k = ground (arith, wrap-int64 (pos n), k refl)
mul_sign (negsuc n) true h k = absurd (ground (arith, h refl))
mul_sign (negsuc n) false h k = ground (arith, wrap-int64 (negsuc n))

-- The product of two values of the same sign is not negative, and of others not positive.
same_sign : ℤ → ℤ → Bool
same_sign a b = is_positive a && is_positive b || is_negative a && is_negative b

same_sign-up : (a b : ℤ) → same_sign a b ≡ true → is_negative (a *ℤ b) ≡ false
unfolding ◌*ℤ◌ same_sign
same_sign-up (pos n) (pos m) h = ground arith
same_sign-up (pos n) (negsuc m) h = absurd (ground (arith, h))
same_sign-up (negsuc n) (pos m) h = absurd (ground (arith, h))
same_sign-up (negsuc n) (negsuc m) h = ground arith

same_sign-down : (a b : ℤ) → same_sign a b ≡ false → pos_part (a *ℤ b) ≡ 0
unfolding ◌*ℤ◌ same_sign
same_sign-down (pos zero) (pos m) h = ground arith
same_sign-down (pos (suc n)) (pos zero) h = ground arith
same_sign-down (pos (suc n)) (pos (suc m)) h = absurd (ground (arith, h))
same_sign-down (pos n) (negsuc m) h = ground arith
same_sign-down (negsuc n) (pos m) h = ground arith
same_sign-down (negsuc n) (negsuc m) h = absurd (ground (arith, h))

-- zx_duration_mul_int64 returns the product, clamped to an int64_t.
pub mul-clamp : (a b : ℤ) → zx_duration_mul_int64 a b ≡ clamp (a *ℤ b)
unfolding zx_duration_mul_int64 same_sign
mul-clamp a b = mul_sign (a *ℤ b) (same_sign a b) (same_sign-up a b) (same_sign-down a b)
