-- ===== src/Zircon/Examples.antt =====
-- The arithmetic of times at values that overflow.
use fuchsia_sdk.Base.{◌≡◌, refl, arith}
use fuchsia_sdk.Zircon.Int.{pos, negsuc, ◌+ℤ◌, ◌-ℤ◌, ◌*ℤ◌, ◌≤ℤ◌, wrap, clamp}
use fuchsia_sdk.Zircon.Time.{
  zx_time_infinite, zx_time_infinite_past, zx_time_add_duration, zx_time_sub_duration,
  zx_time_sub_time, zx_duration_add_duration, zx_duration_sub_duration, zx_duration_mul_int64,
  add_sub-clamp, mul-clamp, zx_time_add_duration-mono,
}

add_sub-clamp_example :
    (zx_time_add_duration zx_time_infinite (pos 1) ≡ clamp (zx_time_infinite +ℤ pos 1))
    × (zx_duration_add_duration zx_time_infinite (pos 1) ≡ clamp (zx_time_infinite +ℤ pos 1))
    × (zx_time_sub_duration zx_time_infinite (pos 1) ≡ clamp (zx_time_infinite -ℤ pos 1))
    × (zx_time_sub_time zx_time_infinite (pos 1) ≡ clamp (zx_time_infinite -ℤ pos 1))
    × (zx_duration_sub_duration zx_time_infinite (pos 1) ≡ clamp (zx_time_infinite -ℤ pos 1))
add_sub-clamp_example = add_sub-clamp zx_time_infinite (pos 1) refl refl

mul-clamp_example :
    zx_duration_mul_int64 zx_time_infinite (negsuc 1) ≡ clamp (zx_time_infinite *ℤ negsuc 1)
mul-clamp_example = mul-clamp zx_time_infinite (negsuc 1)

zx_time_add_duration-mono_example :
    zx_time_add_duration (pos 5) zx_time_infinite ≤ℤ zx_time_add_duration (pos 7) zx_time_infinite
zx_time_add_duration-mono_example =
    zx_time_add_duration-mono (pos 5) (pos 7) zx_time_infinite refl refl refl (omega arith)

past_saturates : zx_time_sub_duration zx_time_infinite_past (pos 1) ≡ zx_time_infinite_past
unfolding zx_time_sub_duration ◌-ℤ◌ wrap
past_saturates = refl
