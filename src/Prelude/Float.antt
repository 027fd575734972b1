-- ===== src/Prelude/Float.antt =====
-- Rust's `f32` and `f64` by their bit patterns: the tests that the program makes of them.
-- Sums and products of floats are not modelled here.
use Prim.Native.Nat.{ℕ, ◌/◌, ◌%◌, ◌^◌}
use mathlib.Core.Bool.{Bool, false, not, ◌&&◌, ◌||◌}
use ale_my_eyes_desktop.Prelude.Tests.{ltb, ◌==◌, if◌then◌else◌}

abbrev pub F64 : Type 0
F64 = ℕ

-- The exponent is not all ones.
unfoldable pub f64_is_finite : F64 → Bool
f64_is_finite b = not ((b / 2 ^ 52) % 2 ^ 11 == 2047)

abbrev pub F32 : Type 0
F32 = ℕ

abbrev pub f32_magnitude : F32 → ℕ
f32_magnitude b = b % 0x80000000

abbrev pub f32_negative : F32 → Bool
f32_negative b = (b / 0x80000000) % 2 == 1

abbrev pub f32_is_nan : F32 → Bool
f32_is_nan b = ltb 0x7f800000 (f32_magnitude b)

-- `<` of two floats: false where one is NaN, and the two zeros are equal.
unfoldable pub f32_lt : F32 → F32 → Bool
f32_lt a b =
    if f32_is_nan a || f32_is_nan b
    then false
    else if f32_negative a
    then (if f32_negative b
        then ltb (f32_magnitude b) (f32_magnitude a)
        else not (f32_magnitude a == 0 && f32_magnitude b == 0))
    else (if f32_negative b then false else ltb (f32_magnitude a) (f32_magnitude b))

-- `f32::clamp`
unfoldable pub f32_clamp : F32 → F32 → F32 → F32
f32_clamp x lo hi = let y = if f32_lt x lo then lo else x in if f32_lt hi y then hi else y

-- `f32::min` passes over a NaN.
unfoldable pub f32_min : F32 → F32 → F32
f32_min a b =
    if f32_is_nan a then b else (if f32_is_nan b then a else (if f32_lt b a then b else a))
