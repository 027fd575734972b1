-- ===== src/Modeld/Ipc/Token.antt =====
-- ale-modeld/src/main.rs: `constant_time_eq` compares every byte.
use Prim.Native.Nat.{bit_or, bit_xor}
use ale_my_eyes_desktop.Prelude.{
  ℕ, zero, suc, ◌<◌, ◌≡◌, refl, ap, ◌↔◌, Bool, true, false, not, ◌&&◌, [], ◌∷◌, ltb, ◌==◌, length,
  arith, All,
}
use ale_my_eyes_desktop.Prelude.Bytes.{Bytes}
use ale_my_eyes_desktop.Modeld.Ipc.{differences, constant_time_eq}

-- A test of every number under a bound, from the greatest down.
holds_below : (test : ℕ → Bool) → (bound : ℕ) → Bool
holds_below test zero = true
holds_below test (suc bound) = holds_below test bound && test bound

holds_below-at :
    (test : ℕ → Bool) (bound k : ℕ) → k < bound → holds_below test bound ≡ true → test k ≡ true
unfolding holds_below
holds_below-at test zero k below holds = absurd (omega arith)
holds_below-at test (suc bound) k below holds = ground (arith, holds_below-at test bound k)

abbrev agree : Bool → Bool → Bool
agree true b = b
agree false b = not b

-- Of two bytes: exclusive or is zero only for equal ones, or only for two zeros; both are bytes.
abbrev bits_ok : ℕ → ℕ → Bool
bits_ok a b =
    agree (bit_xor a b == 0) (a == b)
    && agree (bit_or a b == 0) (a == 0 && b == 0)
    && ltb (bit_xor a b) 256
    && ltb (bit_or a b) 256

bits_table : holds_below (λ a. holds_below (bits_ok a) 256) 256 ≡ true
unfolding holds_below
bits_table = refl

bits_ok-bytes : (a b : ℕ) → a < 256 → b < 256 → bits_ok a b ≡ true
bits_ok-bytes a b ha hb =
    holds_below-at (bits_ok a) 256 b hb
      (holds_below-at (λ c. holds_below (bits_ok c) 256) 256 a ha bits_table)

abbrev pub IsBytes : Bytes → Type 0
IsBytes bs = All (λ b. b < 256) bs

differences-zero :
    (acc : ℕ) (xs ys : Bytes)
    → acc < 256
    → IsBytes xs
    → IsBytes ys
    → length xs ≡ length ys
    → (differences acc xs ys ≡ 0) ↔ ((acc ≡ 0) × (xs ≡ ys))
unfolding differences
differences-zero acc [] [] h hx hy l = ground arith
differences-zero acc [] (y ∷ ys) h hx hy l = absurd (omega arith)
differences-zero acc (x ∷ xs) [] h hx hy l = absurd (omega arith)
differences-zero acc (x ∷ xs) (y ∷ ys) h hx hy l =
    let t = bits_ok-bytes x y hx.0 hy.0 in
    let x' = bit_xor x y in
    let bx : x' < 256 = ground arith in
    let u = bits_ok-bytes acc x' h bx in
    ground (arith, differences-zero (bit_or acc x') xs ys (ground arith) hx.1 hy.1 (omega arith))

constant_time_eq_sound :
    (left right : Bytes)
    → IsBytes left
    → IsBytes right
    → constant_time_eq left right ≡ true
    → left ≡ right
unfolding constant_time_eq
constant_time_eq_sound left right hl hr e =
    let same : length left ≡ length right = ground arith in
    let zero_difference : differences 0 left right ≡ 0 = ground arith in
    ((differences-zero 0 left right (omega arith) hl hr same).0 zero_difference).1

constant_time_eq_complete :
    (left right : Bytes)
    → IsBytes left
    → IsBytes right
    → left ≡ right
    → constant_time_eq left right ≡ true
unfolding constant_time_eq
constant_time_eq_complete left right hl hr e =
    let same : length left ≡ length right = ap length e in
    let zero_difference : differences 0 left right ≡ 0 =
      (differences-zero 0 left right (omega arith) hl hr same).1 (refl, e) in
    ground arith

-- On strings of bytes, the comparison without early exit says yes exactly when the two are equal.
pub constant_time_eq_iff :
    (left right : Bytes)
    → IsBytes left
    → IsBytes right
    → (constant_time_eq left right ≡ true) ↔ (left ≡ right)
constant_time_eq_iff left right hl hr = (
  λ e. constant_time_eq_sound left right hl hr e,
  λ e. constant_time_eq_complete left right hl hr e,
)
