-- ===== src/Prelude/Bytes.antt =====
-- Byte strings: big-endian integers, slices, `slice::chunks`.
use Prim.Native.Nat.{ℕ, zero, suc, ◌+◌, ◌-◌, ◌*◌, ◌/◌, ◌%◌, ◌^◌, ◌≤◌, ◌<◌}
use mathlib.Core.Path.{◌≡◌, refl, ap, ◌∙◌}
use mathlib.Core.List.{List, [], ◌∷◌, ◌++◌}
use native.Mathlib.Omega.{arith}
use native.Mathlib.Nat.{pow-suc}
use ale_my_eyes_desktop.Prelude.Lists.{
  All, length-take, length, take, drop, length-append, length-drop, take-append-drop,
}

abbrev pub Bytes : Type 0
Bytes = List ℕ

-- `to_be_bytes` of an integer of `k` bytes.
unfoldable pub to_be_bytes : ℕ → ℕ → Bytes
to_be_bytes zero n = []
to_be_bytes (suc k) n = to_be_bytes k (n / 256) ++ n % 256 ∷ []

from_be_acc : ℕ → Bytes → ℕ
from_be_acc acc [] = acc
from_be_acc acc (b ∷ bs) = from_be_acc (acc * 256 + b) bs

unfoldable pub from_be_bytes : Bytes → ℕ
unfolding from_be_acc
from_be_bytes bs = from_be_acc 0 bs

from_be_acc-snoc :
    (acc : ℕ) (bs : Bytes) (b : ℕ) → from_be_acc acc (bs ++ b ∷ []) ≡ from_be_acc acc bs * 256 + b
unfolding from_be_acc
from_be_acc-snoc acc [] b = refl
from_be_acc-snoc acc (x ∷ bs) b = from_be_acc-snoc (acc * 256 + x) bs b

pub from_be_bytes-to_be_bytes : (k n : ℕ) → n < 256 ^ k → from_be_bytes (to_be_bytes k n) ≡ n
unfolding to_be_bytes from_be_bytes
from_be_bytes-to_be_bytes zero n h = omega arith
from_be_bytes-to_be_bytes (suc k) n h =
    from_be_acc-snoc 0 (to_be_bytes k (n / 256)) (n % 256)
    ∙ omega (arith, from_be_bytes-to_be_bytes k (n / 256) (omega (arith, pow-suc 256 k)))

pub length-to_be_bytes : (k n : ℕ) → length (to_be_bytes k n) ≡ k
unfolding to_be_bytes
length-to_be_bytes zero n = refl
length-to_be_bytes (suc k) n =
    omega (
      arith,
      length-append (to_be_bytes k (n / 256)) (n % 256 ∷ []),
      length-to_be_bytes k (n / 256),
    )

module _ {ℓ} {A : Type ℓ} where
  pub take-append : (n : ℕ) (xs ys : List A) → length xs ≡ n → take n (xs ++ ys) ≡ xs
  take-append zero [] ys h = refl
  take-append zero (x ∷ xs) ys h = absurd (omega arith)
  take-append (suc n) [] ys h = absurd (omega arith)
  take-append (suc n) (x ∷ xs) ys h = ap (◌∷◌ x) (take-append n xs ys (omega arith))

  pub drop-append : (n : ℕ) (xs ys : List A) → length xs ≡ n → drop n (xs ++ ys) ≡ ys
  drop-append zero [] ys h = refl
  drop-append zero (x ∷ xs) ys h = absurd (omega arith)
  drop-append (suc n) [] ys h = absurd (omega arith)
  drop-append (suc n) (x ∷ xs) ys h = drop-append n xs ys (omega arith)

  -- `slice::chunks(size)`; the fuel is the length of the slice, and each round takes an element.
  chunks_fuel : ℕ → ℕ → List A → List (List A)
  chunks_fuel zero size xs = []
  chunks_fuel (suc f) size [] = []
  chunks_fuel (suc f) size (x ∷ xs) = take size (x ∷ xs) ∷ chunks_fuel f size (drop size (x ∷ xs))

  unfoldable pub chunks : ℕ → List A → List (List A)
  unfolding chunks_fuel
  chunks size xs = chunks_fuel (length xs) size xs

  abbrev pub concat : List (List A) → List A
  concat [] = []
  concat (x ∷ xs) = x ++ concat xs

  concat-chunks_fuel :
      (f size : ℕ) (xs : List A) → 0 < size → length xs ≤ f → concat (chunks_fuel f size xs) ≡ xs
  unfolding chunks_fuel
  concat-chunks_fuel zero size [] p h = refl
  concat-chunks_fuel zero size (x ∷ xs) p h = absurd (omega arith)
  concat-chunks_fuel (suc f) size [] p h = refl
  concat-chunks_fuel (suc f) size (x ∷ xs) p h =
      ap (◌++◌ (take size (x ∷ xs))) (
        concat-chunks_fuel f size (drop size (x ∷ xs)) p (omega (arith, length-drop size (x ∷ xs))))
      ∙ take-append-drop size (x ∷ xs)

  pub concat-chunks : (size : ℕ) (xs : List A) → 0 < size → concat (chunks size xs) ≡ xs
  unfolding chunks
  concat-chunks size xs p = concat-chunks_fuel (length xs) size xs p (omega arith)

  chunks_fuel-bounded :
      (f size : ℕ) (xs : List A) → All (λ c. length c ≤ size) (chunks_fuel f size xs)
  unfolding chunks_fuel
  chunks_fuel-bounded zero size xs = tt
  chunks_fuel-bounded (suc f) size [] = tt
  chunks_fuel-bounded (suc f) size (x ∷ xs) =
      (omega (arith, length-take size (x ∷ xs)), chunks_fuel-bounded f size (drop size (x ∷ xs)))

  pub chunks-bounded : (size : ℕ) (xs : List A) → All (λ c. length c ≤ size) (chunks size xs)
  unfolding chunks
  chunks-bounded size xs = chunks_fuel-bounded (length xs) size xs

  length-chunks_fuel :
      (f : ℕ) (xs : List A)
      → length xs ≤ f
      → length (chunks_fuel f 49132 xs) ≡ (length xs + 49132 - 1) / 49132
  unfolding chunks_fuel
  length-chunks_fuel zero [] h = refl
  length-chunks_fuel zero (x ∷ xs) h = absurd (omega arith)
  length-chunks_fuel (suc f) [] h = refl
  length-chunks_fuel (suc f) (x ∷ xs) h =
      let l : length (drop 49132 (x ∷ xs)) ≡ length (x ∷ xs) - 49132 = length-drop 49132 (x ∷ xs) in
      let r : length (chunks_fuel f 49132 (drop 49132 (x ∷ xs)))
          ≡ (length (drop 49132 (x ∷ xs)) + 49132 - 1) / 49132 =
        length-chunks_fuel f (drop 49132 (x ∷ xs)) (omega arith) in
      omega arith

  -- At the chunk size of the secure channel.
  pub length-chunks : (xs : List A) → length (chunks 49132 xs) ≡ (length xs + 49132 - 1) / 49132
  unfolding chunks
  length-chunks xs = length-chunks_fuel (length xs) xs (omega arith)
