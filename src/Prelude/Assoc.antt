-- ===== src/Prelude/Assoc.antt =====
-- Rust's `HashMap` and `HashSet`: an association list over keys with a Boolean equality.
use Prim.Native.Nat.{suc, ◌≤◌}
use mathlib.Core.Path.{ap, ◌≡◌, refl}
use mathlib.Core.Logic.{◌↔◌}
use mathlib.Core.Bool.{Bool, true}
use mathlib.Core.Option.{Option, none, some}
use mathlib.Core.List.{List, [], ◌∷◌}
use native.Mathlib.Omega.{arith}
use ale_my_eyes_desktop.Prelude.Tests.{if◌then◌else◌, is_some}
use ale_my_eyes_desktop.Prelude.Lists.{length}
use ale_my_eyes_desktop.Prelude.Text.{Text, text_eq, text_eq_iff}

pub record Key {ℓ} (K : Type ℓ) : Type ℓ where
  pub same : (j k : K) → Bool
  pub same_iff : (j k : K) → (same j k ≡ true) ↔ (j ≡ k)

instance abbrev pub text_key : Key Text
text_key = record { same = text_eq; same_iff = text_eq_iff }

pub same_refl : {K : Type 0} ⦃e : Key K⦄ (k : K) → e.same k k ≡ true
same_refl ⦃e⦄ k = (e.same_iff k k).1 refl

-- What is left of a value under a test.
abbrev pub only_if {ℓ} : {V : Type ℓ} → (V → Bool) → Option V → Option V
only_if p none = none
only_if p (some v) = if p v then some v else none

abbrev pub apply_to {ℓ} : {V : Type ℓ} → (V → V) → Option V → Option V
apply_to f none = none
apply_to f (some v) = some (f v)

module _ {ℓ} {K : Type 0} ⦃e : Key K⦄ {V : Type ℓ} where
  unfoldable pub lookup : K → List (K × V) → Option V
  lookup k [] = none
  lookup k ((j, v) ∷ m) = if e.same j k then some v else lookup k m

  unfoldable pub contains_key : K → List (K × V) → Bool
  unfolding lookup
  contains_key k m = is_some (lookup k m)

  -- `HashMap::insert` and writes through `entry`: replace the value, or add the key.
  unfoldable pub insert : K → V → List (K × V) → List (K × V)
  insert k v [] = (k, v) ∷ []
  insert k v ((j, w) ∷ m) = if e.same j k then (k, v) ∷ m else (j, w) ∷ insert k v m

  unfoldable pub remove : K → List (K × V) → List (K × V)
  remove k [] = []
  remove k ((j, w) ∷ m) = if e.same j k then m else (j, w) ∷ remove k m

  -- `HashMap::retain` by the value.
  unfoldable pub retain : (V → Bool) → List (K × V) → List (K × V)
  retain p [] = []
  retain p ((j, w) ∷ m) = if p w then (j, w) ∷ retain p m else retain p m

  -- No key stands twice.
  abbrev pub Distinct : List (K × V) → Type ℓ
  Distinct [] = Unit
  Distinct ((j, w) ∷ m) = (lookup j m ≡ none) × Distinct m

  pub lookup-insert :
      (k j : K) (v : V) (m : List (K × V))
      → lookup j (insert k v m) ≡ (if e.same k j then some v else lookup j m)
  unfolding lookup insert
  lookup-insert k j v [] = refl
  lookup-insert k j v ((i, w) ∷ m) =
      ground (arith, e.same_iff k j, e.same_iff i k, e.same_iff i j, lookup-insert k j v m)

  pub lookup-insert_self : (k : K) (v : V) (m : List (K × V)) → lookup k (insert k v m) ≡ some v
  lookup-insert_self k v m = rw (lookup-insert k k v m, same_refl k)

  pub length-insert :
      (k : K) (v : V) (m : List (K × V))
      → length (insert k v m) ≡ (if contains_key k m then length m else suc (length m))
  unfolding lookup insert contains_key
  length-insert k v [] = refl
  length-insert k v ((i, w) ∷ m) = ground (arith, length-insert k v m)

  pub length-retain-le : (p : V → Bool) (m : List (K × V)) → length (retain p m) ≤ length m
  unfolding retain
  length-retain-le p [] = omega arith
  length-retain-le p ((i, w) ∷ m) = ground (arith, length-retain-le p m)

  pub length-remove-le : (k : K) (m : List (K × V)) → length (remove k m) ≤ length m
  unfolding remove
  length-remove-le k [] = omega arith
  length-remove-le k ((i, w) ∷ m) = ground (arith, length-remove-le k m)

  lookup-retain-none :
      (p : V → Bool) (k : K) (m : List (K × V)) → lookup k m ≡ none → lookup k (retain p m) ≡ none
  unfolding lookup retain
  lookup-retain-none p k [] h = refl
  lookup-retain-none p k ((i, w) ∷ m) h = ground (arith, lookup-retain-none p k m)

  pub lookup-retain :
      (p : V → Bool) (k : K) (m : List (K × V))
      → Distinct m
      → lookup k (retain p m) ≡ only_if p (lookup k m)
  unfolding lookup retain
  lookup-retain p k [] d = refl
  lookup-retain p k ((i, w) ∷ m) d =
      ground (arith, e.same_iff i k, lookup-retain p k m d.1, lookup-retain-none p i m d.0)

  pub retain-Distinct : (p : V → Bool) (m : List (K × V)) → Distinct m → Distinct (retain p m)
  unfolding retain
  retain-Distinct p [] d = tt
  retain-Distinct p ((i, w) ∷ m) d =
      ground (arith, lookup-retain-none p i m d.0, retain-Distinct p m d.1)

  pub insert-Distinct : (k : K) (v : V) (m : List (K × V)) → Distinct m → Distinct (insert k v m)
  unfolding insert lookup
  insert-Distinct k v [] d = (refl, tt)
  insert-Distinct k v ((i, w) ∷ m) d =
      ground
        (arith, e.same_iff i k, e.same_iff k i, lookup-insert k i v m, insert-Distinct k v m d.1)

  lookup-remove-none :
      (j k : K) (m : List (K × V)) → lookup j m ≡ none → lookup j (remove k m) ≡ none
  unfolding lookup remove
  lookup-remove-none j k [] h = refl
  lookup-remove-none j k ((i, w) ∷ m) h = ground (arith, lookup-remove-none j k m)

  pub lookup-remove :
      (k j : K) (m : List (K × V))
      → Distinct m
      → lookup j (remove k m) ≡ (if e.same k j then none else lookup j m)
  unfolding lookup remove
  lookup-remove k j [] d = ground arith
  lookup-remove k j ((i, w) ∷ m) d =
      ground (arith, e.same_iff k j, e.same_iff i k, e.same_iff i j, lookup-remove k j m d.1)

  pub remove-Distinct : (k : K) (m : List (K × V)) → Distinct m → Distinct (remove k m)
  unfolding remove
  remove-Distinct k [] d = tt
  remove-Distinct k ((i, w) ∷ m) d =
      ground (arith, lookup-remove-none i k m d.0, remove-Distinct k m d.1)

  -- A loop over `values_mut`.
  unfoldable pub map_values : (V → V) → List (K × V) → List (K × V)
  map_values f [] = []
  map_values f ((k, v) ∷ m) = (k, f v) ∷ map_values f m

  pub lookup-map_values :
      (f : V → V) (k : K) (m : List (K × V)) → lookup k (map_values f m) ≡ apply_to f (lookup k m)
  unfolding lookup map_values
  lookup-map_values f k [] = refl
  lookup-map_values f k ((i, w) ∷ m) = ground (arith, lookup-map_values f k m)

  pub map_values-Distinct : (f : V → V) (m : List (K × V)) → Distinct m → Distinct (map_values f m)
  unfolding map_values
  map_values-Distinct f [] d = tt
  map_values-Distinct f ((i, w) ∷ m) d =
      ground (arith, lookup-map_values f i m, map_values-Distinct f m d.1)

  pub length-map_values : (f : V → V) (m : List (K × V)) → length (map_values f m) ≡ length m
  unfolding map_values
  length-map_values f [] = refl
  length-map_values f ((i, w) ∷ m) = ap suc (length-map_values f m)

  pub length-remove :
      (k : K) (m : List (K × V))
      → length m ≡ (if contains_key k m then suc (length (remove k m)) else length (remove k m))
  unfolding lookup remove contains_key
  length-remove k [] = refl
  length-remove k ((i, w) ∷ m) = ground (arith, length-remove k m)
