-- ===== src/Prelude/Sort.antt =====
-- `ORDER BY`: a stable insertion sort. It keeps the rows, and their number of occurrences.
use Prim.Native.Nat.{ℕ}
use mathlib.Core.Path.{◌≡◌, refl}
use mathlib.Core.Bool.{Bool, ◌||◌}
use mathlib.Core.List.{List, [], ◌∷◌}
use native.Mathlib.Omega.{arith}
use agent_control_plane.Prelude.Tests.{if◌then◌else◌, ltb}
use agent_control_plane.Prelude.Lists.{any}

module _ {ℓ} {A : Type ℓ} (before : A → A → Bool) where
  unfoldable pub insert_with : A → List A → List A
  insert_with x [] = x ∷ []
  insert_with x (y ∷ ys) = if before y x then y ∷ insert_with x ys else x ∷ y ∷ ys

  unfoldable pub sort_with : List A → List A
  unfolding insert_with
  sort_with [] = []
  sort_with (x ∷ xs) = insert_with x (sort_with xs)

  any-insert_with :
      (p : A → Bool) (x : A) (xs : List A) → any p (insert_with x xs) ≡ (p x || any p xs)
  unfolding insert_with
  any-insert_with p x [] = refl
  any-insert_with p x (y ∷ ys) = ground (arith, any-insert_with p x ys)

  -- A sorted list has the rows that the list had.
  pub any-sort_with : (p : A → Bool) (xs : List A) → any p (sort_with xs) ≡ any p xs
  unfolding sort_with
  any-sort_with p [] = refl
  any-sort_with p (x ∷ xs) = ground (arith, any-insert_with p x (sort_with xs), any-sort_with p xs)

module _ {ℓ} {A : Type ℓ} (key : A → ℕ) where
  -- ORDER BY key ASC, and ORDER BY key DESC
  unfoldable pub sort_by : List A → List A
  unfolding sort_with
  sort_by = sort_with (λ a b. ltb (key a) (key b))

  unfoldable pub sort_desc : List A → List A
  unfolding sort_with
  sort_desc = sort_with (λ a b. ltb (key b) (key a))

  pub any-sort_by : (p : A → Bool) (xs : List A) → any p (sort_by xs) ≡ any p xs
  unfolding sort_by
  any-sort_by p xs = any-sort_with (λ a b. ltb (key a) (key b)) p xs
