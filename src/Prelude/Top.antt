-- ===== src/Prelude/Top.antt =====
-- `ORDER BY key DESC LIMIT n`: the rows come in falling order, and none that is left out is ahead of one that
-- is kept.
use Prim.Native.Nat.{ℕ, zero, suc, ◌≤◌}
use mathlib.Core.Path.{◌≡◌, refl, ap, ◌∙◌, sym, subst}
use mathlib.Core.Logic.{◌⊎◌, inl, inr}
use mathlib.Core.Bool.{Bool}
use mathlib.Core.List.{List, [], ◌∷◌, Memᴰ}
use native.Mathlib.Omega.{arith}
use agent_control_plane.Prelude.Tests.{ltb, Bool-cases}
use agent_control_plane.Prelude.Lists.{All, length, take}
use agent_control_plane.Prelude.Rows.{All-map, All-at}
use agent_control_plane.Prelude.Sort.{insert_with, sort_with, sort_desc}

module _ {ℓ} {A : Type ℓ} where
  pub length-take_le : (n : ℕ) (xs : List A) → length (take n xs) ≤ n
  length-take_le zero xs = omega arith
  length-take_le (suc n) [] = omega arith
  length-take_le (suc n) (x ∷ xs) = omega (arith, length-take_le n xs)

  pub take-all : (n : ℕ) (xs : List A) → length xs ≤ n → take n xs ≡ xs
  take-all zero [] h = refl
  take-all zero (x ∷ xs) h = absurd (omega (arith, h))
  take-all (suc n) [] h = refl
  take-all (suc n) (x ∷ xs) h = ap (λ l. x ∷ l) (take-all n xs (omega (arith, h)))

  pub mem-take : (n : ℕ) (x : A) (xs : List A) → Memᴰ x (take n xs) → Memᴰ x xs
  mem-take zero x xs m = elim m [ ]
  mem-take (suc n) x [] m = elim m [ ]
  mem-take (suc n) x (y ∷ ys) (Memᴰ.head e) = Memᴰ.head e
  mem-take (suc n) x (y ∷ ys) (Memᴰ.tail m) = Memᴰ.tail (mem-take n x ys m)

module _ {ℓ} {A : Type ℓ} (before : A → A → Bool) where
  length-insert_with : (x : A) (xs : List A) → length (insert_with before x xs) ≡ suc (length xs)
  unfolding insert_with
  length-insert_with x [] = refl
  length-insert_with x (y ∷ ys) = ground (arith, length-insert_with x ys)

  pub length-sort_with : (xs : List A) → length (sort_with before xs) ≡ length xs
  unfolding sort_with
  length-sort_with [] = refl
  length-sort_with (x ∷ xs) =
      length-insert_with x (sort_with before xs) ∙ ap suc (length-sort_with xs)

  module _ {κ} (P : A → Type κ) where
    All-insert_with : (x : A) (xs : List A) → P x → All P xs → All P (insert_with before x xs)
    unfolding insert_with
    All-insert_with x [] p h = (p, tt)
    All-insert_with x (y ∷ ys) p h = elim (Bool-cases (before y x)) [
      | inl t ↦ rw t (h.0, All-insert_with x ys p h.1)
      | inr f ↦ rw f (p, h)
    ]

    pub All-sort_with : (xs : List A) → All P xs → All P (sort_with before xs)
    unfolding sort_with
    All-sort_with [] h = tt
    All-sort_with (x ∷ xs) h = All-insert_with x (sort_with before xs) h.0 (All-sort_with xs h.1)

  mem-insert_with_new : (x : A) (xs : List A) → Memᴰ x (insert_with before x xs)
  unfolding insert_with
  mem-insert_with_new x [] = Memᴰ.head refl
  mem-insert_with_new x (y ∷ ys) = elim (Bool-cases (before y x)) [
    | inl t ↦ rw t (Memᴰ.tail (mem-insert_with_new x ys))
    | inr f ↦ rw f (Memᴰ.head refl)
  ]

  mem-insert_with_old : (x z : A) (xs : List A) → Memᴰ z xs → Memᴰ z (insert_with before x xs)
  unfolding insert_with
  mem-insert_with_old x z [] m = elim m [ ]
  mem-insert_with_old x z (y ∷ ys) m = elim (Bool-cases (before y x)) [
    | inr f ↦ rw f (Memᴰ.tail m)
    | inl t ↦ rw t (elim m [
      | Memᴰ.head e ↦ Memᴰ.head e
      | Memᴰ.tail n ↦ Memᴰ.tail (mem-insert_with_old x z ys n)
    ])
  ]

  pub mem-sort_with : (x : A) (xs : List A) → Memᴰ x xs → Memᴰ x (sort_with before xs)
  unfolding sort_with
  mem-sort_with x [] m = elim m [ ]
  mem-sort_with x (y ∷ ys) (Memᴰ.head e) =
      subst (λ z. Memᴰ z (insert_with before y (sort_with before ys))) (sym e)
        (mem-insert_with_new y (sort_with before ys))
  mem-sort_with x (y ∷ ys) (Memᴰ.tail m) =
      mem-insert_with_old y x (sort_with before ys) (mem-sort_with x ys m)

module _ {ℓ} {A : Type ℓ} (key : A → ℕ) where
  abbrev pub Descending : List A → Type 0
  Descending [] = Unit
  Descending (x ∷ xs) = All (λ y. key y ≤ key x) xs × Descending xs

  abbrev behind : A → A → Bool
  behind a b = ltb (key b) (key a)

  insert-Descending : (x : A) (xs : List A) → Descending xs → Descending (insert_with behind x xs)
  unfolding insert_with
  insert-Descending x [] h = (tt, tt)
  insert-Descending x (y ∷ ys) h = elim (Bool-cases (ltb (key x) (key y))) [
    | inl t ↦ rw t (
      All-insert_with behind (λ z. key z ≤ key y) x ys (ground arith) h.0,
      insert-Descending x ys h.1,
    )
    | inr f ↦
        let le : key y ≤ key x = ground arith in
        rw f ((le, All-map {P = λ z. key z ≤ key y} (λ z k. omega (arith, k, le)) ys h.0), h)
  ]

  pub sort_desc-Descending : (xs : List A) → Descending (sort_desc key xs)
  unfolding sort_desc sort_with
  sort_desc-Descending [] = tt
  sort_desc-Descending (x ∷ xs) =
      insert-Descending x (sort_with behind xs) (unfold sort_desc in sort_desc-Descending xs)

  All-take {κ} : (P : A → Type κ) (n : ℕ) (xs : List A) → All P xs → All P (take n xs)
  All-take P zero xs h = tt
  All-take P (suc n) [] h = tt
  All-take P (suc n) (x ∷ xs) h = (h.0, All-take P n xs h.1)

  pub take-Descending : (n : ℕ) (xs : List A) → Descending xs → Descending (take n xs)
  take-Descending zero xs h = tt
  take-Descending (suc n) [] h = tt
  take-Descending (suc n) (x ∷ xs) h =
      (All-take (λ y. key y ≤ key x) n xs h.0, take-Descending n xs h.1)

  -- A row is among the first, or none of these is behind it.
  pub take-ahead :
      (n : ℕ) (x : A) (xs : List A)
      → Descending xs
      → Memᴰ x xs
      → Memᴰ x (take n xs) ⊎ All (λ y. key x ≤ key y) (take n xs)
  take-ahead zero x xs h m = inr tt
  take-ahead (suc n) x [] h m = elim m [ ]
  take-ahead (suc n) x (y ∷ ys) h (Memᴰ.head e) = inl (Memᴰ.head e)
  take-ahead (suc n) x (y ∷ ys) h (Memᴰ.tail m) = elim (take-ahead n x ys h.1 m) [
    | inl k ↦ inl (Memᴰ.tail k)
    | inr a ↦ inr (All-at (λ z. key z ≤ key y) ys h.0 m, a)
  ]
