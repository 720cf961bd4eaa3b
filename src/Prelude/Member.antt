-- ===== src/Prelude/Member.antt =====
-- A test of some row of a list, read by the rows.
use mathlib.Core.Path.{◌≡◌, refl, subst}
use mathlib.Core.Logic.{inl, inr}
use mathlib.Core.Bool.{Bool, true, false}
use mathlib.Core.List.{List, [], ◌∷◌, Memᴰ}
use native.Mathlib.Omega.{arith}
use agent_control_plane.Prelude.Tests.{Bool-cases}
use agent_control_plane.Prelude.Lists.{any, select}

module _ {ℓ} {A : Type ℓ} where
  pub any-of_mem : (p : A → Bool) (x : A) (xs : List A) → Memᴰ x xs → p x ≡ true → any p xs ≡ true
  any-of_mem p x [] m t = elim m [ ]
  any-of_mem p x (y ∷ ys) (Memᴰ.head e) t = let h : p y ≡ true = subst (λ v. p v ≡ true) e t in rw h
  any-of_mem p x (y ∷ ys) (Memᴰ.tail m) t =
      let h : any p ys ≡ true = any-of_mem p x ys m t in ground (arith, h)

  pub mem-of_any :
      (p : A → Bool) (xs : List A) → any p xs ≡ true → (x : A) × (Memᴰ x xs × (p x ≡ true))
  mem-of_any p [] h = absurd (cc h)
  mem-of_any p (y ∷ ys) h = elim (Bool-cases (p y)) [
    | inl t ↦ (y, (Memᴰ.head refl, t))
    | inr e ↦
        let r : (x : A) × (Memᴰ x ys × (p x ≡ true)) = mem-of_any p ys (ground arith) in
        (r.0, (Memᴰ.tail r.1.0, r.1.1))
  ]

  pub miss-of_any :
      (p : A → Bool) (x : A) (xs : List A) → any p xs ≡ false → Memᴰ x xs → p x ≡ false
  miss-of_any p x xs h m = elim (Bool-cases (p x)) [
    | inl t ↦ absurd (let y : any p xs ≡ true = any-of_mem p x xs m t in cc (h, y))
    | inr e ↦ e
  ]

  pub any-of_misses :
      (p : A → Bool) (xs : List A) → ((x : A) → Memᴰ x xs → p x ≡ false) → any p xs ≡ false
  any-of_misses p [] f = refl
  any-of_misses p (y ∷ ys) f =
      ground (arith, f y (Memᴰ.head refl), any-of_misses p ys (λ x m. f x (Memᴰ.tail m)))

  pub mem-in_select :
      (p : A → Bool) (x : A) (xs : List A) → Memᴰ x xs → p x ≡ true → Memᴰ x (select p xs)
  mem-in_select p x [] m t = elim m [ ]
  mem-in_select p x (y ∷ ys) (Memᴰ.head e) t =
      let h : p y ≡ true = subst (λ v. p v ≡ true) e t in rw h (Memᴰ.head e)
  mem-in_select p x (y ∷ ys) (Memᴰ.tail m) t = elim (Bool-cases (p y)) [
    | inl h ↦ rw h (Memᴰ.tail (mem-in_select p x ys m t))
    | inr h ↦ rw h (mem-in_select p x ys m t)
  ]
