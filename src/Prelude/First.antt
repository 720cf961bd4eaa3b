-- ===== src/Prelude/First.antt =====
-- `ORDER BY … LIMIT 1`: the first row of a list under a strict order `before`, the earlier one of
-- rows that the order does not tell apart.
use Prim.Native.Nat.{ℕ, suc, ◌≤◌}
use mathlib.Core.Path.{◌≡◌, refl, sym, subst, ap, ◌∙◌}
use mathlib.Core.Logic.{inl, inr}
use mathlib.Core.Bool.{Bool, true, false}
use mathlib.Core.Option.{Option, none, some}
use mathlib.Core.List.{List, [], ◌∷◌, ◌++◌, Memᴰ}
use native.Mathlib.Omega.{arith}
use agent_control_plane.Prelude.Tests.{if◌then◌else◌, ltb, Bool-cases, Option-cases}
use agent_control_plane.Prelude.Lists.{All, select}
use agent_control_plane.Prelude.Rows.{All-map, All-at, mem-select, select-hit}

module _ {ℓ} {A : Type ℓ} (before : A → A → Bool) where
  abbrev pub pick : A → Option A → A
  pick x none = x
  pick x (some y) = if before y x then y else x

  abbrev pub first_by : List A → Option A
  first_by [] = none
  first_by (x ∷ xs) = some (pick x (first_by xs))

-- `ORDER BY key DESC LIMIT 1`
abbrev pub max_by {ℓ} : {A : Type ℓ} → (A → ℕ) → List A → Option A
max_by key = first_by (λ x y. ltb (key y) (key x))

module _ {ℓ} {A : Type ℓ} (before : A → A → Bool) where
  pick-mem :
      (x y : A) (xs : List A) (o : Option A)
      → o ≡ first_by before xs
      → ((z : A) → first_by before xs ≡ some z → Memᴰ z xs)
      → pick before x o ≡ y
      → Memᴰ y (x ∷ xs)
  pick-mem x y xs none e ih h = Memᴰ.head (sym h)
  pick-mem x y xs (some z) e ih h = elim (Bool-cases (before z x)) [
    | inl t ↦ Memᴰ.tail (subst (λ v. Memᴰ v xs) (ground arith) (ih z (sym e)))
    | inr f ↦ Memᴰ.head (ground arith)
  ]

  -- What is found is a row of the list.
  pub first_by-mem : (xs : List A) (y : A) → first_by before xs ≡ some y → Memᴰ y xs
  first_by-mem [] y h = cc
  first_by-mem (x ∷ xs) y h =
      pick-mem x y xs (first_by before xs) refl (λ z. first_by-mem xs z) (ground arith)

module _ {ℓ} {A : Type ℓ} (before : A → A → Bool) (irrefl : (a : A) → before a a ≡ false)
    (trans : (a b c : A) → before b a ≡ false → before c b ≡ false → before c a ≡ false)
    (asym : (a b : A) → before a b ≡ true → before b a ≡ false) where
  pick-least :
      (x y : A) (xs : List A) (o : Option A)
      → (o ≡ none → xs ≡ [])
      → ((z : A) → o ≡ some z → All (λ w. before w z ≡ false) xs)
      → pick before x o ≡ y
      → All (λ w. before w y ≡ false) (x ∷ xs)
  pick-least x y xs none n ih e = (
    subst (λ v. before x v ≡ false) e (irrefl x),
    subst (All (λ w. before w y ≡ false)) (sym (n refl)) tt,
  )
  pick-least x y xs (some z) n ih e = elim (Bool-cases (before z x)) [
    | inl t ↦
        subst (λ v. All (λ w. before w v ≡ false) (x ∷ xs)) (ground arith) (asym z x t, ih z refl)
    | inr f ↦
        subst (λ v. All (λ w. before w v ≡ false) (x ∷ xs)) (ground arith)
          (irrefl x, All-map (λ w h. trans x z w f h) xs (ih z refl))
  ]

  pub first_by-none : (xs : List A) → first_by before xs ≡ none → xs ≡ []
  first_by-none [] h = refl
  first_by-none (x ∷ xs) h = cc

  -- No row of the list stands before the one that is found.
  pub first_by-least :
      (xs : List A) (y : A) → first_by before xs ≡ some y → All (λ w. before w y ≡ false) xs
  first_by-least [] y h = tt
  first_by-least (x ∷ xs) y h =
      pick-least x y xs (first_by before xs) (first_by-none xs) (λ z. first_by-least xs z)
        (ground arith)

module _ {ℓ} {A : Type ℓ} (key : A → ℕ) where
  pub max_by-none : (xs : List A) → max_by key xs ≡ none → xs ≡ []
  max_by-none [] h = refl
  max_by-none (x ∷ xs) h = cc

  -- No row has a larger key than the one that `ORDER BY key DESC` finds.
  pub max_by-greatest : (xs : List A) (y : A) → max_by key xs ≡ some y → All (λ w. key w ≤ key y) xs
  max_by-greatest xs y h =
      All-map {P = λ w. ltb (key y) (key w) ≡ false} (λ w e. ground arith) xs
        (first_by-least (λ a b. ltb (key b) (key a)) (λ a. ground arith) (λ a b c p q. ground arith)
          (λ a b p. ground arith) xs y h)

  -- A row whose key none passes, put in front or behind, decides the maximum.
  pub max_by-append :
      (xs : List A) (y : A) → All (λ w. suc (key w) ≤ key y) xs → max_by key (xs ++ y ∷ []) ≡ some y
  max_by-append [] y h = refl
  max_by-append (x ∷ xs) y h = rw (max_by-append xs y h.1) (ground (arith, h.0))

  -- One more row behind wins only with a larger key.
  abbrev newer : A → Option A → A
  newer y none = y
  newer y (some l) = if ltb (key l) (key y) then y else l

  pub max_by-snoc :
      (xs : List A) (y : A) → max_by key (xs ++ y ∷ []) ≡ some (newer y (max_by key xs))
  max_by-snoc [] y = refl
  max_by-snoc (x ∷ xs) y = elim (Option-cases (max_by key xs)) [
    | inl e ↦ ground (arith, max_by-snoc xs y, e)
    | inr (z, e) ↦ ground (arith, max_by-snoc xs y, e)
  ]

  max_select_behind :
      (p : A → Bool) (x z : A) (xs : List A)
      → max_by key xs ≡ some z
      → key z ≤ key x
      → pick (λ a b. ltb (key b) (key a)) x (max_by key (select p xs)) ≡ x
  max_select_behind p x z xs e h = elim (Option-cases (max_by key (select p xs))) [
    | inl n ↦ rw n
    | inr (w, f) ↦
        let m : Memᴰ w (select p xs) = first_by-mem (λ a b. ltb (key b) (key a)) _ w f in
        let le : key w ≤ key z =
          All-at (λ v. key v ≤ key z) xs (max_by-greatest xs z e) (mem-select p w xs m).0 in
        rw f (ground arith)
  ]

  -- Dropping other rows leaves the maximum.
  pub max_by-select :
      (p : A → Bool) (xs : List A) (l : A)
      → max_by key xs ≡ some l
      → p l ≡ true
      → max_by key (select p xs) ≡ some l
  max_by-select p [] l h t = absurd (cc h)
  max_by-select p (x ∷ xs) l h t = elim (Option-cases (max_by key xs)) [
    | inl e ↦
        let nil : xs ≡ [] = max_by-none xs e in
        let same : x ≡ l = ground arith in
        rw nil (let q : p x ≡ true = rw same t in rw q (ap some same))
    | inr (z, e) ↦ elim (Bool-cases (ltb (key x) (key z))) [
      | inl y ↦ let same : z ≡ l = ground arith in ground (arith, max_by-select p xs l, same, e)
      | inr n ↦
          let same : x ≡ l = ground arith in
          rw (select-hit p x xs (rw same t))
            (ap some (max_select_behind p x z xs e (ground arith)) ∙ ap some same)
    ]
  ]
