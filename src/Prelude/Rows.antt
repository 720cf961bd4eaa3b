-- ===== src/Prelude/Rows.antt =====
-- What holds of every row of a list, and how selections, updates and searches go together.
use mathlib.Core.Path.{◌≡◌, refl, ap, subst, sym}
use mathlib.Core.Logic.{inl, inr}
use mathlib.Core.Bool.{Bool, true, false, ◌&&◌, ◌||◌}
use mathlib.Core.Option.{Option, none, some}
use mathlib.Core.List.{List, [], ◌∷◌, ◌++◌, map, Memᴰ}
use native.Mathlib.Omega.{arith}
use agent_control_plane.Prelude.Tests.{if◌then◌else◌, Bool-cases}
use agent_control_plane.Prelude.Lists.{All, any, select, update, find}

module _ {ℓ} {A : Type ℓ} where
  pub All-map {κ μ} :
      {P : A → Type κ} {Q : A → Type μ} (f : (x : A) → P x → Q x) (xs : List A)
      → All P xs
      → All Q xs
  All-map f [] h = tt
  All-map f (x ∷ xs) h = (f x h.0, All-map f xs h.1)

  pub All-append {κ} : (P : A → Type κ) (xs ys : List A) → All P xs → All P ys → All P (xs ++ ys)
  All-append P [] ys hx hy = hy
  All-append P (x ∷ xs) ys hx hy = (hx.0, All-append P xs ys hx.1 hy)

  pub All-at {κ} : (P : A → Type κ) {a : A} (xs : List A) → All P xs → Memᴰ a xs → P a
  All-at P [] h m = elim m [ ]
  All-at P (x ∷ xs) h (Memᴰ.head e) = subst P (sym e) h.0
  All-at P (x ∷ xs) h (Memᴰ.tail m) = All-at P xs h.1 m

  pub All-of {κ} : (P : A → Type κ) (xs : List A) → ((x : A) → Memᴰ x xs → P x) → All P xs
  All-of P [] f = tt
  All-of P (x ∷ xs) f = (f x (Memᴰ.head refl), All-of P xs (λ y m. f y (Memᴰ.tail m)))

  -- What holds of the rows that a test holds of, and of the others, holds after an update.
  pub All-update {κ μ} :
      (P : A → Type κ) (Q : A → Type μ) (p : A → Bool) (f : A → A)
      → ((x : A) → P x → p x ≡ true → Q (f x))
      → ((x : A) → P x → p x ≡ false → Q x)
      → (xs : List A) → All P xs
      → All Q (update p f xs)
  All-update P Q p f hit miss [] h = tt
  All-update P Q p f hit miss (x ∷ xs) h = elim (Bool-cases (p x)) [
    | inl t ↦ rw t (hit x h.0 t, All-update P Q p f hit miss xs h.1)
    | inr e ↦ rw e (miss x h.0 e, All-update P Q p f hit miss xs h.1)
  ]

  pub All-select {κ} :
      (P : A → Type κ) (p : A → Bool) (xs : List A) → All P xs → All P (select p xs)
  All-select P p [] h = tt
  All-select P p (x ∷ xs) h = elim (Bool-cases (p x)) [
    | inl t ↦ rw t (h.0, All-select P p xs h.1)
    | inr e ↦ rw e (All-select P p xs h.1)
  ]

  mem_kept :
      (p : A → Bool) (x y : A) (ys : List A)
      → p y ≡ true
      → (Memᴰ x (select p ys) → Memᴰ x ys × (p x ≡ true))
      → Memᴰ x (y ∷ select p ys)
      → Memᴰ x (y ∷ ys) × (p x ≡ true)
  mem_kept p x y ys t ih (Memᴰ.head e) = (Memᴰ.head e, subst (λ v. p v ≡ true) (sym e) t)
  mem_kept p x y ys t ih (Memᴰ.tail n) = (Memᴰ.tail (ih n).0, (ih n).1)

  -- A selected row is a row of the list, and the test holds of it.
  pub mem-select :
      (p : A → Bool) (x : A) (xs : List A) → Memᴰ x (select p xs) → Memᴰ x xs × (p x ≡ true)
  mem-select p x [] m = elim m [ ]
  mem-select p x (y ∷ ys) m = elim (Bool-cases (p y)) [
    | inl t ↦ mem_kept p x y ys t (mem-select p x ys) (subst (λ (l : List A). Memᴰ x l) (rw t) m)
    | inr e ↦
        let r : Memᴰ x ys × (p x ≡ true) =
          mem-select p x ys (subst (λ (l : List A). Memᴰ x l) (rw e) m) in
        (Memᴰ.tail r.0, r.1)
  ]

  pub select-hit :
      (p : A → Bool) (x : A) (xs : List A) → p x ≡ true → select p (x ∷ xs) ≡ x ∷ select p xs
  select-hit p x xs t = rw t

  pub select-miss :
      (p : A → Bool) (x : A) (xs : List A) → p x ≡ false → select p (x ∷ xs) ≡ select p xs
  select-miss p x xs e = rw e

  All_kept {κ} :
      (P : A → Type κ) (p : A → Bool) (x : A) (xs : List A)
      → (All P (select p xs) → All (λ x. p x ≡ true → P x) xs)
      → All P (x ∷ select p xs)
      → All (λ x. p x ≡ true → P x) (x ∷ xs)
  All_kept P p x xs ih h = ((λ _. h.0), ih h.1)

  -- What holds of the selected rows holds of every row that the test holds of.
  pub All-of-select {κ} :
      (P : A → Type κ) (p : A → Bool) (xs : List A)
      → All P (select p xs)
      → All (λ x. p x ≡ true → P x) xs
  All-of-select P p [] h = tt
  All-of-select P p (x ∷ xs) h = elim (Bool-cases (p x)) [
    | inl t ↦ All_kept P p x xs (All-of-select P p xs) (subst (All P) (select-hit p x xs t) h)
    | inr e ↦ ((λ t. absurd (cc)), All-of-select P p xs (subst (All P) (select-miss p x xs e) h))
  ]

  pub select-none : (p : A → Bool) (xs : List A) → select p xs ≡ [] → All (λ x. p x ≡ false) xs
  select-none p [] h = tt
  select-none p (x ∷ xs) h = elim (Bool-cases (p x)) [
    | inl t ↦ absurd (ground arith)
    | inr e ↦ (e, select-none p xs (ground arith))
  ]

  abbrev pub update_one : (A → Bool) → (A → A) → A → A
  update_one p f x = if p x then f x else x

  -- An update that leaves a test's outcome alone commutes with the search by that test.
  pub find-update :
      (q p : A → Bool) (f : A → A)
      → ((x : A) → q (f x) ≡ q x)
      → (xs : List A)
      → find q (update p f xs)
        ≡ (elim (find q xs) [ none ↦ none | some x ↦ some (update_one p f x) ])
  find-update q p f same [] = refl
  find-update q p f same (x ∷ xs) = ground (arith, same x, find-update q p f same xs)

  pub update-congr :
      (p q : A → Bool) (f : A → A) (xs : List A)
      → All (λ x. p x ≡ q x) xs
      → update p f xs ≡ update q f xs
  update-congr p q f [] h = refl
  update-congr p q f (x ∷ xs) h = ground (arith, h.0, update-congr p q f xs h.1)

  abbrev pub mapped : (A → A) → Option A → Option A
  mapped f none = none
  mapped f (some x) = some (f x)

  -- The row that a test finds is found updated.
  pub find-updated :
      (q : A → Bool) (f : A → A)
      → ((x : A) → q (f x) ≡ q x)
      → (xs : List A) → find q (update q f xs) ≡ mapped f (find q xs)
  find-updated q f same [] = refl
  find-updated q f same (x ∷ xs) = ground (arith, same x, find-updated q f same xs)

  pub update_none :
      (p : A → Bool) (f : A → A) (xs : List A) → All (λ x. p x ≡ false) xs → update p f xs ≡ xs
  update_none p f [] h = refl
  update_none p f (x ∷ xs) h = rw h.0 (ap (λ l. x ∷ l) (update_none p f xs h.1))

  -- A map that leaves a test's outcome alone commutes with the search by that test.
  pub find-map :
      (q : A → Bool) (f : A → A)
      → ((x : A) → q (f x) ≡ q x)
      → (xs : List A) (y : A) → find q xs ≡ some y
      → find q (map f xs) ≡ some (f y)
  find-map q f same [] y h = absurd (cc h)
  find-map q f same (x ∷ xs) y h = elim (Bool-cases (q x)) [
    | inl t ↦ let e : x ≡ y = ground arith in rw (same x, t) (ap (λ z. some (f z)) e)
    | inr n ↦ rw (same x, n) (find-map q f same xs y (ground arith))
  ]

  pub map-congr {κ} :
      {B : Type κ} (f g : A → B) (xs : List A) → All (λ x. f x ≡ g x) xs → map f xs ≡ map g xs
  map-congr f g [] h = refl
  map-congr f g (x ∷ xs) h = cc (h.0, map-congr f g xs h.1)

  pub find-mem :
      (p : A → Bool) (xs : List A) (y : A) → find p xs ≡ some y → Memᴰ y xs × (p y ≡ true)
  find-mem p [] y h = absurd (cc h)
  find-mem p (x ∷ xs) y h = elim (Bool-cases (p x)) [
    | inl t ↦ let e : x ≡ y = ground arith in (Memᴰ.head (sym e), subst (λ v. p v ≡ true) e t)
    | inr n ↦
        let r : Memᴰ y xs × (p y ≡ true) = find-mem p xs y (ground arith) in (Memᴰ.tail r.0, r.1)
  ]

module _ {ℓ κ} {A : Type ℓ} {B : Type κ} where
  -- What holds of the images holds of every row of the mapped list.
  pub All-over-map {μ} :
      (P : B → Type μ) (f : A → B) (xs : List A) → All (λ x. P (f x)) xs → All P (map f xs)
  All-over-map P f [] h = tt
  All-over-map P f (x ∷ xs) h = (h.0, All-over-map P f xs h.1)

module _ {ℓ} {A : Type ℓ} where
  pub any-select : (w p : A → Bool) (xs : List A) → any p (select w xs) ≡ any (λ x. w x && p x) xs
  any-select w p [] = refl
  any-select w p (x ∷ xs) = ground (arith, any-select w p xs)

  pub any-append : (p : A → Bool) (xs ys : List A) → any p (xs ++ ys) ≡ (any p xs || any p ys)
  any-append p [] ys = refl
  any-append p (x ∷ xs) ys = ground (arith, any-append p xs ys)

  pub select-append :
      (p : A → Bool) (xs ys : List A) → select p (xs ++ ys) ≡ select p xs ++ select p ys
  select-append p [] ys = refl
  select-append p (x ∷ xs) ys = ground (arith, select-append p xs ys)

  pub select_comm : (p q : A → Bool) (xs : List A) → select p (select q xs) ≡ select q (select p xs)
  select_comm p q [] = refl
  select_comm p q (x ∷ xs) = ground (arith, select_comm p q xs)

  pub select_all : (p : A → Bool) (xs : List A) → All (λ x. p x ≡ true) xs → select p xs ≡ xs
  select_all p [] h = refl
  select_all p (x ∷ xs) h = rw h.0 (ap (λ l. x ∷ l) (select_all p xs h.1))
