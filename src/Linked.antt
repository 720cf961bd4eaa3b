-- ===== src/Linked.antt =====
-- Rows of one workflow that form a linked list of hashes, as the receipts and the deltas do: each names
-- the digest of the row before it, and has a larger sequence number.
use agent_control_plane.Prelude.{
  ℕ, ◌<◌, String, ◌≡◌, refl, ap, subst, ◌∙◌, Option, none, some, List, [], ◌∷◌, ◌++◌, All, All-map,
  All-at, max_by, first_by-mem, arith, inl, inr, Option-cases,
}

module _ {A : Type 0} (seq : A → ℕ) (prev : A → Option String) (digest : A → String) where
  abbrev pub digest_of_last : Option A → Option String
  digest_of_last none = none
  digest_of_last (some a) = some (digest a)

  abbrev pub Later : Option A → ℕ → Type 0
  Later none n = Unit
  Later (some a) n = seq a < n

  abbrev pub Linked : Option A → List A → Type 0
  Linked before [] = Unit
  Linked before (a ∷ rest) =
      (prev a ≡ digest_of_last before) × Later before (seq a) × Linked (some a) rest

  abbrev last_or : Option A → List A → Option A
  last_or before [] = before
  last_or before (a ∷ rest) = last_or (some a) rest

  Linked-All-later : (p : A) (xs : List A) → Linked (some p) xs → All (λ x. seq p < seq x) xs
  Linked-All-later p [] h = tt
  Linked-All-later p (x ∷ xs) h =
      (h.1, All-map (λ y le. omega arith) xs (Linked-All-later x xs h.2))

  max_by-last :
      (p : A) (xs : List A) → Linked (some p) xs → max_by seq (p ∷ xs) ≡ last_or (some p) xs
  max_by-last p [] h = refl
  max_by-last p (x ∷ xs) h =
      let ih = max_by-last x xs h.2 in
      elim (Option-cases (max_by seq (x ∷ xs))) [
        | inl e ↦ absurd (cc e)
        | inr (z, e) ↦
            let later : seq p < seq z =
              All-at (λ y. seq p < seq y) (x ∷ xs) (Linked-All-later p (x ∷ xs) h)
                (first_by-mem _ (x ∷ xs) z e) in
            ground (arith, e, ih, later)
      ]

  -- The row with the largest number is the last one.
  pub latest-last : (xs : List A) → Linked none xs → max_by seq xs ≡ last_or none xs
  latest-last [] h = refl
  latest-last (x ∷ xs) h = max_by-last x xs h.2

  snoc_Linked :
      (before : Option A) (xs : List A) (y : A)
      → Linked before xs
      → prev y ≡ digest_of_last (last_or before xs)
      → Later (last_or before xs) (seq y)
      → Linked before (xs ++ y ∷ [])
  snoc_Linked before [] y h e l = (e, l, tt)
  snoc_Linked before (x ∷ xs) y h e l = (h.0, h.1, snoc_Linked (some x) xs y h.2 e l)

  -- A row that names the digest of the latest one and has a larger number goes on with the list.
  pub append-Linked :
      (xs : List A) (y : A)
      → Linked none xs
      → prev y ≡ digest_of_last (max_by seq xs)
      → Later (max_by seq xs) (seq y)
      → Linked none (xs ++ y ∷ [])
  append-Linked xs y h e l =
      snoc_Linked none xs y h (e ∙ ap digest_of_last (latest-last xs h))
        (subst (λ o. Later o (seq y)) (latest-last xs h) l)
