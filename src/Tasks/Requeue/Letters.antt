-- ===== src/Tasks/Requeue/Letters.antt =====
-- The dead letters that a sweep of expired tasks writes.
use agent_control_plane.Prelude.{
  ℕ, String, ◌≡◌, Bool, true, List, [], ◌∷◌, ◌++◌, All, arith, Bool-cases, inl, inr, eq_refl, ◌==◌,
  any,
}
use agent_control_plane.Schema.{TaskRow, DeadLetter}
use agent_control_plane.Tasks.Finish.{dead_letter_of}
use agent_control_plane.Tasks.Requeue.{max_attempts_exceeded, insert_or_ignore}
use agent_control_plane.Tasks.Requeue.Settle.{is_spent, letters}

abbrev pub has_letter : String → List DeadLetter → Bool
has_letter id ds = any (λ (d : DeadLetter). d.task_id == id) ds

pub has_letter-append :
    (id : String) (ds es : List DeadLetter)
    → has_letter id ds ≡ true
    → has_letter id (ds ++ es) ≡ true
has_letter-append id [] es h = cc
has_letter-append id (d ∷ ds) es h = ground (arith, has_letter-append id ds es)

pub has_letter_last :
    (d : DeadLetter) (ds : List DeadLetter) → has_letter d.task_id (ds ++ d ∷ []) ≡ true
has_letter_last d [] = ground (arith, eq_refl d.task_id)
has_letter_last d (e ∷ ds) = ground (arith, has_letter_last d ds)

insert_keeps :
    (id : String) (d : DeadLetter) (ds : List DeadLetter)
    → has_letter id ds ≡ true
    → has_letter id (insert_or_ignore d ds) ≡ true
unfolding insert_or_ignore
insert_keeps id d ds h = ground (arith, has_letter-append id ds (d ∷ []) h)

insert_has :
    (d : DeadLetter) (ds : List DeadLetter) → has_letter d.task_id (insert_or_ignore d ds) ≡ true
unfolding insert_or_ignore
insert_has d ds = ground (arith, has_letter_last d ds)

module _ (now : ℕ) where
  pub letters_keep :
      (id : String) (ts : List TaskRow) (ds : List DeadLetter)
      → has_letter id ds ≡ true
      → has_letter id (letters now ts ds) ≡ true
  unfolding letters
  letters_keep id [] ds h = h
  letters_keep id (t ∷ ts) ds h = elim (Bool-cases (is_spent t)) [
    | inl y ↦ rw y (letters_keep id ts _ (insert_keeps id _ ds h))
    | inr n ↦ rw n (letters_keep id ts ds h)
  ]

  pub letters_have :
      (ts : List TaskRow) (ds : List DeadLetter)
      → All (λ t. is_spent t ≡ true → has_letter t.task_id (letters now ts ds) ≡ true) ts
  unfolding letters dead_letter_of
  letters_have [] ds = tt
  letters_have (t ∷ ts) ds = (
    (λ y.
        rw y (
          letters_keep t.task_id ts _
            (insert_has (dead_letter_of max_attempts_exceeded now t) ds))),
    letters_have ts _,
  )
