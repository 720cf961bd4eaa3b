-- ===== src/Tasks/Life/Facts.antt =====
-- What every run of the abstract machine keeps, and so every history of the queue.
use agent_control_plane.Prelude.{
  ◌≤◌, String, ◌≡◌, refl, ◌∙◌, subst, ap, Bool, Bool-cases, [], ◌∷◌, any, find, any-of_mem,
  find-mem, Option-cases, inl, inr, true, Option, none, some, List, arith,
}
use agent_control_plane.Schema.{TaskRow, Tables}
use agent_control_plane.Tasks.{has_id, find_task}
use agent_control_plane.Tasks.Invariant.{QueueStep, queue_steps, IsSound}
use agent_control_plane.Tasks.Life.{
  Life, Move, stays, comes, is_taken, returns, is_finished, gives_up, is_put_away, Moves, rests,
  goes, view, life, life_of,
}
use agent_control_plane.Tasks.Life.Refines.{queue_steps-Moves}

-- The bound is as before, the attempts are no fewer, and what was put away still is.
pub record IsLater (l m : Life) : Type 0 where
  pub bound : l.bound ≡ m.bound
  pub attempts : l.attempts ≤ m.attempts
  pub buried : l.is_buried ≡ true → m.is_buried ≡ true

-- A task that is there stays there, later in its life.
abbrev pub Follows : Option Life → Option Life → Type 0
Follows none b = Unit
Follows (some l) none = ⊥
Follows (some l) (some m) = IsLater l m

same_life : (o : Option Life) → Follows o o
same_life none = tt
same_life (some l) = record { bound = refl; attempts = omega arith; buried = λ h. h }

Move-Follows : {a b : Option Life} → Move a b → Follows a b
Move-Follows (stays {o}) = same_life o
Move-Follows (comes bound) = tt
Move-Follows (is_taken l worker p k h) = record {
  bound = refl;
  attempts = omega arith;
  buried = λ h. h;
}
Move-Follows (returns l c k h) = record { bound = refl; attempts = omega arith; buried = λ h. h }
Move-Follows (is_finished l) = record { bound = refl; attempts = omega arith; buried = λ h. h }
Move-Follows (gives_up l h) = record { bound = refl; attempts = omega arith; buried = λ h. h }
Move-Follows (is_put_away l h) = record { bound = refl; attempts = omega arith; buried = λ h. refl }

Follows-trans : (a b d : Option Life) → Follows a b → Follows b d → Follows a d
Follows-trans none b d h k = tt
Follows-trans (some l) none d h k = absurd h
Follows-trans (some l) (some m) none h k = k
Follows-trans (some l) (some m) (some n) h k = record {
  bound = h.bound ∙ k.bound;
  attempts = omega (arith, h.attempts, k.attempts);
  buried = λ t. k.buried (h.buried t);
}

Moves-Follows : {a b : Option Life} → Moves a b → Follows a b
Moves-Follows (rests {o}) = same_life o
Moves-Follows (goes {a} {b} {d} m ms) = Follows-trans a b d (Move-Follows m) (Moves-Follows ms)

-- No history loses a task, lowers the number of its attempts, changes their bound or takes a dead letter's mark
-- back.
pub queue_steps-Follows :
    (ss : List QueueStep) (db : Tables) (id : String)
    → IsSound db
    → Follows (view db id) (view (queue_steps ss db) id)
queue_steps-Follows ss db id h = Moves-Follows (queue_steps-Moves ss db id h)

view_taken :
    (db : Tables) (id : String) (l : Life) → view db id ≡ some l → any (has_id id) db.tasks ≡ true
unfolding find_task
view_taken db id l h = elim (Option-cases (find_task id db)) [
  | inl n ↦ absurd (let e : view db id ≡ none = rw n refl in cc (h, e))
  | inr (r, k) ↦
      let (m, t) = find-mem (has_id id) db.tasks r k in any-of_mem (has_id id) r db.tasks m t
]

found :
    (p : TaskRow → Bool) (xs : List TaskRow)
    → any p xs ≡ true
    → (y : TaskRow) × (find p xs ≡ some y)
found p [] h = absurd (cc h)
found p (x ∷ xs) h = elim (Bool-cases (p x)) [
  | inl t ↦ (x, rw t refl)
  | inr f ↦ let (y, e) = found p xs (ground (arith, h)) in (y, rw f e)
]

taken_view :
    (db : Tables) (id : String)
    → any (has_id id) db.tasks ≡ true
    → (l : Life) × (view db id ≡ some l)
unfolding find_task
taken_view db id h = let (r, e) = found (has_id id) db.tasks h in (life r, ap life_of e)

Follows-taken :
    (l : Life) (id : String) (db : Tables) (o : Option Life)
    → view db id ≡ o
    → Follows (some l) o
    → any (has_id id) db.tasks ≡ true
Follows-taken l id db none e f = absurd f
Follows-taken l id db (some m) e f = view_taken db id m e

-- So an id that is taken stays taken.
pub queue_steps-keeps :
    (ss : List QueueStep) (db : Tables) (id : String)
    → IsSound db
    → any (has_id id) db.tasks ≡ true
    → any (has_id id) (queue_steps ss db).tasks ≡ true
queue_steps-keeps ss db id h t =
    let (l, e) = taken_view db id t in
    let after = queue_steps ss db in
    Follows-taken l id after (view after id) refl
      (subst (λ o. Follows o (view after id)) e (queue_steps-Follows ss db id h))
