-- ===== src/Tasks/Requeue/Effect.antt =====
-- RequeueExpiredTasksWithDeadLetter settles every expired claim and touches no other task.
use agent_control_plane.Prelude.{
  ℕ, ◌≡◌, refl, sym, Bool, true, false, List, [], ◌∷◌, map, Memᴰ, All, All-of, All-at, All-select,
  All-map, select, count, map-congr, arith, Bool-cases, inl, inr, eq_iff, eq_refl, select-hit,
  select-miss, All-of-select, ◌&&◌, ◌==◌, subst, ◌∙◌, any,
}
use native.Mathlib.Nat.{zero-add}
use agent_control_plane.Sql.{ok}
use agent_control_plane.Schema.{TaskRow, Tables}
use agent_control_plane.Tasks.{has_id, is_expired}
use agent_control_plane.Tasks.Ids.{HasUniqueIds}
use agent_control_plane.Tasks.Finish.{bury_row}
use agent_control_plane.Tasks.Requeue.{requeue_row, requeues, requeue_expired_with_dead_letter}
use agent_control_plane.Tasks.Requeue.Letters.{letters_have}
use agent_control_plane.Tasks.Requeue.Settle.{
  is_spent, left, settle_row, apply_one, apply_all, letters, settled, settle_loop_lem,
}

apply_one_other : (now : ℕ) (t r : TaskRow) → has_id t.task_id r ≡ false → apply_one now t r ≡ r
unfolding apply_one requeues
apply_one_other now t r h = ground arith

apply_all_other :
    (now : ℕ) (ts : List TaskRow) (r : TaskRow)
    → All (λ t. has_id t.task_id r ≡ false) ts
    → apply_all now ts r ≡ r
unfolding apply_all
apply_all_other now [] r h = refl
apply_all_other now (t ∷ ts) r h = rw (apply_one_other now t r h.0) (apply_all_other now ts r h.1)

apply_one_self :
    (now : ℕ) (r : TaskRow) → is_expired now r ≡ true → apply_one now r r ≡ settle_row now r
unfolding apply_one requeues settle_row is_expired
apply_one_self now r h = ground (arith, eq_refl r.task_id)

pub settle_row-task_id : (now : ℕ) (r : TaskRow) → (settle_row now r).task_id ≡ r.task_id
unfolding settle_row bury_row requeue_row
settle_row-task_id now r = ground arith

settle_row_idle : (now : ℕ) (r : TaskRow) → is_expired now r ≡ false → settle_row now r ≡ r
unfolding settle_row
settle_row_idle now r h = rw h

-- No other row of the table has the id of `r`, whichever statement runs on it.
others :
    (now : ℕ) (r s : TaskRow) (rs : List TaskRow)
    → s.task_id ≡ r.task_id
    → All (λ t. has_id r.task_id t ≡ false) rs
    → All (λ t. has_id t.task_id s ≡ false) (select (is_expired now) rs)
others now r s rs e h = All-select _ (is_expired now) rs (
    All-map (λ t k. ground (arith, e, eq_iff r.task_id t.task_id, eq_iff t.task_id s.task_id)) rs h)

module _ (now : ℕ) where
  abbrev expired : List TaskRow → List TaskRow
  expired = select (is_expired now)

  head_settled :
      (r : TaskRow) (rs : List TaskRow)
      → All (λ t. has_id r.task_id t ≡ false) rs
      → apply_all now (expired (r ∷ rs)) r ≡ settle_row now r
  unfolding apply_all settle_row
  head_settled r rs h = elim (Bool-cases (is_expired now r)) [
    | inl y ↦
        rw (select-hit (is_expired now) r rs y, apply_all, apply_one_self now r y)
          (apply_all_other now (expired rs) (settle_row now r)
            (others now r (settle_row now r) rs (settle_row-task_id now r) h))
    | inr n ↦
        rw (select-miss (is_expired now) r rs n, settle_row_idle now r n)
          (apply_all_other now (expired rs) r (others now r r rs refl h))
  ]

  tail_settled :
      (x r : TaskRow) (rs : List TaskRow)
      → has_id x.task_id r ≡ false
      → apply_all now (expired (x ∷ rs)) r ≡ apply_all now (expired rs) r
  unfolding apply_all
  tail_settled x r rs h = elim (Bool-cases (is_expired now x)) [
    | inl y ↦ rw (select-hit (is_expired now) x rs y, apply_all, apply_one_other now x r h)
    | inr n ↦ rw (select-miss (is_expired now) x rs n)
  ]

  all_settled :
      (rs : List TaskRow) (r : TaskRow)
      → HasUniqueIds rs
      → Memᴰ r rs
      → apply_all now (expired rs) r ≡ settle_row now r
  all_settled [] r u m = elim m [ ]
  all_settled (x ∷ rs) r u (Memᴰ.head e) =
      subst (λ v. apply_all now (expired (x ∷ rs)) v ≡ settle_row now v) (sym e)
        (head_settled x rs u.0)
  all_settled (x ∷ rs) r u (Memᴰ.tail m) =
      tail_settled x r rs (All-at (λ s. has_id x.task_id s ≡ false) rs u.0 m)
      ∙ all_settled rs r u.1 m

count-select :
    (p q : TaskRow → Bool) (rs : List TaskRow) → count q (select p rs) ≡ count (λ r. p r && q r) rs
count-select p q [] = refl
count-select p q (r ∷ rs) = ground (arith, count-select p q rs)

All-settled :
    (now : ℕ) (rs : List TaskRow) → All (λ r. is_expired now r ≡ false) (map (settle_row now) rs)
unfolding settle_row is_expired bury_row requeue_row
All-settled now [] = tt
All-settled now (r ∷ rs) = (ground arith, All-settled now rs)

-- Every expired claim goes back to the queue, or is buried when it has no attempt left; every other
-- task stays as it is; and the counters are the numbers of the two. The ids must be unique.
pub requeue_expired-map :
    (now : ℕ) (db : Tables)
    → HasUniqueIds db.tasks
    → let (result, db') = requeue_expired_with_dead_letter now db in
      (db'.tasks ≡ map (settle_row now) db.tasks)
      × (result
          ≡ ok (
            count (λ r. is_expired now r && left r) db.tasks,
            count (λ r. is_expired now r && is_spent r) db.tasks,
          ))
unfolding requeue_expired_with_dead_letter
requeue_expired-map now db u =
    let e = settle_loop_lem now 0 0 (select (is_expired now) db.tasks) db in
    rw e (
      unfold settled in
      (
        map-congr _ _ db.tasks (
            All-of (λ r. apply_all now (select (is_expired now) db.tasks) r ≡ settle_row now r)
              db.tasks (λ r m. all_settled now db.tasks r u m)),
        rw (zero-add, zero-add, count-select, count-select),
      ))

-- A sweep leaves no expired claim, and every task that it buried has a dead letter. The ids must be
-- unique.
pub requeue_expired_complete :
    (now : ℕ) (db : Tables)
    → HasUniqueIds db.tasks
    → let db' = (requeue_expired_with_dead_letter now db).1 in
      All (λ r. is_expired now r ≡ false) db'.tasks
      × All
          (λ r.
            is_expired now r ≡ true
            → is_spent r ≡ true
            → any (λ d. d.task_id == r.task_id) db'.dead_letters ≡ true)
          db.tasks
requeue_expired_complete now db u = (
  rw (requeue_expired-map now db u).0 (All-settled now db.tasks),
  unfold requeue_expired_with_dead_letter settled in
      rw (settle_loop_lem now 0 0 (select (is_expired now) db.tasks) db) (
        All-of-select _ (is_expired now) db.tasks
          (letters_have now (select (is_expired now) db.tasks) db.dead_letters)),
)

-- The letters of a sweep are the old ones and those of the buried.
pub requeue_expired-letters :
    (now : ℕ) (db : Tables)
    → (requeue_expired_with_dead_letter now db).1.dead_letters
      ≡ letters now (select (is_expired now) db.tasks) db.dead_letters
unfolding requeue_expired_with_dead_letter settled
requeue_expired-letters now db = rw (settle_loop_lem now 0 0 (select (is_expired now) db.tasks) db)
