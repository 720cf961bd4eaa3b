-- ===== src/Tasks/Requeue/Settle.antt =====
-- The loop of RequeueExpiredTasksWithDeadLetter against what it does to each row.
use agent_control_plane.Prelude.{
  ℕ, suc, ◌+◌, ◌≡◌, refl, ap, Bool, true, false, List, [], ◌∷◌, map, count, update, leb, arith,
  Bool-cases, inl, inr, if◌then◌else◌, not,
}
use native.Mathlib.Nat.{add-zero}
use agent_control_plane.Sql.{ok, transact}
use agent_control_plane.Schema.{TaskRow, DeadLetter, Tables}
use agent_control_plane.Tasks.{has_id, is_expired}
use agent_control_plane.Tasks.Finish.{bury_row, dead_letter_of}
use agent_control_plane.Tasks.Requeue.{
  requeue_row, requeues, max_attempts_exceeded, insert_or_ignore, settle_loop,
}

-- No attempt is left.
abbrev pub is_spent : TaskRow → Bool
is_spent r = leb r.max_attempts r.attempt_count

-- What becomes of one row: an expired claim goes back to the queue, or is buried when no attempt is left.
unfoldable pub settle_row : ℕ → TaskRow → TaskRow
settle_row now r =
    if is_expired now r
    then if is_spent r then bury_row max_attempts_exceeded now r else requeue_row now r
    else r

-- What the statement for the expired task `t` does to the row `r`.
unfoldable pub apply_one : ℕ → TaskRow → TaskRow → TaskRow
apply_one now t r =
    if is_spent t
    then if has_id t.task_id r then bury_row max_attempts_exceeded now r else r
    else if requeues t r
    then requeue_row now r
    else r

unfoldable pub apply_all : ℕ → List TaskRow → TaskRow → TaskRow
apply_all now [] r = r
apply_all now (t ∷ ts) r = apply_all now ts (apply_one now t r)

update-map :
    (p : TaskRow → Bool) (f g : TaskRow → TaskRow)
    → ((r : TaskRow) → (if p r then f r else r) ≡ g r)
    → (rs : List TaskRow) → update p f rs ≡ map g rs
update-map p f g e [] = refl
update-map p f g e (r ∷ rs) = ground (arith, e r, update-map p f g e rs)

map-map : (f g : TaskRow → TaskRow) (rs : List TaskRow) → map f (map g rs) ≡ map (λ r. f (g r)) rs
map-map f g [] = refl
map-map f g (r ∷ rs) = ap (λ l. f (g r) ∷ l) (map-map f g rs)

tasks_of_bury :
    (now : ℕ) (t : TaskRow) (rs : List TaskRow)
    → is_spent t ≡ true
    → update (has_id t.task_id) (bury_row max_attempts_exceeded now) rs ≡ map (apply_one now t) rs
tasks_of_bury now t rs h =
    update-map (has_id t.task_id) (bury_row max_attempts_exceeded now) (apply_one now t)
      (λ r. unfold apply_one in rw h) rs

tasks_of_requeue :
    (now : ℕ) (t : TaskRow) (rs : List TaskRow)
    → is_spent t ≡ false
    → update (requeues t) (requeue_row now) rs ≡ map (apply_one now t) rs
tasks_of_requeue now t rs h =
    update-map (requeues t) (requeue_row now) (apply_one now t) (λ r. unfold apply_one in rw h) rs

-- The dead letters that the loop writes.
unfoldable pub letters : ℕ → List TaskRow → List DeadLetter → List DeadLetter
letters now [] ds = ds
letters now (t ∷ ts) ds =
    letters now ts
      (if is_spent t then insert_or_ignore (dead_letter_of max_attempts_exceeded now t) ds else ds)

abbrev pub left : TaskRow → Bool
left r = not (is_spent r)

unfoldable pub settled : ℕ → List TaskRow → Tables → Tables
settled now ts db = record db {
  tasks = map (apply_all now ts) db.tasks;
  dead_letters = letters now ts db.dead_letters;
}

map_id : (rs : List TaskRow) → map (λ r. r) rs ≡ rs
map_id [] = refl
map_id (r ∷ rs) = ap (λ l. r ∷ l) (map_id rs)

settled_one : ℕ → TaskRow → Tables → Tables
settled_one now t db = record db {
  tasks = map (apply_one now t) db.tasks;
  dead_letters = letters now (t ∷ []) db.dead_letters;
}

settled_cons :
    (now : ℕ) (t : TaskRow) (ts : List TaskRow) (db : Tables)
    → settled now ts (settled_one now t db) ≡ settled now (t ∷ ts) db
unfolding settled settled_one letters apply_all
settled_cons now t ts db =
    ap
      (λ (l : List TaskRow). record db {
        tasks = l;
        dead_letters = letters now (t ∷ ts) db.dead_letters;
      })
      (map-map (apply_all now ts) (apply_one now t) db.tasks)

module _ (now requeued dead : ℕ) (t : TaskRow) (ts : List TaskRow) (db : Tables) where
  loop_bury :
      is_spent t ≡ true
      → settle_loop now requeued dead (t ∷ ts) db
        ≡ settle_loop now requeued (suc dead) ts (settled_one now t db)
  unfolding settle_loop settled_one letters transact
  loop_bury y = rw (y, tasks_of_bury now t db.tasks y)

  loop_requeue :
      is_spent t ≡ false
      → settle_loop now requeued dead (t ∷ ts) db
        ≡ settle_loop now (suc requeued) dead ts (settled_one now t db)
  unfolding settle_loop settled_one letters
  loop_requeue n = rw (n, tasks_of_requeue now t db.tasks n)

pub settle_loop_lem :
    (now requeued dead : ℕ) (ts : List TaskRow) (db : Tables)
    → settle_loop now requeued dead ts db
      ≡ (ok (requeued + count left ts, dead + count is_spent ts), settled now ts db)
settle_loop_lem now requeued dead [] db =
    unfold settle_loop settled letters apply_all in rw (map_id db.tasks, add-zero, add-zero)
settle_loop_lem now requeued dead (t ∷ ts) db = elim (Bool-cases (is_spent t)) [
  | inl y ↦ rw (loop_bury now requeued dead t ts db y) (
      ground (
        arith,
        settle_loop_lem now requeued (suc dead) ts (settled_one now t db),
        settled_cons now t ts db,
      ))
  | inr n ↦ rw (loop_requeue now requeued dead t ts db n) (
      ground (
        arith,
        settle_loop_lem now (suc requeued) dead ts (settled_one now t db),
        settled_cons now t ts db,
      ))
]
