-- ===== src/Tasks/Claim/Race.antt =====
-- Workers that scanned the same candidate race for it by the conditional UPDATE of ClaimNextTask; the
-- statements of the others run in between, in any order.
use agent_control_plane.Prelude.{
  subst, ℕ, ◌+◌, ◌≤◌, String, ◌≡◌, refl, Bool, true, false, List, [], ◌∷◌, All, count, update,
  arith, ◌==◌, eq_iff, if◌then◌else◌, Bool-cases, inl, inr,
}
use agent_control_plane.Sql.{Result, ok, err}
use agent_control_plane.Schema.{TaskRow, Tables}
use agent_control_plane.Tasks.{has_id, find_task}
use agent_control_plane.Tasks.Ids.{HasUniqueIds}
use agent_control_plane.Tasks.Claim.{
  still_pending, claim_row, claim_update, beats_for, beat_row, heartbeat,
}
use agent_control_plane.Tasks.Finish.{
  complete_row, complete_task, fail_task, exhausted, fail_row, dead_letter_task, bury_row,
}
use agent_control_plane.Tasks.Finish.Cases.{
  dead_letter_task-cases, fail_task-exhausted, fail_task_open,
}

-- One statement of a worker, or of the server for it.
pub data WorkerStep : Type 0 where
  claims : String → String → ℕ → WorkerStep
  beats : String → String → ℕ → WorkerStep
  completes : String → String → String → ℕ → WorkerStep
  fails : String → String → ℕ → WorkerStep

unfoldable pub worker_step : WorkerStep → Tables → Tables
worker_step (claims agent id now) db = (claim_update agent id now db).1
worker_step (beats id worker now) db = (heartbeat id worker now db).1
worker_step (completes id output policy now) db = (complete_task id output policy now db).1
worker_step (fails id reason now) db = (fail_task id reason now db).1

abbrev pub affected : Result ℕ → ℕ
affected (ok n) = n
affected (err e) = 0

-- The rows that a step claimed of task `id`: the workers that go on to work on it.
unfoldable pub wins : String → WorkerStep → Tables → ℕ
wins id (claims agent id' now) db =
    if id' == id then affected (claim_update agent id' now db).0 else 0
wins id _ db = 0

unfoldable pub total_wins : String → List WorkerStep → Tables → ℕ
total_wins id [] db = 0
total_wins id (s ∷ ss) db = wins id s db + total_wins id ss (worker_step s db)

module _ (q p : TaskRow → Bool) (f : TaskRow → TaskRow) where
  count-update-le :
      ((x : TaskRow) → q (f x) ≡ true → q x ≡ true)
      → (rs : List TaskRow) → count q (update p f rs) ≤ count q rs
  count-update-le keep [] = omega arith
  count-update-le keep (r ∷ rs) = ground (arith, keep r, count-update-le keep rs)

count-update_none :
    (q : TaskRow → Bool) (f : TaskRow → TaskRow)
    → ((x : TaskRow) → q (f x) ≡ false)
    → (rs : List TaskRow) → count q (update q f rs) ≡ 0
count-update_none q f gone [] = refl
count-update_none q f gone (r ∷ rs) = ground (arith, gone r, count-update_none q f gone rs)

abbrev waiting : String → Tables → ℕ
waiting id db = count (still_pending id) db.tasks

claim-waiting :
    (id agent id' : String) (now : ℕ) (rs : List TaskRow)
    → count (still_pending id) (update (still_pending id') (claim_row agent now) rs)
      ≤ count (still_pending id) rs
claim-waiting id agent id' now rs =
    count-update-le (still_pending id) (still_pending id') (claim_row agent now)
      (λ x h. unfold still_pending claim_row in ground arith) rs

-- After the UPDATE no row of that id is pending.
claim-waiting_self :
    (id agent : String) (now : ℕ) (rs : List TaskRow)
    → count (still_pending id) (update (still_pending id) (claim_row agent now) rs) ≡ 0
claim-waiting_self id agent now rs =
    count-update_none (still_pending id) (claim_row agent now)
      (λ x. unfold still_pending claim_row in ground arith) rs

beat-waiting :
    (id id' worker : String) (now : ℕ) (rs : List TaskRow)
    → count (still_pending id) (update (beats_for id' worker) (beat_row now) rs)
      ≤ count (still_pending id) rs
beat-waiting id id' worker now rs =
    count-update-le (still_pending id) (beats_for id' worker) (beat_row now)
      (λ x h. unfold still_pending beat_row in ground arith) rs

complete-waiting :
    (id id' output policy : String) (now : ℕ) (rs : List TaskRow)
    → count (still_pending id) (update (has_id id') (complete_row output policy now) rs)
      ≤ count (still_pending id) rs
complete-waiting id id' output policy now rs =
    count-update-le (still_pending id) (has_id id') (complete_row output policy now)
      (λ x h. unfold still_pending complete_row in ground arith) rs

bury-waiting :
    (id id' reason : String) (now : ℕ) (rs : List TaskRow)
    → count (still_pending id) (update (has_id id') (bury_row reason now) rs)
      ≤ count (still_pending id) rs
bury-waiting id id' reason now rs =
    count-update-le (still_pending id) (has_id id') (bury_row reason now)
      (λ x h. unfold still_pending bury_row in ground arith) rs

fail-waiting :
    (id id' reason : String) (now : ℕ) (rs : List TaskRow)
    → count (still_pending id) (update (has_id id') (fail_row reason now) rs)
      ≤ count (still_pending id) rs
fail-waiting id id' reason now rs =
    count-update-le (still_pending id) (has_id id') (fail_row reason now)
      (λ x h. unfold still_pending fail_row in ground arith) rs

dead_letter-waiting :
    (id id' reason : String) (now : ℕ) (db : Tables)
    → waiting id (dead_letter_task id' reason now db).1 ≤ waiting id db
dead_letter-waiting id id' reason now db = elim (dead_letter_task-cases id' reason now db) [
  | inl (_, e) ↦ rw e (omega arith)
  | inr (r, _, inl (_, e)) ↦ rw e (omega arith)
  | inr (r, _, inr (_, e)) ↦ rw e (bury-waiting id id' reason now db.tasks)
]

-- What a step claims leaves the rows that wait.
step-waiting :
    (id : String) (s : WorkerStep) (db : Tables)
    → wins id s db + waiting id (worker_step s db) ≤ waiting id db
unfolding wins worker_step
step-waiting id (claims agent id' now) db = elim (Bool-cases (id' == id)) [
  | inl t ↦ rw ((eq_iff id' id).0 t) (
      unfold claim_update in ground (arith, eq_iff id id, claim-waiting_self id agent now db.tasks))
  | inr f ↦ rw f (unfold claim_update in omega (arith, claim-waiting id agent id' now db.tasks))
]
step-waiting id (beats id' worker now) db =
    unfold heartbeat in omega (arith, beat-waiting id id' worker now db.tasks)
step-waiting id (completes id' output policy now) db =
    unfold complete_task in omega (arith, complete-waiting id id' output policy now db.tasks)
step-waiting id (fails id' reason now) db = elim (Bool-cases (exhausted (find_task id' db))) [
  | inl t ↦
      rw (fail_task-exhausted id' reason now db t, worker_step)
        (omega (arith, dead_letter-waiting id id' reason now db))
  | inr f ↦
      rw (fail_task_open id' reason now db f, worker_step)
        (omega (arith, fail-waiting id id' reason now db.tasks))
]

total-waiting :
    (id : String) (ss : List WorkerStep) (db : Tables) → total_wins id ss db ≤ waiting id db
unfolding total_wins
total-waiting id [] db = omega arith
total-waiting id (s ∷ ss) db =
    omega (arith, step-waiting id s db, total-waiting id ss (worker_step s db))

count-none :
    (id : String) (rs : List TaskRow)
    → All (λ s. has_id id s ≡ false) rs
    → count (still_pending id) rs ≡ 0
unfolding still_pending
count-none id [] h = refl
count-none id (r ∷ rs) h = ground (arith, h.0, count-none id rs h.1)

count_first :
    (id : String) (r : TaskRow) (rs : List TaskRow)
    → HasUniqueIds (r ∷ rs)
    → count (still_pending id) rs ≤ 1
    → count (still_pending id) (r ∷ rs) ≤ 1
unfolding still_pending
count_first id r rs u ih = elim (Bool-cases (has_id id r)) [
  | inl t ↦
      let rest : count (still_pending id) rs ≡ 0 =
        count-none id rs
          (subst (λ i. All (λ s. has_id i s ≡ false) rs) ((eq_iff r.task_id id).0 t) u.0) in
      ground arith
  | inr f ↦ ground arith
]

waiting-le-one :
    (id : String) (rs : List TaskRow) → HasUniqueIds rs → count (still_pending id) rs ≤ 1
waiting-le-one id [] u = omega arith
waiting-le-one id (r ∷ rs) u = count_first id r rs u (waiting-le-one id rs u.1)

-- However the statements of the workers interleave, and whichever candidates they scanned before, one
-- claim of a task wins at most, as long as the task is not requeued. The ids must be unique.
pub total_wins-le-one :
    (id : String) (ss : List WorkerStep) (db : Tables)
    → HasUniqueIds db.tasks
    → total_wins id ss db ≤ 1
total_wins-le-one id ss db u = omega (arith, total-waiting id ss db, waiting-le-one id db.tasks u)
