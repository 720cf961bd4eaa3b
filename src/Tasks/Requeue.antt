-- ===== src/Tasks/Requeue.antt =====
-- acpd/internal/store/tasks.go: RequeueExpiredTasks and RequeueExpiredTasksWithDeadLetter, and
-- acpd/internal/queue/queue.go, whose loop calls the second at every tick. The statements are those of SQLite,
-- which has datetime() and INSERT OR IGNORE; Postgres refuses them. A sweep is one step: in the
-- source other statements may run between its query and those for the tasks that it found.
pub mod Settle
pub mod Letters
pub mod Effect
use agent_control_plane.Prelude.{
  ℕ, suc, String, Bool, none, any, ◌==◌, List, [], ◌∷◌, ◌++◌, ltb, leb, select, count, update, ◌&&◌,
  if◌then◌else◌,
}
use agent_control_plane.Sql.{Stmt, pure, gets, write, transact, ◌>>=◌, ◌>>◌}
use agent_control_plane.Schema.{pending, TaskRow, DeadLetter, Tables}
use agent_control_plane.Tasks.{is_claimed, has_id, is_expired}
use agent_control_plane.Tasks.Finish.{dead_letter_of, bury_row}

unfoldable pub requeue_row : ℕ → TaskRow → TaskRow
requeue_row now r = record r {
  status = pending;
  claimed_by = none;
  claimed_at = none;
  last_heartbeat = none;
  updated_at = now;
}

unfoldable pub retryable : ℕ → TaskRow → Bool
unfolding is_expired
retryable now r = is_expired now r && ltb r.attempt_count r.max_attempts

-- RequeueExpiredTasks: one UPDATE, and the number of rows that it affected.
unfoldable pub requeue_expired : ℕ → Stmt Tables ℕ
unfolding retryable requeue_row
requeue_expired now = do
  n ← gets (λ db. count (retryable now) db.tasks)
  write (λ db. record db { tasks = update (retryable now) (requeue_row now) db.tasks })
  pure n

abbrev pub max_attempts_exceeded : String
max_attempts_exceeded = "max_attempts_exceeded"

-- INSERT OR IGNORE INTO dead_letter_tasks
unfoldable pub insert_or_ignore : DeadLetter → List DeadLetter → List DeadLetter
insert_or_ignore d ds = if any (λ e. e.task_id == d.task_id) ds then ds else ds ++ d ∷ []

-- The dead letter and the UPDATE of the task, in a transaction.
unfoldable pub bury_expired : ℕ → TaskRow → Stmt Tables (Unit {0})
unfolding dead_letter_of bury_row insert_or_ignore
bury_expired now t = transact (do
  write (λ db. record db {
    dead_letters = insert_or_ignore (dead_letter_of max_attempts_exceeded now t) db.dead_letters;
  })
  write (λ db. record db {
    tasks = update (has_id t.task_id) (bury_row max_attempts_exceeded now) db.tasks;
  }))

-- UPDATE tasks SET status='pending' … WHERE task_id=? AND status='claimed'
unfoldable pub requeues : TaskRow → TaskRow → Bool
requeues t r = has_id t.task_id r && is_claimed r.status

unfoldable pub requeue_one : ℕ → TaskRow → Stmt Tables (Unit {0})
unfolding requeues requeue_row
requeue_one now t =
    write (λ db. record db { tasks = update (requeues t) (requeue_row now) db.tasks })

-- The loop over the expired tasks, with its two counters.
unfoldable pub settle_loop : ℕ → ℕ → ℕ → List TaskRow → Stmt Tables (ℕ × ℕ)
unfolding bury_expired requeue_one
settle_loop now requeued buried [] = pure (requeued, buried)
settle_loop now requeued buried (t ∷ ts) =
    let bury = (do bury_expired now t; settle_loop now requeued (suc buried) ts) in
    let requeue = (do requeue_one now t; settle_loop now (suc requeued) buried ts) in
    if leb t.max_attempts t.attempt_count then bury else requeue

unfoldable pub requeue_expired_with_dead_letter : ℕ → Stmt Tables (ℕ × ℕ)
unfolding settle_loop is_expired
requeue_expired_with_dead_letter now = do
  expired ← gets (λ db. select (is_expired now) db.tasks)
  settle_loop now 0 0 expired

-- RequeueLoop: one call at each tick of the timer, at the times that the list gives.
unfoldable pub requeue_loop : List ℕ → Stmt Tables (Unit {0})
unfolding requeue_expired_with_dead_letter
requeue_loop [] = pure tt
requeue_loop (now ∷ ticks) = do requeue_expired_with_dead_letter now; requeue_loop ticks
