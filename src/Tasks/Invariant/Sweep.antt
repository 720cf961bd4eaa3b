-- ===== src/Tasks/Invariant/Sweep.antt =====
-- The sweep of expired tasks keeps the invariant, and so does every history of the queue.
use agent_control_plane.Prelude.{
  ℕ, ◌≡◌, refl, ap, true, false, ◌&&◌, List, [], ◌∷◌, map, Memᴰ, All-of, All-at, All-over-map,
  update, select, arith, Bool-cases, inl, inr,
}
use agent_control_plane.Schema.{TaskRow, Tables}
use agent_control_plane.Tasks.{is_expired}
use agent_control_plane.Tasks.Ids.{update-HasUniqueIds}
use agent_control_plane.Tasks.Finish.{bury_row}
use agent_control_plane.Tasks.Requeue.{requeue_row, requeue_expired_with_dead_letter}
use agent_control_plane.Tasks.Requeue.Settle.{is_spent, settle_row}
use agent_control_plane.Tasks.Requeue.Letters.{has_letter, letters_keep}
use agent_control_plane.Tasks.Requeue.Effect.{
  settle_row-task_id, requeue_expired-map, requeue_expired_complete, requeue_expired-letters,
}
use agent_control_plane.Tasks.Invariant.{
  QueueStep, enqueues, claims, beats, completes, fails, requeues, sweeps, queue_step, queue_steps,
  IsRowSound, IsSound,
}
use agent_control_plane.Tasks.Invariant.Steps.{
  enqueue-IsSound, claim-IsSound, heartbeat-IsSound, complete-IsSound, fail-IsSound,
  requeue-IsSound,
}

pub update_all : (f : TaskRow → TaskRow) (rs : List TaskRow) → update (λ _. true) f rs ≡ map f rs
update_all f [] = refl
update_all f (r ∷ rs) = ap (λ l. f r ∷ l) (update_all f rs)

settle-IsRowSound : (now : ℕ) (r : TaskRow) → IsRowSound r → IsRowSound (settle_row now r)
unfolding settle_row bury_row requeue_row is_expired
settle-IsRowSound now r k = ground (arith, k.attempts, k.alive)

-- A row that a sweep leaves marked was marked before, or is one that it buried.
settle_mark :
    (now : ℕ) (r : TaskRow)
    → (settle_row now r).dead_lettered ≡ true
    → is_expired now r && is_spent r ≡ false
    → r.dead_lettered ≡ true
unfolding settle_row bury_row requeue_row
settle_mark now r d e = ground arith

module _ (db : Tables) (h : IsSound db) (now : ℕ) where
  abbrev swept : Tables
  swept = (requeue_expired_with_dead_letter now db).1

  kept_letter :
      (r : TaskRow)
      → Memᴰ r db.tasks
      → r.dead_lettered ≡ true
      → has_letter r.task_id swept.dead_letters ≡ true
  kept_letter r m d = rw (requeue_expired-letters now db) (
      letters_keep now r.task_id (select (is_expired now) db.tasks) db.dead_letters (
        All-at (λ r. r.dead_lettered ≡ true → has_letter r.task_id db.dead_letters ≡ true) db.tasks
          h.letters m d))

  buried_letter :
      (r : TaskRow)
      → Memᴰ r db.tasks
      → is_expired now r && is_spent r ≡ true
      → has_letter r.task_id swept.dead_letters ≡ true
  buried_letter r m e =
      All-at
        (λ r.
          is_expired now r ≡ true
          → is_spent r ≡ true
          → has_letter r.task_id swept.dead_letters ≡ true)
        db.tasks (requeue_expired_complete now db h.unique).1 m (ground arith) (ground arith)

  swept_letter :
      (r : TaskRow)
      → Memᴰ r db.tasks
      → (settle_row now r).dead_lettered ≡ true
      → has_letter (settle_row now r).task_id swept.dead_letters ≡ true
  swept_letter r m d = elim (Bool-cases (is_expired now r && is_spent r)) [
    | inl y ↦ rw (settle_row-task_id now r) (buried_letter r m y)
    | inr n ↦ rw (settle_row-task_id now r) (kept_letter r m (settle_mark now r d n))
  ]

  sweep-IsSound : IsSound swept
  sweep-IsSound =
      let tasks = (requeue_expired-map now db h.unique).0 in
      record {
        unique =
            rw (tasks, ← update_all (settle_row now) db.tasks)
              (update-HasUniqueIds (λ _. true) (settle_row now) (settle_row-task_id now) db.tasks
                h.unique);
        rows = rw tasks (
            All-over-map IsRowSound (settle_row now) db.tasks (
              All-of _ db.tasks
                (λ r m. settle-IsRowSound now r (All-at IsRowSound db.tasks h.rows m))));
        letters = rw tasks (
            All-over-map
              (λ r. r.dead_lettered ≡ true → has_letter r.task_id swept.dead_letters ≡ true)
              (settle_row now) db.tasks (All-of _ db.tasks swept_letter));
      }

-- Every operation on the queue keeps the ids unique, the attempts within their bound, the buried tasks
-- out of the queue, and a dead letter for each of them.
pub queue_step-IsSound : (s : QueueStep) (db : Tables) → IsSound db → IsSound (queue_step s db)
unfolding queue_step
queue_step-IsSound (enqueues t now) db h = enqueue-IsSound db h now t
queue_step-IsSound (claims agent now) db h = claim-IsSound db h agent now
queue_step-IsSound (beats id worker now) db h = heartbeat-IsSound db h id worker now
queue_step-IsSound (completes id output policy now) db h =
    complete-IsSound db h id output policy now
queue_step-IsSound (fails id reason now) db h = fail-IsSound db h id reason now
queue_step-IsSound (requeues now) db h = requeue-IsSound db h now
queue_step-IsSound (sweeps now) db h = sweep-IsSound db h now

-- From a sound state on, every history of enqueues, claims, heartbeats, completions, failures and sweeps
-- ends in a sound state: ids are unique, no task is tried more often than allowed, no buried task is live,
-- and every buried task has a dead letter.
pub queue_steps-IsSound :
    (ss : List QueueStep) (db : Tables) → IsSound db → IsSound (queue_steps ss db)
unfolding queue_steps
queue_steps-IsSound [] db h = h
queue_steps-IsSound (s ∷ ss) db h =
    queue_steps-IsSound ss (queue_step s db) (queue_step-IsSound s db h)
