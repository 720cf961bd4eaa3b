-- ===== src/Tasks/Invariant.antt =====
-- What holds of the queue between two statements, whichever worker or server loop made them.
pub mod Steps
pub mod Sweep
use agent_control_plane.Prelude.{ℕ, ◌≤◌, String, ◌≡◌, refl, Bool, true, false, List, [], ◌∷◌, All}
use agent_control_plane.Schema.{TaskStatus, pending, claimed, TaskRow, Tables}
use agent_control_plane.Tasks.{Task}
use agent_control_plane.Tasks.Ids.{HasUniqueIds}
use agent_control_plane.Tasks.Claim.{enqueue_task, claim_next, heartbeat}
use agent_control_plane.Tasks.Finish.{complete_task, fail_task}
use agent_control_plane.Tasks.Requeue.{requeue_expired, requeue_expired_with_dead_letter}
use agent_control_plane.Tasks.Requeue.Letters.{has_letter}

-- One operation on the queue.
pub data QueueStep : Type 0 where
  enqueues : Task → ℕ → QueueStep
  claims : String → ℕ → QueueStep
  beats : String → String → ℕ → QueueStep
  completes : String → String → String → ℕ → QueueStep
  fails : String → String → ℕ → QueueStep
  requeues sweeps : ℕ → QueueStep

unfoldable pub queue_step : QueueStep → Tables → Tables
queue_step (enqueues t now) db = (enqueue_task now t db).1
queue_step (claims agent now) db = (claim_next agent now db).1
queue_step (beats id worker now) db = (heartbeat id worker now db).1
queue_step (completes id output policy now) db = (complete_task id output policy now db).1
queue_step (fails id reason now) db = (fail_task id reason now db).1
queue_step (requeues now) db = (requeue_expired now db).1
queue_step (sweeps now) db = (requeue_expired_with_dead_letter now db).1

unfoldable pub queue_steps : List QueueStep → Tables → Tables
queue_steps [] db = db
queue_steps (s ∷ ss) db = queue_steps ss (queue_step s db)

-- A task that is waiting or worked on.
abbrev pub is_live : TaskStatus → Bool
is_live pending = true
is_live claimed = true
is_live _ = false

-- No task is tried more often than allowed, and none that is buried is live.
pub record IsRowSound (r : TaskRow) : Type 0 where
  pub attempts : r.attempt_count ≤ r.max_attempts
  pub alive : is_live r.status ≡ true → r.dead_lettered ≡ false

pub record IsSound (db : Tables) : Type 0 where
  pub unique : HasUniqueIds db.tasks
  pub rows : All IsRowSound db.tasks
  pub letters :
      All (λ r. r.dead_lettered ≡ true → has_letter r.task_id db.dead_letters ≡ true) db.tasks
