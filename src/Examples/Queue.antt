-- ===== src/Examples/Queue.antt =====
-- The queue's operations on three tasks.
use agent_control_plane.Prelude.{
  ℕ, ◌≤◌, String, ◌≡◌, refl, true, false, Option, none, some, List, [], ◌∷◌, All, Memᴰ, map, count,
  any, ◌⊎◌, arith, update, ◌&&◌, ◌==◌,
}
use agent_control_plane.Sql.{ok, transact}
use agent_control_plane.Schema.{TaskRow, TaskStatus, pending, claimed}
use agent_control_plane.Tasks.{scan_task, has_id, find_task, get_task, is_expired}
use agent_control_plane.Tasks.Ids.{HasUniqueIds}
use agent_control_plane.Tasks.Claim.{
  claimable, before, claim_row, claim_next, candidate, claim_candidate, claim_update, still_pending,
  beats_for, beat_row, heartbeat,
}
use agent_control_plane.Tasks.Claim.Effect.{claim_next-takes_best}
use agent_control_plane.Tasks.Claim.Race
use agent_control_plane.Tasks.Claim.Race.{total_wins, total_wins-le-one}
use agent_control_plane.Tasks.Claim.Beat.{heartbeat_protects}
use agent_control_plane.Tasks.Requeue.{requeue_expired_with_dead_letter}
use agent_control_plane.Tasks.Requeue.Settle.{is_spent, settle_row, left}
use agent_control_plane.Tasks.Requeue.Effect.{requeue_expired-map, requeue_expired_complete}
use agent_control_plane.Api.Workers.{claim_next_task, heartbeat_task, heartbeat_task_ignored}
use agent_control_plane.Tasks.Invariant
use agent_control_plane.Tasks.Invariant.{queue_steps, IsRowSound, IsSound}
use agent_control_plane.Tasks.Invariant.Sweep.{queue_steps-IsSound}
use agent_control_plane.Tasks.Life.{Moves, view}
use agent_control_plane.Tasks.Life.Refines.{queue_steps-Moves}
use agent_control_plane.Tasks.Life.Facts.{Follows, queue_steps-Follows}
use agent_control_plane.Examples.{task_row, queue}

pub unique : HasUniqueIds queue.tasks
unique = ((refl, (refl, tt)), ((refl, tt), (tt, tt)))

claim_next-takes_best_example :
    ((claim_next "a" 20 queue ≡ (ok none, queue)) × All (λ s. claimable "a" s ≡ false) queue.tasks)
    ⊎ ((r : TaskRow) × Memᴰ r queue.tasks
        × (claimable "a" r ≡ true)
        × All (λ s. claimable "a" s ≡ true → before s r ≡ false) queue.tasks
        × (claim_next "a" 20 queue ≡ (
          ok (some (scan_task (claim_row "a" 20 r))),
          record queue { tasks = update (has_id r.task_id) (claim_row "a" 20) queue.tasks },
        )))
claim_next-takes_best_example = claim_next-takes_best "a" 20 queue unique

abbrev race : List Race.WorkerStep
race =
    Race.WorkerStep.claims "a" "t1" 20
    ∷ Race.WorkerStep.fails "t1" "crash" 21
    ∷ Race.WorkerStep.claims "b" "t1" 22
    ∷ []

total_wins-le-one_example : total_wins "t1" race queue ≤ 1
total_wins-le-one_example = total_wins-le-one "t1" race queue unique

sound :
    (id : String) (status : TaskStatus) (owner : Option String) (attempts : ℕ)
    → attempts ≤ 3
    → IsRowSound (task_row id status owner attempts)
sound id status owner attempts h = record { attempts = h; alive = λ l. refl }

queue-IsSound : IsSound queue
queue-IsSound = record {
  unique = unique;
  rows = (
    sound "t1" pending none 0 (omega arith),
    (
      sound "t2" claimed (some "bob") 1 (omega arith),
      (sound "t3" claimed (some "eve") 3 (omega arith), tt),
    ),
  );
  letters = ((λ h. absurd (cc h)), ((λ h. absurd (cc h)), ((λ h. absurd (cc h)), tt)));
}

abbrev history : List Invariant.QueueStep
history =
    Invariant.QueueStep.claims "a" 20
    ∷ Invariant.QueueStep.sweeps 50
    ∷ Invariant.QueueStep.fails "t2" "crash" 51
    ∷ []

queue_steps-IsSound_example : IsSound (queue_steps history queue)
queue_steps-IsSound_example = queue_steps-IsSound history queue queue-IsSound

requeue_expired-map_example :
    let (result, db') = requeue_expired_with_dead_letter 50 queue in
    (db'.tasks ≡ map (settle_row 50) queue.tasks)
    × (result
        ≡ ok (
          count (λ r. is_expired 50 r && left r) queue.tasks,
          count (λ r. is_expired 50 r && is_spent r) queue.tasks,
        ))
requeue_expired-map_example = requeue_expired-map 50 queue unique

requeue_expired_complete_example :
    let db' = (requeue_expired_with_dead_letter 50 queue).1 in
    All (λ r. is_expired 50 r ≡ false) db'.tasks
    × All
        (λ r.
          is_expired 50 r ≡ true
          → is_spent r ≡ true
          → any (λ d. d.task_id == r.task_id) db'.dead_letters ≡ true)
        queue.tasks
requeue_expired_complete_example = requeue_expired_complete 50 queue unique

queue_steps-Moves_example : Moves (view queue "t1") (view (queue_steps history queue) "t1")
queue_steps-Moves_example = queue_steps-Moves history queue "t1" queue-IsSound

queue_steps-Follows_example : Follows (view queue "t1") (view (queue_steps history queue) "t1")
queue_steps-Follows_example = queue_steps-Follows history queue "t1" queue-IsSound

abbrev pub held : TaskRow
held = task_row "t2" claimed (some "bob") 1

pub held_found : find_task "t2" queue ≡ some held
unfolding find_task
held_found = refl

held_beats : beats_for "t2" "bob" held ≡ true
unfolding beats_for
held_beats = refl

heartbeat_protects_example :
    find_task "t2" (requeue_expired_with_dead_letter 50 (heartbeat "t2" "bob" 30 queue).1).1
    ≡ some (beat_row 30 held)
heartbeat_protects_example =
    heartbeat_protects "t2" "bob" 30 50 queue held unique held_found held_beats (omega arith)

-- What the handler hands out of the three tasks.
abbrev handed : TaskRow
handed = claim_row "a" 20 (task_row "t1" pending none 0)

handed_out : (claim_next_task "a" 20 queue).0.task ≡ some (scan_task handed)
unfolding claim_next_task claim_next candidate claim_candidate claim_update claimable still_pending
    transact find_task get_task
handed_out = refl

heartbeat_task_ignored_example :
    let db' = (claim_next_task "a" 20 queue).1 in
    ((heartbeat_task "POST" "bob" (scan_task handed).task_id 30 db').0.code ≡ 200)
    × ((heartbeat_task "POST" "bob" (scan_task handed).task_id 30 db').1 ≡ db')
heartbeat_task_ignored_example =
    heartbeat_task_ignored "a" "bob" 20 30 queue (scan_task handed) unique handed_out (λ e. cc e)
