-- ===== src/Tasks/Claim/Beat.antt =====
-- What HeartbeatTask of acpd/internal/store/tasks.go does for its worker, and that it does nothing else.
use agent_control_plane.Prelude.{
  ℕ, ◌+◌, ◌<◌, String, ◌≡◌, refl, ap, ◌∙◌, true, false, some, All, find-update, find-map,
  update_none, arith,
}
use agent_control_plane.Schema.{TaskRow, Tables}
use agent_control_plane.Tasks.{has_id, find_task, is_expired}
use agent_control_plane.Tasks.Ids.{HasUniqueIds, update-HasUniqueIds}
use agent_control_plane.Tasks.Claim.{beats_for, beat_row, heartbeat}
use agent_control_plane.Tasks.Finish.{bury_row}
use agent_control_plane.Tasks.Requeue.{requeue_row, requeue_expired_with_dead_letter}
use agent_control_plane.Tasks.Requeue.Settle.{settle_row}
use agent_control_plane.Tasks.Requeue.Effect.{requeue_expired-map}

find-heartbeat :
    (id worker : String) (now : ℕ) (db : Tables) (r : TaskRow)
    → find_task id db ≡ some r
    → beats_for id worker r ≡ true
    → find_task id (heartbeat id worker now db).1 ≡ some (beat_row now r)
unfolding find_task heartbeat
find-heartbeat id worker now db r f b =
    find-update (has_id id) (beats_for id worker) (beat_row now) (λ x. unfold beat_row in refl)
      db.tasks
    ∙ rw (f, b)

settled_alive :
    (now later : ℕ) (r : TaskRow)
    → later < now + r.timeout_sec
    → settle_row later (beat_row now r) ≡ beat_row now r
unfolding settle_row is_expired beat_row
settled_alive now later r h = ground arith

pub has_id-settle_row :
    (id : String) (now : ℕ) (r : TaskRow) → has_id id (settle_row now r) ≡ has_id id r
unfolding settle_row bury_row requeue_row
has_id-settle_row id now r = ground arith

-- The heartbeat of the worker that holds a task keeps the task from every sweep made before the task's
-- timeout has passed since: the sweep finds it claimed by the same worker, with the heartbeat's time.
-- The ids must be unique.
pub heartbeat_protects :
    (id worker : String) (now later : ℕ) (db : Tables) (r : TaskRow)
    → HasUniqueIds db.tasks
    → find_task id db ≡ some r
    → beats_for id worker r ≡ true
    → later < now + r.timeout_sec
    → find_task id (requeue_expired_with_dead_letter later (heartbeat id worker now db).1).1
      ≡ some (beat_row now r)
heartbeat_protects id worker now later db r u f b h =
    let beat = (heartbeat id worker now db).1 in
    let unique : HasUniqueIds beat.tasks =
      unfold heartbeat in
      update-HasUniqueIds (beats_for id worker) (beat_row now) (λ x. unfold beat_row in refl)
        db.tasks u in
    let found : find_task id beat ≡ some (beat_row now r) = find-heartbeat id worker now db r f b in
    unfold find_task in
    rw (requeue_expired-map later beat unique).0 (
      find-map (has_id id) (settle_row later) (has_id-settle_row id later) beat.tasks
        (beat_row now r) (unfold find_task in found)
      ∙ ap some (settled_alive now later r h))

-- A worker that holds no task of that id changes nothing.
pub heartbeat_stranger :
    (id worker : String) (now : ℕ) (db : Tables)
    → All (λ r. beats_for id worker r ≡ false) db.tasks
    → (heartbeat id worker now db).1 ≡ db
unfolding heartbeat
heartbeat_stranger id worker now db h =
    ap (λ ts. record db { tasks = ts })
      (update_none (beats_for id worker) (beat_row now) db.tasks h)
