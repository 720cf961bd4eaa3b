-- ===== src/Api/Tasks/Lost.antt =====
-- What becomes of a task that is reported complete or failed to acpd/internal/api/tasks.go.
use agent_control_plane.Prelude.{ℕ, String, ◌≡◌, ap, ◌∙◌, true, some, find-map, arith}
use agent_control_plane.Json.{Codec}
use agent_control_plane.Schema.{TaskRow, Tables}
use agent_control_plane.Tasks.{has_id, find_task, is_expired}
use agent_control_plane.Tasks.Ids.{HasUniqueIds}
use agent_control_plane.Tasks.Claim.Beat.{has_id-settle_row}
use agent_control_plane.Tasks.Requeue.{requeue_row, requeue_expired_with_dead_letter}
use agent_control_plane.Tasks.Requeue.Settle.{left, settle_row}
use agent_control_plane.Tasks.Requeue.Effect.{requeue_expired-map}
use agent_control_plane.Actors.{Actor}
use agent_control_plane.Api.{Call}
use agent_control_plane.Api.Tasks.{Bridge, post_complete, post_fail}

requeued :
    (now : ℕ) (r : TaskRow)
    → is_expired now r ≡ true
    → left r ≡ true
    → settle_row now r ≡ requeue_row now r
unfolding settle_row
requeued now r e l = ground arith

-- A claimed task that a worker reports complete or failed, whatever the reply, is back in the queue after the
-- first sweep after its timeout, where it has an attempt left: neither handler tells the store. The ids must be
-- unique.
pub reported-requeue_row :
    (c : Codec) (br : Bridge) (actor : Actor) (id : String) (call : Call) (later : ℕ) (db : Tables)
    (r : TaskRow)
    → HasUniqueIds db.tasks
    → find_task id db ≡ some r
    → is_expired later r ≡ true
    → left r ≡ true
    → (find_task id
          (requeue_expired_with_dead_letter later (post_complete c br actor id call db).1).1
        ≡ some (requeue_row later r))
      × (find_task id (requeue_expired_with_dead_letter later (post_fail id call db).1).1
          ≡ some (requeue_row later r))
unfolding post_complete post_fail find_task
reported-requeue_row c br actor id call later db r u f e l =
    let back : find_task id (requeue_expired_with_dead_letter later db).1
        ≡ some (requeue_row later r) =
      unfold find_task in
      rw (requeue_expired-map later db u).0 (
        find-map (has_id id) (settle_row later) (has_id-settle_row id later) db.tasks r f
        ∙ ap some (requeued later r e l)) in
    (back, back)
