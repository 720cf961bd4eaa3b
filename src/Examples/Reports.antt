-- ===== src/Examples/Reports.antt =====
-- A task that a worker holds is reported.
use agent_control_plane.Prelude.{◌≡◌, refl, true, some}
use agent_control_plane.Sql.{ok}
use agent_control_plane.Json.{null, obj, end}
use agent_control_plane.Tasks.{find_task, is_expired}
use agent_control_plane.Tasks.Requeue.{requeue_row, requeue_expired_with_dead_letter}
use agent_control_plane.Api.{Call}
use agent_control_plane.Api.Tasks.{Bridge, post_complete, post_fail}
use agent_control_plane.Api.Tasks.Lost.{reported-requeue_row}
use agent_control_plane.Examples.{plain, queue}
use agent_control_plane.Examples.Queue.{unique, held, held_found}
use agent_control_plane.Examples.Handlers.{ann}

abbrev gateway : Bridge
gateway = record {
  run_artifact = λ state actor text.
      ok (record { is_ok = true; state_hash = "h1"; policy_ok = true; violations = null; seq = 1 });
}

abbrev done : Call
done = record { method = "POST"; body = some (obj end); text = "{}" }

held_expired : is_expired 50 held ≡ true
unfolding is_expired
held_expired = refl

reported-requeue_row_example :
    (find_task "t2"
        (requeue_expired_with_dead_letter 50 (post_complete plain gateway ann "t2" done queue).1).1
      ≡ some (requeue_row 50 held))
    × (find_task "t2" (requeue_expired_with_dead_letter 50 (post_fail "t2" done queue).1).1
        ≡ some (requeue_row 50 held))
reported-requeue_row_example =
    reported-requeue_row plain gateway ann "t2" done 50 queue held unique held_found held_expired
      refl
