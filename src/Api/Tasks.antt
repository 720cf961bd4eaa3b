-- ===== src/Api/Tasks.antt =====
-- acpd/internal/api/tasks.go and api.go: the handlers on tasks that change nothing, completeTask and failTask
-- among them, and getInbox of gates.go. The text of an error of the bridge is left out.
pub mod Lost
use Prim.Native.String.{len}
use agent_control_plane.Prelude.{
  ℕ, String, Bool, true, Option, none, some, List, pos, ◌==◌, if◌then◌else◌,
}
use agent_control_plane.Sql.{Result, ok, err}
use agent_control_plane.Json.{Json, bool, int, str, obj, end, member, Codec}
use agent_control_plane.Schema.{WorkflowSnapshot, TaskStatus, DeadLetter, Gate, Tables}
use agent_control_plane.Workflows.{get_latest_snapshot}
use agent_control_plane.Gates.{list_pending_gates}
use agent_control_plane.Tasks.{Task, is_claimed, get_task}
use agent_control_plane.Tasks.Listing.{list_tasks, list_dead_letter_tasks}
use agent_control_plane.Actors.{Actor}
use agent_control_plane.Api.{Call, Reply, error_reply}
use agent_control_plane.Api.Views.{Answer, shown, failed}

-- What commit_artifact.fard returns, as completeTask reads it.
pub record Completion : Type 0 where
  pub is_ok : Bool
  pub state_hash : String
  pub policy_ok : Bool
  pub violations : Json
  pub seq : ℕ

-- Bridge.RunAndUnmarshal on commit_artifact.fard.
pub record Bridge : Type 0 where
  pub run_artifact : String → Actor → String → Result Completion

unfoldable pub completion_reply : Codec → Json → Completion → Reply
completion_reply c output b = record {
  code = 200;
  body = member "ok" (bool b.is_ok) (
      member "policy_ok" (bool b.policy_ok) (
        member "state_hash" (str b.state_hash) (
          member "seq" (int (pos b.seq)) (
            member "violations" b.violations (
              member "output_size" (int (pos (len (c.marshal output)))) (
                member "policy_size"
                  (int (
                    pos (
                      len (
                        c.marshal (
                          obj (
                            member "ok" (bool b.policy_ok)
                              (member "violations" b.violations end)))))))
                  end))))));
}

module _ (c : Codec) (br : Bridge) (actor : Actor) (task_id : String) where
  abbrev pub complete_answered : Json → Result Completion → Reply
  complete_answered output (err e) = error_reply 500 "bridge"
  complete_answered output (ok b) = completion_reply c output b

  abbrev pub complete_from : Call → Json → Option WorkflowSnapshot → Reply
  complete_from call output none = error_reply 500 "workflow state not found"
  complete_from call output (some snap) =
      complete_answered output (br.run_artifact snap.state_json actor call.text)

  abbrev pub complete_found : Call → Json → Option Task → Tables → Reply
  complete_found call output none db = error_reply 404 "task not found"
  complete_found call output (some t) db =
      if is_claimed t.status
      then complete_from call output (get_latest_snapshot t.workflow_id db)
      else error_reply 409 "task not in claimed state"

  abbrev pub complete_decoded : Call → Option Json → Tables → Reply
  complete_decoded call none db = error_reply 400 "invalid body"
  complete_decoded call (some output) db = complete_found call output (get_task task_id db) db

  -- The handler reads the store and writes nothing to it.
  unfoldable pub post_complete : Call → Tables → Reply × Tables
  unfolding completion_reply error_reply
  post_complete call db = (
    (if call.method == "POST"
        then complete_decoded call call.body db
        else error_reply 405 "method not allowed"),
    db,
  )

-- The handler makes no call of the store.
unfoldable pub post_fail : String → Call → Tables → Reply × Tables
unfolding error_reply
post_fail task_id call db = (
  (if call.method == "POST"
      then record {
        code = 200;
        body =
            member "ok" (bool true)
              (member "task_id" (str task_id) (member "status" (str "failed") end));
      }
      else error_reply 405 "method not allowed"),
  db,
)

abbrev pub task_answer : Option Task → Answer Task
task_answer none = failed 404
task_answer (some t) = shown t

unfoldable pub show_task : String → Tables → Answer Task
show_task task_id db = task_answer (get_task task_id db)

unfoldable pub show_workflow_tasks : (workflow_id status : String) → Tables → Answer (List Task)
show_workflow_tasks workflow_id status db = shown (list_tasks workflow_id status db)

unfoldable pub show_dead_letters : (method workflow_id : String) → Tables → Answer (List DeadLetter)
show_dead_letters method workflow_id db =
    if method == "GET" then shown (list_dead_letter_tasks workflow_id db) else failed 405

unfoldable pub show_inbox : String → Tables → Answer (List Gate × List Task)
show_inbox method db =
    if method == "GET"
    then shown (list_pending_gates db, list_tasks "" "pending" db)
    else failed 405
