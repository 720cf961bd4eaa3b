-- ===== src/Tasks.antt =====
-- acpd/internal/store/tasks.go: the task queue. This file has the type Task, the reading of a row, and
-- the tests that the statements share; the statements and the theorems are in the modules below.
pub mod Ids
pub mod Claim
pub mod Finish
pub mod Requeue
pub mod Invariant
pub mod Life
pub mod Listing
use agent_control_plane.Prelude.{
  ℕ, ℤ, ◌+◌, String, Bool, true, false, Option, none, some, leb, find, ◌&&◌, not, ◌==◌,
}
use agent_control_plane.Schema.{
  TaskStatus, pending, claimed, completed, failed, cancelled, TaskRow, Tables,
}

-- Go's Task: columns that may be NULL are read as "" and the times as pointers.
pub record Task : Type 0 where
  pub task_id : String
  pub workflow_id : String
  pub node_id : String
  pub agent : String
  pub status : TaskStatus
  pub priority : ℤ
  pub priority_lane : String
  pub input_json : String
  pub output_json : String
  pub policy_result_json : String
  pub claimed_by : String
  pub claimed_at : Option ℕ
  pub last_heartbeat : Option ℕ
  pub timeout_sec : ℕ
  pub attempt_count : ℕ
  pub max_attempts : ℕ
  pub dead_lettered : Bool
  pub completed_at : Option ℕ
  pub failed_reason : String
  pub created_at : ℕ
  pub updated_at : ℕ

-- sql.NullString: its String is "" for NULL
abbrev pub null_string : Option String → String
null_string none = ""
null_string (some s) = s

-- The layouts that the store writes and parses times by. time.Parse with one layout refuses a text of
-- another, and the scans drop its error and keep the zero time that it returns.
pub data Layout : Type 0 where
  sql_datetime rfc3339_nano : Layout

abbrev pub zero_time : ℕ
zero_time = 0

-- A stored time was formatted by `now`, with the layout sql_datetime.
unfoldable pub parse_time : Layout → ℕ → ℕ
parse_time sql_datetime t = t
parse_time rfc3339_nano t = zero_time

abbrev pub parse_null_time : Layout → Option ℕ → Option ℕ
parse_null_time l none = none
parse_null_time l (some t) = some (parse_time l t)

unfoldable pub scan_task : TaskRow → Task
scan_task r = record {
  task_id = r.task_id;
  workflow_id = r.workflow_id;
  node_id = r.node_id;
  agent = r.agent;
  status = r.status;
  priority = r.priority;
  priority_lane = r.priority_lane;
  input_json = r.input_json;
  output_json = null_string r.output_json;
  policy_result_json = null_string r.policy_result_json;
  claimed_by = null_string r.claimed_by;
  claimed_at = parse_null_time rfc3339_nano r.claimed_at;
  last_heartbeat = parse_null_time rfc3339_nano r.last_heartbeat;
  timeout_sec = r.timeout_sec;
  attempt_count = r.attempt_count;
  max_attempts = r.max_attempts;
  dead_lettered = r.dead_lettered;
  completed_at = parse_null_time rfc3339_nano r.completed_at;
  failed_reason = null_string r.failed_reason;
  created_at = parse_time rfc3339_nano r.created_at;
  updated_at = parse_time rfc3339_nano r.updated_at;
}

abbrev pub is_pending : TaskStatus → Bool
is_pending pending = true
is_pending _ = false

abbrev pub is_claimed : TaskStatus → Bool
is_claimed claimed = true
is_claimed _ = false

-- WHERE task_id = ?
abbrev pub has_id : String → TaskRow → Bool
has_id id r = r.task_id == id

-- GetTask, getTaskTx: the row of that id, or nil.
unfoldable pub find_task : String → Tables → Option TaskRow
find_task id db = find (has_id id) db.tasks

unfoldable pub get_task : String → Tables → Option Task
unfolding find_task
get_task id db = elim (find_task id db) [ none ↦ none | some r ↦ some (scan_task r) ]

-- datetime(seen, '+' || timeout_sec || ' seconds') <= datetime('now'), false where seen is NULL
abbrev pub overdue : ℕ → ℕ → Option ℕ → Bool
overdue now timeout none = false
overdue now timeout (some seen) = leb (seen + timeout) now

-- The deadline test: from the last heartbeat if there is one, otherwise from the claim.
abbrev pub timed_out : ℕ → ℕ → Option ℕ → Option ℕ → Bool
timed_out now timeout (some beat) claimed_at = leb (beat + timeout) now
timed_out now timeout none claimed_at = overdue now timeout claimed_at

-- status='claimed' AND dead_lettered=0 AND the deadline has passed
unfoldable pub is_expired : ℕ → TaskRow → Bool
is_expired now r =
    is_claimed r.status
    && not r.dead_lettered
    && timed_out now r.timeout_sec r.last_heartbeat r.claimed_at
