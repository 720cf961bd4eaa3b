-- ===== src/Tasks/Claim.antt =====
-- acpd/internal/store/tasks.go: EnqueueTask, ClaimNextTask and HeartbeatTask.
pub mod Order
pub mod Effect
pub mod Race
pub mod Beat
use agent_control_plane.Prelude.{
  ℕ, suc, ◌+◌, String, Bool, false, Option, none, some, List, [], ◌∷◌, ◌++◌, ltb, nat_eq, ltb_ℤ,
  select, any, count, update, first_by, ◌&&◌, ◌||◌, not, ◌==◌, if◌then◌else◌,
}
use agent_control_plane.Sql.{
  unique_violation, foreign_key_violation, Stmt, pure, raise, gets, write, transact, ◌>>=◌, ◌>>◌,
}
use agent_control_plane.Schema.{pending, claimed, TaskRow, Tables, has_workflow}
use agent_control_plane.Tasks.{Task, is_pending, is_claimed, has_id, get_task}

abbrev pub lane_or_normal : String → String
lane_or_normal lane = if lane == "" then "normal" else lane

abbrev pub attempts_or_default : ℕ → ℕ
attempts_or_default n = if nat_eq n 0 then 3 else n

-- The row that EnqueueTask inserts.
unfoldable pub new_row : ℕ → Task → TaskRow
new_row now t = record {
  task_id = t.task_id;
  workflow_id = t.workflow_id;
  node_id = t.node_id;
  agent = t.agent;
  status = pending;
  priority = t.priority;
  priority_lane = lane_or_normal t.priority_lane;
  input_json = t.input_json;
  output_json = none;
  policy_result_json = none;
  claimed_by = none;
  claimed_at = none;
  last_heartbeat = none;
  timeout_sec = t.timeout_sec;
  attempt_count = 0;
  max_attempts = attempts_or_default t.max_attempts;
  dead_lettered = false;
  completed_at = none;
  failed_reason = none;
  created_at = now;
  updated_at = now;
}

-- INSERT INTO tasks: the primary key and the foreign key are checked.
unfoldable pub enqueue_task : ℕ → Task → Stmt Tables (Unit {0})
unfolding new_row has_workflow
enqueue_task now t db =
    if any (has_id t.task_id) db.tasks
    then raise unique_violation db
    else if has_workflow db t.workflow_id
    then write (λ db. record db { tasks = db.tasks ++ new_row now t ∷ [] }) db
    else raise foreign_key_violation db

-- WHERE agent = ? AND status = 'pending' AND dead_lettered = 0 AND attempt_count < max_attempts
unfoldable pub claimable : String → TaskRow → Bool
claimable agent r =
    r.agent == agent
    && is_pending r.status
    && not r.dead_lettered
    && ltb r.attempt_count r.max_attempts

-- CASE priority_lane
unfoldable pub lane_rank : String → ℕ
lane_rank lane =
    if lane == "critical"
    then 0
    else if lane == "normal"
    then 1
    else if lane == "background"
    then 2
    else 1

-- ORDER BY lane, priority DESC, created_at ASC
unfoldable pub before : TaskRow → TaskRow → Bool
before r s =
    let i = lane_rank r.priority_lane in
    let j = lane_rank s.priority_lane in
    ltb i j
    || nat_eq i j
      && (ltb_ℤ s.priority r.priority
          || not (ltb_ℤ r.priority s.priority) && ltb r.created_at s.created_at)

-- Step 1: the best candidate.
unfoldable pub candidate : String → Tables → Option TaskRow
candidate agent db = first_by before (select (claimable agent) db.tasks)

-- WHERE task_id=? AND status='pending' AND dead_lettered=0
unfoldable pub still_pending : String → TaskRow → Bool
still_pending id r = has_id id r && is_pending r.status && not r.dead_lettered

unfoldable pub claim_row : String → ℕ → TaskRow → TaskRow
claim_row agent now r = record r {
  status = claimed;
  claimed_by = some agent;
  claimed_at = some now;
  last_heartbeat = some now;
  attempt_count = r.attempt_count + 1;
  updated_at = now;
}

-- Step 2: the conditional UPDATE, with the number of rows that it affected.
unfoldable pub claim_update : String → String → ℕ → Stmt Tables ℕ
unfolding still_pending claim_row
claim_update agent id now = do
  n ← gets (λ db. count (still_pending id) db.tasks)
  write (λ db. record db { tasks = update (still_pending id) (claim_row agent now) db.tasks })
  pure n

-- The body of the transaction behind the scan of the candidate.
unfoldable pub claim_candidate : String → ℕ → Option TaskRow → Stmt Tables (Option Task)
unfolding claim_update
claim_candidate agent now none = pure none
claim_candidate agent now (some r) = do
  n ← claim_update agent r.task_id now
  if nat_eq n 0 then pure none else gets (get_task r.task_id)

unfoldable pub claim_next : String → ℕ → Stmt Tables (Option Task)
unfolding candidate claim_candidate
claim_next agent now = transact (do r ← gets (candidate agent); claim_candidate agent now r)

abbrev pub is_claimed_by : String → Option String → Bool
is_claimed_by worker none = false
is_claimed_by worker (some owner) = owner == worker

-- WHERE task_id=? AND status='claimed' AND claimed_by=?
unfoldable pub beats_for : String → String → TaskRow → Bool
beats_for id worker r = has_id id r && is_claimed r.status && is_claimed_by worker r.claimed_by

unfoldable pub beat_row : ℕ → TaskRow → TaskRow
beat_row now r = record r { last_heartbeat = some now; updated_at = now }

unfoldable pub heartbeat : String → String → ℕ → Stmt Tables (Unit {0})
unfolding beats_for beat_row
heartbeat id worker now =
    write (λ db. record db { tasks = update (beats_for id worker) (beat_row now) db.tasks })
