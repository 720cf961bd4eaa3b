-- ===== src/Examples.antt =====
-- Small tables on which the theorems of the other modules are applied.
pub mod Commits
pub mod Queue
pub mod Plans
pub mod Forks
pub mod Logs
pub mod Access
pub mod Resumes
pub mod Handlers
pub mod Submissions
pub mod Paths
pub mod Clients
pub mod Reports
use agent_control_plane.Prelude.{
  ℕ, ℤ, pos, String, Bool, true, false, Option, none, some, List, [], ◌∷◌,
}
use agent_control_plane.Json.{Json, null, int, str, arr, obj, nil, cons, member, end, Codec}
use agent_control_plane.Schema.{
  Workflow, WorkflowSnapshot, Receipt, Delta, Gate, TaskRow, TaskStatus, pending, claimed, Tables,
  no_tables,
}
use agent_control_plane.Commit.{TransitionResult, CommitParams}

-- Every document is the same text, and every text is read as an empty object.
abbrev pub plain : Codec
plain = record { marshal = λ j. "{}"; unmarshal = λ s. some (obj end); sha256_hex = λ s. "0" }

abbrev pub workflow_row : String → Workflow
workflow_row id = record {
  workflow_id = id;
  goal = "ship";
  owner = "ann";
  stage = "draft";
  state_hash = "h0";
  current_seq = 0;
  snapshot_seq = 0;
  created_at = 1;
  updated_at = 1;
}

abbrev pub snapshot_of : String → ℕ → WorkflowSnapshot
snapshot_of id seq = record {
  workflow_id = id;
  seq = seq;
  state_json = "{}";
  state_hash = "h0";
  created_at = 1;
}

-- One workflow in its first state.
abbrev pub one_workflow : Tables
one_workflow = record no_tables {
  workflows = workflow_row "w" ∷ [];
  snapshots = snapshot_of "w" 0 ∷ [];
}

abbrev pub task_row : String → TaskStatus → Option String → ℕ → TaskRow
task_row id status owner attempts = record {
  task_id = id;
  workflow_id = "w";
  node_id = "n";
  agent = "a";
  status = status;
  priority = pos 0;
  priority_lane = "normal";
  input_json = "{}";
  output_json = none;
  policy_result_json = none;
  claimed_by = owner;
  claimed_at = some 10;
  last_heartbeat = some 10;
  timeout_sec = 30;
  attempt_count = attempts;
  max_attempts = 3;
  dead_lettered = false;
  completed_at = none;
  failed_reason = none;
  created_at = 1;
  updated_at = 1;
}

-- The same with a gate.
abbrev pub gated : Tables
gated = record one_workflow {
  gates =
      record {
        token = "t1";
        workflow_id = "w";
        seq = 0;
        status = "pending";
        gate_json = "{}";
        resolved_at = none;
        resolved_by = none;
        created_at = 2;
      }
      ∷ [];
}

-- A task that waits, one that a worker holds, and one whose worker has used its last attempt.
abbrev pub queue : Tables
queue = record one_workflow {
  tasks =
      task_row "t1" pending none 0
      ∷ task_row "t2" claimed (some "bob") 1
      ∷ task_row "t3" claimed (some "eve") 3
      ∷ [];
}

abbrev pub result_at : ℕ → Bool → String → TransitionResult
result_at seq is_ok digest = record {
  is_ok = is_ok;
  state_json = "{}";
  state_hash = "h1";
  receipt_json = "{}";
  receipt_digest = digest;
  policy_ok = true;
  violations = "";
  seq = seq;
  stage = "review";
}

abbrev pub params_at : ℕ → String → CommitParams
params_at seq digest = record {
  workflow_id = "w";
  result = result_at seq true digest;
  patches = some nil;
  kind = "edit";
  actor_id = "ann";
  snapshot_every = 10;
}
