-- ===== src/Schema.antt =====
-- The tables of acpd/migrations/*.sql and the record types of acpd/internal/store that are their rows.
-- A time is the number of seconds since the epoch: `now` of db.go writes whole seconds, in a format
-- whose order as text is the order of time.
use agent_control_plane.Prelude.{ℕ, ℤ, String, Bool, Option, List, [], any, ◌==◌}

pub record Workflow : Type 0 where
  pub workflow_id : String
  pub goal : String
  pub owner : String
  pub stage : String
  pub state_hash : String
  pub current_seq : ℕ
  pub snapshot_seq : ℕ
  pub created_at : ℕ
  pub updated_at : ℕ

pub record WorkflowSnapshot : Type 0 where
  pub workflow_id : String
  pub seq : ℕ
  pub state_json : String
  pub state_hash : String
  pub created_at : ℕ

pub record Delta : Type 0 where
  pub workflow_id : String
  pub seq : ℕ
  pub delta_json : String
  pub delta_hash : String
  pub prev_delta_hash : Option String
  pub created_at : ℕ

pub record Receipt : Type 0 where
  pub workflow_id : String
  pub seq : ℕ
  pub receipt_digest : String
  pub receipt_json : String
  pub prev_receipt_digest : Option String
  pub created_at : ℕ

pub record Artifact : Type 0 where
  pub digest : String
  pub workflow_id : String
  pub artifact_json : String
  pub content_ref : Option String
  pub created_at : ℕ

pub record Gate : Type 0 where
  pub token : String
  pub workflow_id : String
  pub seq : ℕ
  pub status : String
  pub gate_json : String
  pub resolved_at : Option ℕ
  pub resolved_by : Option String
  pub created_at : ℕ

-- tasks.status: the values that the schema names
pub data TaskStatus : Type 0 where
  pending claimed completed failed cancelled : TaskStatus

pub record TaskRow : Type 0 where
  pub task_id : String
  pub workflow_id : String
  pub node_id : String
  pub agent : String
  pub status : TaskStatus
  pub priority : ℤ
  pub priority_lane : String
  pub input_json : String
  pub output_json : Option String
  pub policy_result_json : Option String
  pub claimed_by : Option String
  pub claimed_at : Option ℕ
  pub last_heartbeat : Option ℕ
  pub timeout_sec : ℕ
  pub attempt_count : ℕ
  pub max_attempts : ℕ
  pub dead_lettered : Bool
  pub completed_at : Option ℕ
  pub failed_reason : Option String
  pub created_at : ℕ
  pub updated_at : ℕ

pub record DeadLetter : Type 0 where
  pub task_id : String
  pub workflow_id : String
  pub node_id : String
  pub agent : String
  pub input_json : String
  pub failed_reason : String
  pub attempt_count : ℕ
  pub original_created : ℕ
  pub dead_lettered_at : ℕ

pub record Branch : Type 0 where
  pub branch_id : String
  pub parent_id : String
  pub branch_point_seq : ℕ
  pub branch_point_hash : String
  pub reason : String
  pub kind : String
  pub created_at : ℕ

pub record Anchor : Type 0 where
  pub proof_id : String
  pub workflow_id : String
  pub seq_from : ℕ
  pub seq_to : ℕ
  pub chain_root : String
  pub payload_digest : String
  pub proof_digest : String
  pub external_kind : String
  pub external_ref : String
  pub anchored_by : String
  pub payload_json : String
  pub proof_json : String
  pub created_at : ℕ

pub record ActorRow : Type 0 where
  pub actor_id : String
  pub api_key_hash : String
  pub roles_json : String
  pub allowed_agents_json : Option String
  pub allowed_workflows_json : Option String
  pub created_at : ℕ
  pub updated_at : ℕ

-- Each table lists its rows in the order of insertion.
pub record Tables : Type 0 where
  pub workflows : List Workflow
  pub snapshots : List WorkflowSnapshot
  pub deltas : List Delta
  pub receipts : List Receipt
  pub artifacts : List Artifact
  pub gates : List Gate
  pub tasks : List TaskRow
  pub dead_letters : List DeadLetter
  pub branches : List Branch
  pub anchors : List Anchor
  pub actors : List ActorRow

abbrev pub no_tables : Tables
no_tables = record {
  workflows = [];
  snapshots = [];
  deltas = [];
  receipts = [];
  artifacts = [];
  gates = [];
  tasks = [];
  dead_letters = [];
  branches = [];
  anchors = [];
  actors = [];
}

-- FOREIGN KEY (workflow_id) REFERENCES workflows(workflow_id)
unfoldable pub has_workflow : Tables → String → Bool
has_workflow db id = any (λ (w : Workflow). w.workflow_id == id) db.workflows
