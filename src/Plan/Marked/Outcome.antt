-- ===== src/Plan/Marked/Outcome.antt =====
-- What MarkPlanNodeDone of acpd/internal/store/plan.go stores.
use agent_control_plane.Prelude.{ℕ, ◌+◌, String, ◌≡◌, some}
use agent_control_plane.Json.{obj, Members, Codec}
use agent_control_plane.Schema.{WorkflowSnapshot, Tables}
use agent_control_plane.Workflows.{find_workflow, latest_snapshot}
use agent_control_plane.Plan.{Plan}
use agent_control_plane.Plan.Decode.{decode_state}
use agent_control_plane.Plan.Enqueue.{parsed}
use agent_control_plane.Plan.Mark.{done_hash}

module _ (c : Codec) (id : String) (db : Tables) where
  -- The latest state of the workflow and the plan in it.
  pub record HasPlan (p : Plan) : Type 0 where
    pub snap : WorkflowSnapshot
    pub state : Members
    pub latest : latest_snapshot id db ≡ some snap
    pub read : c.unmarshal snap.state_json ≡ some (obj state)
    pub plan : decode_state (obj state) ≡ some p

  -- What the queries find of the workflow afterwards.
  pub record IsMarked (seq : ℕ) (p : Plan) (db' : Tables) : Type 0 where
    pub snap : WorkflowSnapshot
    pub latest : latest_snapshot id db' ≡ some snap
    pub next : snap.seq ≡ seq + 1
    pub plan : parsed c snap.state_json ≡ some p
    pub summary : find_workflow id db' ≡ find_workflow id db

module _ (c : Codec) (id node_id : String) (now : ℕ) (db : Tables) where
  abbrev marked_snapshot : WorkflowSnapshot → Members → WorkflowSnapshot
  marked_snapshot snap state' = record {
    workflow_id = id;
    seq = snap.seq + 1;
    state_json = c.marshal (obj state');
    state_hash = done_hash node_id;
    created_at = now;
  }
