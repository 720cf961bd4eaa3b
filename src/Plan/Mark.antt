-- ===== src/Plan/Mark.antt =====
-- acpd/internal/store/plan.go: MarkPlanNodeDone.
use Prim.Native.String.{◌++◌}
use agent_control_plane.Prelude.{
  ℕ, ◌+◌, String, Bool, false, Option, none, some, ◌==◌, if◌then◌else◌,
}
use agent_control_plane.Sql.{absent, invalid_json, panicked, wrapped, Stmt, raise, transact}
use agent_control_plane.Json.{
  Json, null, str, arr, obj, Items, nil, cons, Members, get_member, set_member, as_string,
  as_object, as_array, Codec,
}
use agent_control_plane.Schema.{WorkflowSnapshot, Tables}
use agent_control_plane.Workflows.{latest_snapshot, save_snapshot}

-- node["id"] == nodeID
abbrev pub names : String → Option String → Bool
names node_id none = false
names node_id (some id) = id == node_id

-- The loop over the nodes: the first of that id gets the status "done".
unfoldable pub mark_nodes : String → Items → Items
unfolding get_member set_member
mark_nodes node_id nil = nil
mark_nodes node_id (cons (obj ms) js) =
    if names node_id (as_string (get_member "id" ms))
    then cons (obj (set_member "status" (str "done") ms)) js
    else cons (obj ms) (mark_nodes node_id js)
mark_nodes node_id (cons j js) = cons j (mark_nodes node_id js)

-- Nodes that are missing or no array are written back as the nil slice.
abbrev pub marked_nodes : String → Option Items → Json
marked_nodes node_id none = null
marked_nodes node_id (some js) = arr (mark_nodes node_id js)

-- An assignment into the nil map of a missing plan panics: `none`.
abbrev pub marked_state : String → Members → Option Members → Option Members
marked_state node_id state none = none
marked_state node_id state (some plan) = some (
    set_member "plan"
      (obj (set_member "nodes" (marked_nodes node_id (as_array (get_member "nodes" plan))) plan))
      state)

unfoldable pub mark_state : String → Members → Option Members
unfolding mark_nodes get_member set_member
mark_state node_id state = marked_state node_id state (as_object (get_member "plan" state))

abbrev pub done_hash : String → String
done_hash node_id = "sha256:plan-node-" ++ node_id ++ "-done"

module _ (c : Codec) where
  abbrev pub save_marked :
      ℕ → String → String → WorkflowSnapshot → Option Members → Stmt Tables (Unit {0})
  save_marked now workflow_id node_id snap none = raise panicked
  save_marked now workflow_id node_id snap (some state) = transact (
      save_snapshot now (record {
        workflow_id = workflow_id;
        seq = snap.seq + 1;
        state_json = c.marshal (obj state);
        state_hash = done_hash node_id;
        created_at = now;
      }))

  abbrev pub mark_document :
      ℕ → String → String → WorkflowSnapshot → Option Json → Stmt Tables (Unit {0})
  mark_document now workflow_id node_id snap (some (obj state)) =
      save_marked now workflow_id node_id snap (mark_state node_id state)
  mark_document now workflow_id node_id snap (some null) = raise panicked
  mark_document now workflow_id node_id snap _ = raise (wrapped "parse state" invalid_json)

  abbrev pub mark_from : ℕ → String → String → Option WorkflowSnapshot → Stmt Tables (Unit {0})
  mark_from now workflow_id node_id none = raise (wrapped "get snapshot" absent)
  mark_from now workflow_id node_id (some snap) =
      mark_document now workflow_id node_id snap (c.unmarshal snap.state_json)

  unfoldable pub mark_plan_node_done : ℕ → String → String → Stmt Tables (Unit {0})
  unfolding mark_state
  mark_plan_node_done now workflow_id node_id db =
      mark_from now workflow_id node_id (latest_snapshot workflow_id db) db
