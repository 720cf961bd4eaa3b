-- ===== src/Plan/Enqueue.antt =====
-- acpd/internal/store/plan.go: EnqueuePlanTasks.
use agent_control_plane.Prelude.{
  ℕ, String, false, Option, none, some, List, [], ◌∷◌, ◌++◌, any, pos, if◌then◌else◌,
}
use agent_control_plane.Sql.{absent, invalid_json, wrapped, Result, ok, err, Stmt, transact}
use agent_control_plane.Json.{int, str, obj, end, member, Codec}
use agent_control_plane.Schema.{WorkflowSnapshot, Tables, pending}
use agent_control_plane.Workflows.{latest_snapshot}
use agent_control_plane.Tasks.{Task}
use agent_control_plane.Tasks.Claim.{enqueue_task}
use agent_control_plane.Plan.{
  PlanNode, Plan, ModelRoute, ready_nodes, risk_to_lane, route_of, is_active_for, plan_task_id,
}
use agent_control_plane.Plan.Decode.{decode_state}

abbrev agent_of : PlanNode → Option ModelRoute → String
agent_of node none = node.agent
agent_of node (some route) = route.agent_id

abbrev model_of : Option ModelRoute → String
model_of none = ""
model_of (some route) = route.model

module _ (c : Codec) where
  unfoldable pub task_input : String → ℕ → String → PlanNode → String
  task_input workflow_id seq model node = c.marshal (
      obj (
        member "workflow_id" (str workflow_id) (
          member "node_id" (str node.id) (
            member "node_title" (str node.title) (
              member "output_schema" (str node.output_schema)
                (member "model" (str model) (member "state_seq" (int (pos seq)) end)))))))

  -- The task that is enqueued for a node: the fields left out have Go's zero values.
  unfoldable pub plan_task : String → ℕ → List ModelRoute → PlanNode → Task
  unfolding task_input
  plan_task workflow_id seq routes node =
      let route = route_of node.agent routes in
      record {
        task_id = plan_task_id workflow_id node.id;
        workflow_id = workflow_id;
        node_id = node.id;
        agent = agent_of node route;
        status = pending;
        priority = pos 0;
        priority_lane = risk_to_lane node.risk;
        input_json = task_input workflow_id seq (model_of route) node;
        output_json = "";
        policy_result_json = "";
        claimed_by = "";
        claimed_at = none;
        last_heartbeat = none;
        timeout_sec = 300;
        attempt_count = 0;
        max_attempts = 3;
        dead_lettered = false;
        completed_at = none;
        failed_reason = "";
        created_at = 0;
        updated_at = 0;
      }

  abbrev insertion :
      ℕ → String → ℕ → List ModelRoute → PlanNode → Tables → Result (Unit {0}) × Tables
  insertion now workflow_id seq routes node db =
      transact (enqueue_task now (plan_task workflow_id seq routes node)) db

  -- A failed insertion is skipped: its error is dropped and its id is not listed.
  abbrev pub ids_of_insert : String → Result (Unit {0}) → List String
  ids_of_insert id (ok _) = id ∷ []
  ids_of_insert id (err e) = []

  -- One round of the loop: the ids that it lists, and the tables.
  unfoldable pub enqueue_node :
      ℕ → String → ℕ → List ModelRoute → PlanNode → Tables → List String × Tables
  unfolding plan_task
  enqueue_node now workflow_id seq routes node db =
      let done = insertion now workflow_id seq routes node db in
      if any (is_active_for workflow_id node.id) db.tasks
      then ([], db)
      else (ids_of_insert (plan_task_id workflow_id node.id) done.0, done.1)

  unfoldable pub enqueue_nodes :
      ℕ → String → ℕ → List ModelRoute → List PlanNode → Tables → List String × Tables
  unfolding enqueue_node
  enqueue_nodes now workflow_id seq routes [] db = ([], db)
  enqueue_nodes now workflow_id seq routes (node ∷ nodes) db =
      let one = enqueue_node now workflow_id seq routes node db in
      let rest = enqueue_nodes now workflow_id seq routes nodes one.1 in (one.0 ++ rest.0, rest.1)

  -- What EnqueuePlanTasks does with the snapshot and the plan in it.
  unfoldable pub enqueue_plan :
      ℕ → String → List ModelRoute → WorkflowSnapshot → Option Plan → Stmt Tables (List String)
  unfolding enqueue_nodes ready_nodes
  enqueue_plan now workflow_id routes snap none db = (err (wrapped "parse state" invalid_json), db)
  enqueue_plan now workflow_id routes snap (some p) db =
      let done = enqueue_nodes now workflow_id snap.seq routes (ready_nodes p) db in
      (ok done.0, done.1)

  abbrev pub parsed : String → Option Plan
  parsed text = elim (c.unmarshal text) [ none ↦ none | some j ↦ decode_state j ]

  abbrev enqueue_from :
      ℕ → String → List ModelRoute → Option WorkflowSnapshot → Stmt Tables (List String)
  enqueue_from now workflow_id routes none db = (err (wrapped "get snapshot" absent), db)
  enqueue_from now workflow_id routes (some snap) db =
      enqueue_plan now workflow_id routes snap (parsed snap.state_json) db

  -- EnqueuePlanTasks; the early returns for a plan without nodes or without ready nodes return no ids, as
  -- the loop over no nodes does.
  unfoldable pub enqueue_plan_tasks : ℕ → String → List ModelRoute → Stmt Tables (List String)
  unfolding enqueue_plan decode_state
  enqueue_plan_tasks now workflow_id routes db =
      enqueue_from now workflow_id routes (latest_snapshot workflow_id db) db
