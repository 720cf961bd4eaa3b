-- ===== src/Plan.antt =====
-- acpd/internal/store/plan.go: the plan in a workflow's state, and the tasks of its ready nodes.
pub mod Decode
pub mod Enqueue
pub mod Mark
pub mod Marked
pub mod Ready
pub mod Once
pub mod Chosen
pub mod Effect
use Prim.Native.String.{◌++◌}
use agent_control_plane.Prelude.{
  String, Bool, true, false, Option, none, some, List, [], ◌∷◌, any, select, ◌&&◌, ◌||◌, not, ◌==◌,
  if◌then◌else◌,
}
use agent_control_plane.Schema.{TaskRow}
use agent_control_plane.Tasks.{is_pending, is_claimed}

pub record PlanNode : Type 0 where
  pub id : String
  pub title : String
  pub agent : String
  pub status : String
  pub risk : String
  pub output_schema : String

pub record PlanEdge : Type 0 where
  pub from : String
  pub to : String
  pub reason : String

pub record Plan : Type 0 where
  pub nodes : List PlanNode
  pub edges : List PlanEdge

pub record ModelRoute : Type 0 where
  pub node_agent : String
  pub agent_id : String
  pub model : String

-- done[id]: some node of that ID has the status "done".
unfoldable pub is_done : Plan → String → Bool
is_done p id = any (λ (n : PlanNode). n.id == id && n.status == "done") p.nodes

-- blockers[id]: an edge to the node whose source is not done
unfoldable pub is_blocked : Plan → String → Bool
unfolding is_done
is_blocked p id = any (λ (e : PlanEdge). e.to == id && not (is_done p e.from)) p.edges

unfoldable pub ready_nodes : Plan → List PlanNode
unfolding is_blocked
ready_nodes p = select (λ (n : PlanNode). n.status == "pending" && not (is_blocked p n.id)) p.nodes

unfoldable pub risk_to_lane : String → String
risk_to_lane risk =
    if risk == "critical"
    then "critical"
    else if risk == "high" || risk == "medium"
    then "normal"
    else "background"

-- routeMap[agent]: a later route of the same agent overwrites an earlier one.
unfoldable pub route_of : String → List ModelRoute → Option ModelRoute
route_of agent [] = none
route_of agent (r ∷ rs) = elim (route_of agent rs) [
  | some later ↦ some later
  | none ↦ if r.node_agent == agent then some r else none
]

-- WHERE workflow_id=? AND node_id=? AND status IN ('pending','claimed') AND dead_lettered=0
unfoldable pub is_active_for : String → String → TaskRow → Bool
is_active_for workflow_id node_id t =
    t.workflow_id == workflow_id
    && t.node_id == node_id
    && (is_pending t.status || is_claimed t.status)
    && not t.dead_lettered

-- fmt.Sprintf("task_%s_%s", workflowID, node.ID)
abbrev pub plan_task_id : String → String → String
plan_task_id workflow_id node_id = "task_" ++ workflow_id ++ "_" ++ node_id
