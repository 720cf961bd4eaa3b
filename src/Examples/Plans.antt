-- ===== src/Examples/Plans.antt =====
-- A plan of two nodes: the second waits for the first.
use agent_control_plane.Prelude.{
  arith, All, List, any, true, false, String, ◌≡◌, refl, some, [], ◌∷◌, ◌==◌, if◌then◌else◌,
}
use agent_control_plane.Sql.{ok, transact}
use agent_control_plane.Json.{
  Json, str, arr, obj, nil, cons, Members, member, end, get_member, Codec,
}
use agent_control_plane.Schema.{Tables, has_workflow}
use agent_control_plane.Workflows.{latest_snapshot}
use agent_control_plane.Tasks.Claim.{
  new_row, enqueue_task, claim_next, candidate, claim_candidate, claim_update, still_pending,
  claimable, before, claim_row,
}
use agent_control_plane.Plan.{
  route_of, PlanNode, Plan, ready_nodes, is_blocked, is_done, is_active_for,
}
use agent_control_plane.Plan.Decode.{
  decode_state, decode_plan, decode_list, decode_items, decode_node, decode_edge, decode_string,
}
use agent_control_plane.Plan.Enqueue.{
  plan_task, enqueue_node, enqueue_nodes, enqueue_plan, enqueue_plan_tasks,
}
use agent_control_plane.Plan.Mark.{mark_plan_node_done}
use agent_control_plane.Plan.Marked.Outcome.{HasPlan}
use agent_control_plane.Plan.Once.{is_settled}
use agent_control_plane.Tasks.Invariant.{
  IsSound, QueueStep, claims, completes, queue_step, queue_steps,
}
use agent_control_plane.Tasks.Finish.{complete_task}
use agent_control_plane.Plan.Effect.{
  Planned, Enqueued, enqueue_plan_tasks-Enqueued, enqueue_plan_tasks-once,
}
use agent_control_plane.Examples.{snapshot_of, one_workflow}

abbrev node : String → String → PlanNode
node id status = record {
  id = id;
  title = "step";
  agent = "research_agent";
  status = status;
  risk = "high";
  output_schema = "";
}

abbrev plan : Plan
plan = record {
  nodes = node "n1" "done" ∷ node "n2" "pending" ∷ [];
  edges = record { from = "n1"; to = "n2"; reason = "order" } ∷ [];
}

abbrev node_json : String → Json
node_json status = obj (member "id" (str "n1") (member "status" (str status) end))

-- Every state document has a plan of one pending node.
abbrev planned : Codec
planned = record {
  marshal = λ j. "{}";
  unmarshal = λ s.
      some
        (obj (member "plan" (obj (member "nodes" (arr (cons (node_json "pending") nil)) end)) end));
  sha256_hex = λ s. "0";
}

abbrev after : Tables
after = (enqueue_plan_tasks planned 5 "w" [] one_workflow).1

enqueued : enqueue_plan_tasks planned 5 "w" [] one_workflow ≡ (ok ("task_w_n1" ∷ []), after)
unfolding enqueue_plan_tasks enqueue_plan enqueue_nodes enqueue_node plan_task enqueue_task new_row
    has_workflow transact latest_snapshot ready_nodes is_blocked is_done decode_state decode_plan
    decode_list decode_items decode_node decode_edge decode_string get_member is_active_for
enqueued = refl

enqueue_plan_tasks-Enqueued_example :
    Enqueued planned "w" 5 [] ("task_w_n1" ∷ []) one_workflow after
enqueue_plan_tasks-Enqueued_example =
    enqueue_plan_tasks-Enqueued planned "w" 5 [] ("task_w_n1" ∷ []) one_workflow after enqueued

after-IsSound : IsSound after
unfolding enqueue_plan_tasks enqueue_plan enqueue_nodes enqueue_node plan_task enqueue_task new_row
    has_workflow transact latest_snapshot ready_nodes is_blocked is_done decode_state decode_plan
    decode_list decode_items decode_node decode_edge decode_string get_member is_active_for
after-IsSound = record {
  unique = (tt, tt);
  rows = (record { attempts = omega arith; alive = λ l. refl }, tt);
  letters = ((λ h. absurd (cc h)), tt);
}

-- The task is claimed and completed in between, and the second call is of the tables then.
abbrev history : List QueueStep
history = claims "" 6 ∷ completes "task_w_n1" "{}" "{}" 7 ∷ []

abbrev passed : Tables
passed = queue_steps history after

again : enqueue_plan_tasks planned 9 "w" [] passed ≡ (ok [], passed)
unfolding enqueue_plan_tasks enqueue_plan enqueue_nodes enqueue_node plan_task enqueue_task new_row
    has_workflow transact latest_snapshot ready_nodes is_blocked is_done decode_state decode_plan
    decode_list decode_items decode_node decode_edge decode_string get_member is_active_for
    queue_steps queue_step claim_next candidate claim_candidate claim_update still_pending claimable
    before claim_row complete_task route_of
again = refl

enqueue_plan_tasks-once_example :
    ((p : Planned planned "w" one_workflow) × (All
          (λ n. is_settled planned "w" after n ≡ true)
          (ready_nodes p.plan)
        × (enqueue_plan_tasks planned 9 "w" [] after ≡ (ok [], after))))
    × All (λ x. any (λ y. y == x) [] ≡ false) ("task_w_n1" ∷ [])
enqueue_plan_tasks-once_example =
    enqueue_plan_tasks-once planned "w" 5 9 [] [] ("task_w_n1" ∷ []) [] one_workflow after passed
      passed history after-IsSound enqueued refl again

abbrev plan_json : String → Members
plan_json status = member "plan" (obj (member "nodes" (arr (cons (node_json status) nil)) end)) end

-- The document "{}" has a pending node, and every document that is written has it done.
abbrev marking : Codec
marking = record {
  marshal = λ j. "marked";
  unmarshal = λ s.
      if s == "marked" then some (obj (plan_json "done")) else some (obj (plan_json "pending"));
  sha256_hex = λ s. "0";
}

abbrev pending_plan : Plan
pending_plan = record {
  nodes = record (node "n1" "pending") { title = ""; agent = ""; risk = "" } ∷ [];
  edges = [];
}

has_plan : HasPlan marking "w" one_workflow pending_plan
unfolding latest_snapshot decode_state decode_plan decode_list decode_items decode_node
    decode_string get_member
has_plan = record {
  snap = snapshot_of "w" 0;
  state = plan_json "pending";
  latest = refl;
  read = refl;
  plan = refl;
}

abbrev done : Tables
done = (mark_plan_node_done marking 6 "w" "n1" one_workflow).1
