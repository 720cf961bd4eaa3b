-- ===== src/Sdk/Values.antt =====
-- sdk/go/acp/client.go: the structs of requests and replies, as they are decoded from JSON. A field
-- is looked up under its exact name; encoding/json takes a member whose name differs in case, too.
use agent_control_plane.Prelude.{ℤ, String, Bool, false, Option, none, some}
use agent_control_plane.Json.{Json, null, bool, obj, Members, end, get_member}
use agent_control_plane.Plan.{Plan}
use agent_control_plane.Plan.Decode.{decode_string, decode_plan}
use agent_control_plane.Api.Forks.{decode_int}

-- A document that is decoded into a struct: `null` leaves it as it is.
unfoldable pub members_of : Json → Option Members
members_of null = some end
members_of (obj ms) = some ms
members_of _ = none

module _ {A B : Type 0} where
  abbrev pub and_then : Option A → (A → Option B) → Option B
  and_then none f = none
  and_then (some a) f = f a

unfoldable pub decode_bool : Option Json → Option Bool
decode_bool none = some false
decode_bool (some null) = some false
decode_bool (some (bool b)) = some b
decode_bool (some _) = none

-- What CreateWorkflow keeps of a reply.
pub record Created : Type 0 where
  pub ok : Bool
  pub workflow_id : String
  pub stage : String
  pub state_hash : String

unfoldable pub decode_created : Json → Option Created
unfolding members_of decode_bool decode_string get_member
decode_created j = and_then (members_of j) λ ms. and_then (decode_bool (get_member "ok" ms)) λ ok.
    and_then (decode_string (get_member "workflow_id" ms)) λ id.
      and_then (decode_string (get_member "stage" ms)) λ stage.
        and_then (decode_string (get_member "state_hash" ms))
          λ hash. some (record { ok = ok; workflow_id = id; stage = stage; state_hash = hash })

-- The Workflow, Task, Receipt and Branch of the client.
pub record AcpWorkflow : Type 0 where
  pub workflow_id : String
  pub goal : String
  pub owner : String
  pub stage : String
  pub state_hash : String
  pub plan : Option Plan

pub record AcpReceipt : Type 0 where
  pub seq : ℤ
  pub receipt_digest : String
  pub receipt_json : String

pub record AcpBranch : Type 0 where
  pub branch_id : String
  pub parent_id : String
  pub branch_point_seq : ℤ
  pub branch_point_hash : String
  pub reason : String
  pub kind : String

-- The raw messages of the input and the output as the values that they spell.
pub record AcpTask : Type 0 where
  pub task_id : String
  pub workflow_id : String
  pub node_id : String
  pub agent : String
  pub status : String
  pub input_json : Option Json
  pub output_json : Option Json
  pub attempt_count : ℤ
  pub max_attempts : ℤ
  pub priority_lane : String

-- A pointer to a plan is nil where the member is missing or null.
unfoldable decode_plan_pointer : Option Json → Option (Option Plan)
unfolding decode_plan
decode_plan_pointer none = some none
decode_plan_pointer (some null) = some none
decode_plan_pointer (some j) = and_then (decode_plan (some j)) λ p. some (some p)

unfoldable pub decode_workflow : Json → Option AcpWorkflow
unfolding members_of decode_string get_member decode_plan_pointer
decode_workflow j = and_then (members_of j) λ ms.
    and_then (decode_string (get_member "workflow_id" ms)) λ id.
      and_then (decode_string (get_member "goal" ms)) λ goal.
        and_then (decode_string (get_member "owner" ms)) λ owner.
          and_then (decode_string (get_member "stage" ms)) λ stage.
            and_then (decode_string (get_member "state_hash" ms)) λ hash.
              and_then (decode_plan_pointer (get_member "plan" ms)) λ plan. some (record {
                workflow_id = id;
                goal = goal;
                owner = owner;
                stage = stage;
                state_hash = hash;
                plan = plan;
              })

unfoldable pub decode_receipt : Json → Option AcpReceipt
unfolding members_of decode_string decode_int get_member
decode_receipt j = and_then (members_of j) λ ms. and_then (decode_int (get_member "seq" ms)) λ seq.
    and_then (decode_string (get_member "receipt_digest" ms)) λ digest.
      and_then (decode_string (get_member "receipt_json" ms))
        λ text. some (record { seq = seq; receipt_digest = digest; receipt_json = text })

unfoldable pub decode_branch : Json → Option AcpBranch
unfolding members_of decode_string decode_int get_member
decode_branch j = and_then (members_of j) λ ms.
    and_then (decode_string (get_member "branch_id" ms)) λ id.
      and_then (decode_string (get_member "parent_id" ms)) λ parent.
        and_then (decode_int (get_member "branch_point_seq" ms)) λ seq.
          and_then (decode_string (get_member "branch_point_hash" ms)) λ hash.
            and_then (decode_string (get_member "reason" ms)) λ reason.
              and_then (decode_string (get_member "kind" ms)) λ kind. some (record {
                branch_id = id;
                parent_id = parent;
                branch_point_seq = seq;
                branch_point_hash = hash;
                reason = reason;
                kind = kind;
              })

unfoldable pub decode_task : Json → Option AcpTask
unfolding members_of decode_string decode_int get_member
decode_task j = and_then (members_of j) λ ms.
    and_then (decode_string (get_member "task_id" ms)) λ id.
      and_then (decode_string (get_member "workflow_id" ms)) λ workflow.
        and_then (decode_string (get_member "node_id" ms)) λ node.
          and_then (decode_string (get_member "agent" ms)) λ agent.
            and_then (decode_string (get_member "status" ms)) λ status.
              and_then (decode_int (get_member "attempt_count" ms)) λ attempts.
                and_then (decode_int (get_member "max_attempts" ms)) λ most.
                  and_then (decode_string (get_member "priority_lane" ms)) λ lane. some (record {
                    task_id = id;
                    workflow_id = workflow;
                    node_id = node;
                    agent = agent;
                    status = status;
                    input_json = get_member "input_json" ms;
                    output_json = get_member "output_json" ms;
                    attempt_count = attempts;
                    max_attempts = most;
                    priority_lane = lane;
                  })

-- The field `task` of the reply to a claim, a pointer.
unfoldable pub decode_claim : Json → Option (Option AcpTask)
unfolding members_of get_member decode_task
decode_claim j = and_then (members_of j) λ ms. claimed_task (get_member "task" ms)
  where
    claimed_task : Option Json → Option (Option AcpTask)
    claimed_task none = some none
    claimed_task (some null) = some none
    claimed_task (some t) = and_then (decode_task t) λ task. some (some task)

-- The reply that is decoded into a map and then dropped.
unfoldable pub decode_any : Json → Option (Unit {0})
unfolding members_of
decode_any j = and_then (members_of j) λ ms. some tt
