-- ===== src/Sdk/Calls.antt =====
-- sdk/go/acp/client.go: the operations of Client, one for each endpoint of the server.
use Prim.Native.String.{◌++◌}
use agent_control_plane.Prelude.{
  ℤ, String, Bool, true, false, ◌&&◌, Option, none, some, List, ◌==◌, if◌then◌else◌,
}
use agent_control_plane.Json.{Json, str, int, obj, Items, Members, end, member, get_member}
use agent_control_plane.Plan.{Plan, ModelRoute}
use agent_control_plane.Plan.Decode.{decode_string, decode_list}
use agent_control_plane.Api.Plans.{decode_route}
use agent_control_plane.Api.Forks.{decode_int}
use agent_control_plane.Sdk.{Http, Client, Session, pure, ◌>>=◌, send, post_request, get_request}
use agent_control_plane.Sdk.Values.{
  AcpWorkflow, AcpReceipt, AcpBranch, AcpTask, Created, members_of, and_then, decode_bool,
  decode_created, decode_workflow, decode_receipt, decode_branch, decode_claim, decode_any,
}
use agent_control_plane.Sdk.Bodies.{creation, edit_body, completion, failure, routes_body}

-- A reply with a list under `key`. The other fields of the struct are dropped, but they must decode.
unfoldable decode_field :
    {A : Type 0} → (Json → Option A) → (key : String) → (Members → Bool) → Json → Option (List A)
unfolding decode_list members_of get_member
decode_field decode key fits j =
    and_then (members_of j)
      λ ms. let xs = decode_list decode (get_member key ms) in if fits ms then xs else none

abbrev no_more : Members → Bool
no_more ms = true

abbrev present : {A : Type 0} → Option A → Bool
present none = false
present (some a) = true

unfoldable pub fits_bool : String → Members → Bool
unfolding decode_bool get_member
fits_bool key ms = present (decode_bool (get_member key ms))

unfoldable pub fits_int : String → Members → Bool
unfolding decode_int get_member
fits_int key ms = present (decode_int (get_member key ms))

-- What Fork reads of the reply: the reason is the caller's.
unfoldable pub decode_forked : String → Json → Option AcpBranch
unfolding members_of decode_string decode_int get_member fits_bool
decode_forked reason j = and_then (members_of j) λ ms.
    and_then (decode_string (get_member "branch_id" ms)) λ id.
      and_then (decode_string (get_member "new_workflow_id" ms)) λ _.
        and_then (decode_string (get_member "parent_id" ms)) λ parent.
          and_then (decode_int (get_member "branch_point_seq" ms)) λ seq.
            and_then (decode_string (get_member "branch_point_hash" ms)) λ hash.
              let branch = some (record {
                branch_id = id;
                parent_id = parent;
                branch_point_seq = seq;
                branch_point_hash = hash;
                reason = reason;
                kind = "fork";
              }) in
              if fits_bool "ok" ms then branch else none

unfoldable decode_name : Json → Option String
unfolding decode_string
decode_name j = decode_string (some j)

-- The workflow that CreateWorkflow makes of the reply.
abbrev pub created_workflow : String → String → Option Plan → Created → AcpWorkflow
created_workflow goal owner plan resp = record {
  workflow_id = resp.workflow_id;
  goal = goal;
  owner = owner;
  stage = resp.stage;
  state_hash = resp.state_hash;
  plan = plan;
}

abbrev pub edit_path : String → String
edit_path id = "/workflows/" ++ id ++ "/state/edit"

abbrev pub receipts_path : String → String
receipts_path id = "/workflows/" ++ id ++ "/receipts"

abbrev pub task_path : (id action : String) → String
task_path id action = "/tasks/" ++ id ++ "/" ++ action

abbrev pub claim_path : String → String
claim_path agent = "/tasks/next?agent=" ++ agent

module _ {S : Type 0} (http : Http S) (c : Client) where
  unfoldable pub create_workflow : String → String → Option Plan → Session S AcpWorkflow
  unfolding send creation
  create_workflow goal owner plan = do
    resp ← send http decode_created (post_request c "/workflows" (some (creation goal owner plan)))
    pure (created_workflow goal owner plan resp)

  unfoldable pub get_workflow : String → Session S AcpWorkflow
  unfolding send
  get_workflow id = send http decode_workflow (get_request c ("/workflows/" ++ id))

  unfoldable pub list_workflows : String → Session S (List AcpWorkflow)
  unfolding send decode_field
  list_workflows stage =
      send http (decode_field decode_workflow "workflows" no_more)
        (get_request c (if stage == "" then "/workflows" else "/workflows" ++ "?stage=" ++ stage))

  unfoldable pub edit_state : String → Items → Session S (Unit {0})
  unfolding send edit_body
  edit_state id patches =
      send http decode_any (post_request c (edit_path id) (some (edit_body patches)))

  unfoldable pub get_receipts : String → Session S (List AcpReceipt)
  unfolding send decode_field
  get_receipts id =
      send http (decode_field decode_receipt "receipts" (fits_bool "chain_verified"))
        (get_request c (receipts_path id))

  unfoldable pub fork : String → ℤ → String → Session S AcpBranch
  unfolding send
  fork id seq reason = send http (decode_forked reason) (
      post_request c ("/workflows/" ++ id ++ "/fork")
        (some (obj (member "branch_point_seq" (int seq) (member "reason" (str reason) end)))))

  unfoldable pub list_branches : String → Session S (List AcpBranch)
  unfolding send decode_field
  list_branches id =
      send http (decode_field decode_branch "branches" (fits_int "count"))
        (get_request c ("/workflows/" ++ id ++ "/branches"))

  unfoldable pub execute_plan : String → List ModelRoute → Session S (List String)
  unfolding send decode_field decode_name routes_body
  execute_plan id routes =
      send http
        (decode_field decode_name "task_ids" (λ ms. fits_bool "ok" ms && fits_int "enqueued" ms))
        (post_request c ("/workflows/" ++ id ++ "/plan/execute") (some (routes_body routes)))

  unfoldable pub mark_node_done : String → String → Session S (Unit {0})
  unfolding send
  mark_node_done id node =
      send http decode_any
        (post_request c ("/workflows/" ++ id ++ "/plan/nodes/" ++ node ++ "/done") none)

  -- `none` where no task is available.
  unfoldable pub claim_task : String → Session S (Option AcpTask)
  unfolding send
  claim_task agent = send http decode_claim (get_request c (claim_path agent))

  -- The agent is not sent.
  unfoldable pub heartbeat : (id agent : String) → Session S (Unit {0})
  unfolding send
  heartbeat id agent = send http decode_any (post_request c (task_path id "heartbeat") none)

  unfoldable pub complete_task : (id output policy_result : String) → Session S (Unit {0})
  unfolding send completion
  complete_task id output policy_result =
      send http decode_any
        (post_request c (task_path id "complete") (some (completion output policy_result)))

  unfoldable pub fail_task : (id reason : String) → Session S (Unit {0})
  unfolding send failure
  fail_task id reason =
      send http decode_any (post_request c (task_path id "fail") (some (failure reason)))

  unfoldable get_model_routes : Session S (List ModelRoute)
  unfolding send decode_field
  get_model_routes =
      send http (decode_field decode_route "routes" no_more) (get_request c "/model-routes")

  unfoldable pub health : Session S (Unit {0})
  unfolding send
  health = send http decode_any (get_request c "/health")
