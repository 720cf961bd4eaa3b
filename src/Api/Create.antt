-- ===== src/Api/Create.antt =====
-- acpd/internal/api/workflows.go: createWorkflow and planOrEmpty. The text of an error of the store or of
-- the bridge, which the code puts into the reply, is left out.
pub mod Outcome
use Prim.Native.String.{◌++◌}
use agent_control_plane.Prelude.{
  ℕ, String, Bool, true, Option, none, some, pos, ◌||◌, ◌==◌, if◌then◌else◌,
}
use agent_control_plane.Sql.{Result, ok, err, transact}
use agent_control_plane.Json.{
  Json, null, bool, int, str, arr, obj, nil, Members, end, member, get_member, set_member, Codec,
}
use agent_control_plane.Schema.{Workflow, WorkflowSnapshot, Tables}
use agent_control_plane.Workflows.{create_workflow, save_snapshot}
use agent_control_plane.Plan.Decode.{decode_string}
use agent_control_plane.Api.{Call, Reply, error_reply, no_reply}

-- createWorkflowReq: a nil plan is `none`.
pub record CreateRequest : Type 0 where
  pub workflow_id : String
  pub goal : String
  pub owner : String
  pub plan : Option Members

abbrev decode_object : Option Json → Option (Option Members)
decode_object none = some none
decode_object (some null) = some none
decode_object (some (obj ms)) = some (some ms)
decode_object (some _) = none

abbrev pub build_request :
    (workflow_id goal owner : Option String) → Option (Option Members) → Option CreateRequest
build_request (some id) (some goal) (some owner) (some plan) =
    some (record { workflow_id = id; goal = goal; owner = owner; plan = plan })
build_request _ _ _ _ = none

unfoldable pub decode_request : Option Json → Option CreateRequest
unfolding decode_string get_member
decode_request (some null) = some (record { workflow_id = ""; goal = ""; owner = ""; plan = none })
decode_request (some (obj ms)) =
    build_request (decode_string (get_member "workflow_id" ms))
      (decode_string (get_member "goal" ms)) (decode_string (get_member "owner" ms))
      (decode_object (get_member "plan" ms))
decode_request _ = none

-- What create_workflow.fard returns.
pub record Creation : Type 0 where
  pub is_ok : Bool
  pub state_json : String
  pub state_hash : String
  pub receipt_json : String
  pub receipt_digest : String
  pub seq : ℕ

-- Bridge.RunAndUnmarshal on create_workflow.fard.
pub record Bridge : Type 0 where
  pub run_create : (workflow_id goal owner : String) → Members → Result Creation

unfoldable pub plan_or_empty : Option Members → Members
plan_or_empty none = member "nodes" (arr nil) (member "edges" (arr nil) end)
plan_or_empty (some plan) = plan

module _ (c : Codec) where
  -- stateMap["plan"] = req.Plan: a document that is no object is left as it is, and an assignment into
  -- the nil map of the document `null` panics: `none`.
  abbrev pub with_plan : Members → String → Option Json → Option String
  with_plan plan text (some (obj ms)) = some (c.marshal (obj (set_member "plan" (obj plan) ms)))
  with_plan plan text (some null) = none
  with_plan plan text _ = some text

  unfoldable pub inject_plan : Option Members → String → Option String
  unfolding set_member
  inject_plan none text = some text
  inject_plan (some plan) text = with_plan plan text (c.unmarshal text)

-- The summary row; CreateWorkflow of the store sets the times.
unfoldable pub first_row : CreateRequest → Creation → ℕ → Workflow
first_row req b now = record {
  workflow_id = req.workflow_id;
  goal = req.goal;
  owner = req.owner;
  stage = "created";
  state_hash = b.state_hash;
  current_seq = 0;
  snapshot_seq = 0;
  created_at = now;
  updated_at = now;
}

unfoldable pub first_snapshot : CreateRequest → Creation → String → ℕ → WorkflowSnapshot
first_snapshot req b state_json now = record {
  workflow_id = req.workflow_id;
  seq = 0;
  state_json = state_json;
  state_hash = b.state_hash;
  created_at = now;
}

unfoldable pub create_reply : CreateRequest → Creation → Reply
create_reply req b = record {
  code = 200;
  body = member "ok" (bool true) (
      member "workflow_id" (str req.workflow_id)
        (member "state_hash" (str b.state_hash) (member "seq" (int (pos 0)) end)));
}

-- The id that is made up where none is given: `uuid` is the first eight digits of a new UUID.
unfoldable pub with_id : String → CreateRequest → CreateRequest
with_id uuid req = if req.workflow_id == "" then record req { workflow_id = "wf_" ++ uuid } else req

module _ (c : Codec) (br : Bridge) (uuid : String) (now : ℕ) where
  abbrev pub saved : CreateRequest → Creation → Result (Unit {0}) × Tables → Reply × Tables
  saved req b (ok _, db) = (create_reply req b, db)
  saved req b (err e, db) = (error_reply 500 "save initial snapshot", db)

  abbrev pub create_inserted :
      CreateRequest → Creation → String → Result (Unit {0}) × Tables → Reply × Tables
  create_inserted req b state_json (ok _, db) =
      saved req b (transact (save_snapshot now (first_snapshot req b state_json now)) db)
  create_inserted req b state_json (err e, db) =
      (error_reply 409 "workflow already exists or db error", db)

  abbrev pub create_injected : CreateRequest → Creation → Option String → Tables → Reply × Tables
  create_injected req b none db = (no_reply, db)
  create_injected req b (some state_json) db =
      create_inserted req b state_json (create_workflow now (first_row req b now) db)

  -- The flag `ok` of the program's result is not read.
  abbrev pub create_result : CreateRequest → Result Creation → Tables → Reply × Tables
  create_result req (err e) db = (error_reply 500 "fard bridge error", db)
  create_result req (ok b) db = create_injected req b (inject_plan c req.plan b.state_json) db

  abbrev pub create_named : CreateRequest → Tables → Reply × Tables
  create_named req db =
      let result = br.run_create req.workflow_id req.goal req.owner (plan_or_empty req.plan) in
      if req.goal == "" || req.owner == ""
      then (error_reply 400 "goal and owner required", db)
      else create_result req result db

  abbrev pub create_decoded : Option CreateRequest → Tables → Reply × Tables
  create_decoded none db = (error_reply 400 "invalid request body", db)
  create_decoded (some req) db = create_named (with_id uuid req) db

  unfoldable pub post_workflow : Call → Tables → Reply × Tables
  unfolding decode_request with_id plan_or_empty inject_plan first_row first_snapshot create_reply
      error_reply
  post_workflow call db = create_decoded (decode_request call.body) db
