-- ===== src/Api/Views.antt =====
-- acpd/internal/api/workflows.go: the handlers that read a workflow. What a reply holds is a value of the
-- model's types; that encoding/json prints it is left out, and so are errors of the database.
pub mod Replay
pub mod Listing
use agent_control_plane.Prelude.{
  ℕ, String, Bool, false, Option, none, some, List, [], ◌∷◌, map, ◌==◌, if◌then◌else◌,
}
use agent_control_plane.Sql.{Result, ok, err}
use agent_control_plane.Json.{Json, null, arr, obj, Items, nil, cons, get_member}
use agent_control_plane.Schema.{Workflow, WorkflowSnapshot, Receipt, Artifact, Tables}
use agent_control_plane.Workflows.{
  get_workflow, list_workflows, get_latest_snapshot, get_snapshot_at_seq,
}
use agent_control_plane.Receipts.{get_receipts, list_artifacts}
use agent_control_plane.Plan.Decode.{decode_string, decode_list}
use agent_control_plane.Actors.{Actor}
use agent_control_plane.Api.{Call}

-- The status code, and what the reply shows where it is no error.
pub record Answer (A : Type 0) : Type 0 where
  pub code : ℕ
  pub value : Option A

module _ {A : Type 0} where
  abbrev pub shown : A → Answer A
  shown a = record { code = 200; value = some a }

  abbrev pub failed : ℕ → Answer A
  failed code = record { code = code; value = none }

abbrev pub workflow_answer : Option Workflow → Answer Workflow
workflow_answer none = failed 404
workflow_answer (some wf) = shown wf

unfoldable pub show_workflow : String → Tables → Answer Workflow
show_workflow id db = workflow_answer (get_workflow id db)

unfoldable pub show_workflows : String → Tables → Answer (List Workflow)
show_workflows stage db = shown (list_workflows stage 100 db)

-- What verify_chain.fard returns.
pub record ChainCheck : Type 0 where
  pub chain_root : String
  pub chain_verified : Bool
  pub receipt_count : ℕ

-- Bridge.RunAndUnmarshal on dashboard.fard, verify_chain.fard and replay.fard.
pub record Bridge : Type 0 where
  pub dashboard : String → List String → Result Json
  pub verify_chain : List String → Result ChainCheck
  pub replay : String → Actor → List Json → String → Result Json

-- Errors of the first two programs are dropped: the variables stay as they were declared.
abbrev pub json_or_null : Result Json → Json
json_or_null (ok j) = j
json_or_null (err e) = null

abbrev pub check_or_zero : Result ChainCheck → ChainCheck
check_or_zero (ok r) = r
check_or_zero (err e) = record { chain_root = ""; chain_verified = false; receipt_count = 0 }

pub record ReceiptList : Type 0 where
  pub receipts : List Receipt
  pub chain : ChainCheck

-- The body of a replay: the events, nil or not, and the version.
pub record ReplayRequest : Type 0 where
  pub events : List Json
  pub tool_version : String

abbrev pub build_replay : Option (List Json) → Option String → Option ReplayRequest
build_replay (some events) (some version) =
    some (record { events = events; tool_version = version })
build_replay _ _ = none

unfoldable pub decode_replay : Option Json → Option ReplayRequest
unfolding decode_string decode_list get_member
decode_replay (some null) = some (record { events = []; tool_version = "" })
decode_replay (some (obj ms)) =
    build_replay (decode_list some (get_member "events" ms))
      (decode_string (get_member "tool_version" ms))
decode_replay _ = none

-- The snapshot at number 0, or else the latest one.
abbrev pub baseline_or : Option WorkflowSnapshot → Option WorkflowSnapshot → Option WorkflowSnapshot
baseline_or none latest = latest
baseline_or (some snap) latest = some snap

unfoldable pub baseline : String → Tables → Option WorkflowSnapshot
baseline id db = baseline_or (get_snapshot_at_seq id 0 db) (get_latest_snapshot id db)

module _ (br : Bridge) where
  abbrev pub dashboard_from :
      String → Option Workflow → Option WorkflowSnapshot → Tables → Answer Json
  dashboard_from id none snap db = failed 404
  dashboard_from id (some wf) none db = failed 404
  dashboard_from id (some wf) (some snap) db = shown (
      json_or_null (
        br.dashboard snap.state_json
          (map (λ (a : Artifact). a.artifact_json) (list_artifacts id db))))

  unfoldable pub show_dashboard : String → Tables → Answer Json
  show_dashboard id db = dashboard_from id (get_workflow id db) (get_latest_snapshot id db) db

  unfoldable pub show_receipts : String → Tables → Answer ReceiptList
  show_receipts id db =
      let receipts = get_receipts id db in
      shown (record {
        receipts = receipts;
        chain = check_or_zero (br.verify_chain (map (λ (r : Receipt). r.receipt_json) receipts));
      })

  abbrev pub replay_answer : Result Json → Answer Json
  replay_answer (err e) = failed 500
  replay_answer (ok j) = shown j

  abbrev pub replay_from : Actor → ReplayRequest → Option WorkflowSnapshot → Answer Json
  replay_from actor req none = failed 404
  replay_from actor req (some snap) =
      replay_answer (br.replay snap.state_json actor req.events req.tool_version)

  abbrev pub replay_decoded : Actor → Option ReplayRequest → Option WorkflowSnapshot → Answer Json
  replay_decoded actor none snap = failed 400
  replay_decoded actor (some req) snap = replay_from actor req snap

  unfoldable pub replay_workflow : String → Actor → Call → Tables → Answer Json
  unfolding decode_replay baseline
  replay_workflow id actor call db =
      if call.method == "POST"
      then replay_decoded actor (decode_replay call.body) (baseline id db)
      else failed 405
