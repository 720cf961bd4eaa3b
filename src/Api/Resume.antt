-- ===== src/Api/Resume.antt =====
-- acpd/internal/api/gates.go: resumeGate. The text of an error of the store or of the bridge, which the
-- code puts into the reply, is left out. The handler reads the gate and the latest state before the
-- transaction of its commit, so other requests may change the tables in between: it takes the tables that
-- it reads, `seen`, and those that the commit finds.
pub mod Once
use agent_control_plane.Prelude.{
  ℕ, String, Bool, true, false, Option, none, some, pos, not, ◌||◌, ◌==◌, if◌then◌else◌,
}
use agent_control_plane.Sql.{Result, ok, err}
use agent_control_plane.Json.{bool, int, str, end, member, Codec}
use agent_control_plane.Schema.{WorkflowSnapshot, Gate, Tables}
use agent_control_plane.Workflows.{get_latest_snapshot}
use agent_control_plane.Gates.{get_gate}
use agent_control_plane.Actors.{Actor}
use agent_control_plane.Commit.{TransitionResult, commit_gate_resolution}
use agent_control_plane.Api.{Call, Reply, error_reply, string_field}

-- What gate_resume.fard returns.
pub record Resumption : Type 0 where
  pub is_ok : Bool
  pub state_json : String
  pub state_hash : String
  pub receipt_json : String
  pub receipt_digest : String
  pub error : String
  pub seq : ℕ

-- Bridge.RunAndUnmarshal on gate_resume.fard.
pub record Bridge : Type 0 where
  pub gate_resume : (state_json : String) → Actor → (token resolution : String) → Result Resumption

-- The result that is committed: the fields that are left out have Go's zero values, the stage too.
unfoldable pub resumption_result : Resumption → TransitionResult
resumption_result b = record {
  is_ok = b.is_ok;
  state_json = b.state_json;
  state_hash = b.state_hash;
  receipt_json = b.receipt_json;
  receipt_digest = b.receipt_digest;
  policy_ok = false;
  violations = "";
  seq = b.seq;
  stage = "";
}

unfoldable pub resumption_reply : Resumption → Reply
resumption_reply b = record {
  code = 200;
  body = member "ok" (bool b.is_ok) (
      member "state_hash" (str b.state_hash)
        (member "seq" (int (pos b.seq)) (member "error" (str b.error) end)));
}

module _ (c : Codec) (br : Bridge) (workflow_id token : String) (actor : Actor) (now : ℕ) where
  abbrev pub committed : Resumption → Result (Unit {0}) × Tables → Reply × Tables
  committed b (ok _, db) = (resumption_reply b, db)
  committed b (err e, db) = (error_reply 500 "commit gate failed", db)

  abbrev pub resume_result : String → Result Resumption → Tables → Reply × Tables
  resume_result resolution (err e) db = (error_reply 500 "bridge", db)
  resume_result resolution (ok b) db = committed b (
      commit_gate_resolution c workflow_id token resolution actor.actor_id (resumption_result b) now
        db)

  abbrev pub resume_from : String → Option WorkflowSnapshot → Tables → Reply × Tables
  resume_from resolution none db = (error_reply 404 "workflow state not found", db)
  resume_from resolution (some snap) db =
      resume_result resolution (br.gate_resume snap.state_json actor token resolution) db

  abbrev pub resume_found : String → Option Gate → (seen db : Tables) → Reply × Tables
  resume_found resolution none seen db = (error_reply 404 "gate not found", db)
  resume_found resolution (some g) seen db =
      let go = resume_from resolution (get_latest_snapshot workflow_id seen) db in
      if g.workflow_id == workflow_id
      then if g.status == "pending" then go else (error_reply 409 "gate already resolved", db)
      else (error_reply 403 "gate does not belong to this workflow", db)

  abbrev pub resume_decoded : Option String → (seen db : Tables) → Reply × Tables
  resume_decoded none seen db = (error_reply 400 "invalid body", db)
  resume_decoded (some resolution) seen db =
      if resolution == "approved" || resolution == "rejected"
      then resume_found resolution (get_gate token seen) seen db
      else (error_reply 400 "resolution must be approved or rejected", db)

  unfoldable pub resume_gate : Call → (seen db : Tables) → Reply × Tables
  unfolding string_field resumption_result resumption_reply error_reply
  resume_gate call seen db =
      if call.method == "POST"
      then resume_decoded (string_field "resolution" call.body) seen db
      else (error_reply 405 "method not allowed", db)
