-- ===== src/Api/Forks.antt =====
-- acpd/internal/api/branches.go: forkWorkflow and listBranches. The text of an error of the store or of the
-- bridge, which the code puts into the reply, is left out.
pub mod Outcome
use Prim.Native.String.{◌++◌, len}
use agent_control_plane.Prelude.{
  ℕ, ℤ, pos, negsuc, zero, suc, String, Bool, true, Option, none, some, List, length, ltb, decimal,
  ◌==◌, if◌then◌else◌,
}
use agent_control_plane.Sql.{Result, ok, err}
use agent_control_plane.Json.{
  Json, null, bool, int, str, obj, Members, end, member, get_member, Codec,
}
use agent_control_plane.Schema.{WorkflowSnapshot, Branch, Tables}
use agent_control_plane.Workflows.{get_latest_snapshot}
use agent_control_plane.Plan.Decode.{decode_string}
use agent_control_plane.Branches.{list_branches}
use agent_control_plane.Branches.Fork.{ForkParams, ForkResult, commit_fork}
use agent_control_plane.Api.{Call, Reply, error_reply}
use agent_control_plane.Api.Views.{Answer, shown, failed}

pub record ForkRequest : Type 0 where
  pub branch_point_seq : ℤ
  pub reason : String
  pub new_workflow_id : String

unfoldable pub decode_int : Option Json → Option ℤ
decode_int none = some (pos 0)
decode_int (some null) = some (pos 0)
decode_int (some (int n)) = some n
decode_int (some _) = none

abbrev pub build_fork : Option ℤ → (reason new_workflow_id : Option String) → Option ForkRequest
build_fork (some seq) (some reason) (some id) =
    some (record { branch_point_seq = seq; reason = reason; new_workflow_id = id })
build_fork _ _ _ = none

unfoldable pub decode_fork : Option Json → Option ForkRequest
unfolding decode_int decode_string get_member
decode_fork (some null) =
    some (record { branch_point_seq = pos 0; reason = ""; new_workflow_id = "" })
decode_fork (some (obj ms)) =
    build_fork (decode_int (get_member "branch_point_seq" ms))
      (decode_string (get_member "reason" ms)) (decode_string (get_member "new_workflow_id" ms))
decode_fork _ = none

-- The defaults: `uuid` is the first eight digits of a new UUID.
unfoldable pub with_defaults : String → ForkRequest → ForkRequest
with_defaults uuid req = record req {
  reason = if req.reason == "" then "fork" else req.reason;
  new_workflow_id = if req.new_workflow_id == "" then "wf_fork_" ++ uuid else req.new_workflow_id;
}

-- What fork.fard returns; the field `branch` is not read.
pub record Forking : Type 0 where
  pub is_ok : Bool
  pub state_json : String
  pub state_hash : String

-- Bridge.RunAndUnmarshal on fork.fard: the parent's state, the new id, the branch point and the reason.
pub record Bridge : Type 0 where
  pub fork : Json → String → ℤ → String → Result Forking

-- Where no branch point is given, it is the number in the parent's state, if it has one.
abbrev pub int_or_zero : Option Json → ℤ
int_or_zero (some (int n)) = n
int_or_zero _ = pos 0

abbrev pub point_or : ℤ → ℤ → ℤ
point_or (pos zero) current = current
point_or seq current = seq

unfoldable pub branch_point : ForkRequest → Members → ℤ
unfolding get_member
branch_point req state = point_or req.branch_point_seq (int_or_zero (get_member "seq" state))

-- %d
abbrev pub decimal_ℤ : ℤ → String
decimal_ℤ (pos n) = decimal n
decimal_ℤ (negsuc n) = "-" ++ decimal (suc n)

unfoldable pub fork_hash : ForkRequest → ℤ → Forking → String
fork_hash req seq b =
    if b.state_hash == ""
    then "sha256:fork-" ++ req.new_workflow_id ++ "-seq" ++ decimal_ℤ seq
    else b.state_hash

unfoldable pub fork_params : String → ForkRequest → ℕ → ForkParams
fork_params id req seq = record {
  parent_workflow_id = id;
  new_workflow_id = req.new_workflow_id;
  branch_point_seq = seq;
  reason = req.reason;
  kind = "fork";
}

unfoldable pub fork_reply : String → ForkResult → Reply
fork_reply id r = record {
  code = 200;
  body = member "ok" (bool true) (
      member "branch_id" (str r.branch_id) (
        member "new_workflow_id" (str r.new_workflow_id) (
          member "parent_id" (str id) (
            member "branch_point_seq" (int (pos r.branch_point_seq))
              (member "branch_point_hash" (str r.branch_point_hash) end)))));
}

module _ (c : Codec) (br : Bridge) (uuid : String) (now : ℕ) (id : String) where
  abbrev pub forked_reply : Result ForkResult × Tables → Reply × Tables
  forked_reply (ok r, db) = (fork_reply id r, db)
  forked_reply (err e, db) = (error_reply 500 "commit fork", db)

  -- No snapshot stands at or before a negative number.
  abbrev pub fork_at : ForkRequest → Forking → ℤ → Tables → Reply × Tables
  fork_at req b (negsuc n) db = (error_reply 500 "commit fork", db)
  fork_at req b (pos seq) db =
      forked_reply
        (commit_fork (fork_params id req seq) b.state_json (fork_hash req (pos seq) b) now db)

  abbrev pub fork_answered : ForkRequest → ℤ → Result Forking → Tables → Reply × Tables
  fork_answered req seq (err e) db = (error_reply 500 "fork bridge", db)
  fork_answered req seq (ok b) db =
      if b.is_ok
      then if ltb (len b.state_json) 5
        then (error_reply 500 "fork bridge returned empty state", db)
        else fork_at req b seq db
      else (error_reply 500 "fork failed", db)

  -- The program is given the latest state, whatever the branch point.
  abbrev pub fork_state : ForkRequest → Json → Members → Tables → Reply × Tables
  fork_state req document state db =
      let seq = branch_point req state in
      fork_answered req seq (br.fork document req.new_workflow_id seq req.reason) db

  -- A document `null` leaves the map nil, which has no member.
  abbrev pub fork_parsed : ForkRequest → Option Json → Tables → Reply × Tables
  fork_parsed req (some (obj state)) db = fork_state req (obj state) state db
  fork_parsed req (some null) db = fork_state req null end db
  fork_parsed req _ db = (error_reply 500 "parse parent state", db)

  abbrev pub fork_latest : ForkRequest → Option WorkflowSnapshot → Tables → Reply × Tables
  fork_latest req none db = (error_reply 404 "parent workflow not found", db)
  fork_latest req (some snap) db = fork_parsed req (c.unmarshal snap.state_json) db

  abbrev pub fork_decoded : Option ForkRequest → Tables → Reply × Tables
  fork_decoded none db = (error_reply 400 "invalid request body", db)
  fork_decoded (some req) db = fork_latest (with_defaults uuid req) (get_latest_snapshot id db) db

  unfoldable pub post_fork : Call → Tables → Reply × Tables
  unfolding decode_fork with_defaults branch_point fork_hash fork_params fork_reply error_reply
  post_fork call db =
      if call.method == "POST"
      then fork_decoded (decode_fork call.body) db
      else (error_reply 405 "method not allowed", db)

-- listBranches; the code counts the branches in the reply too.
unfoldable pub show_branches : String → Call → Tables → Answer (List Branch × ℕ)
show_branches id call db =
    let branches = list_branches id db in
    if call.method == "GET" then shown (branches, length branches) else failed 405
