-- ===== src/Api/Edits.antt =====
-- acpd/internal/api/workflows.go: editState and commitArtifact. The text of an error of the store or of the
-- bridge, which the code puts into the reply, is left out.
pub mod Outcome
use agent_control_plane.Prelude.{
  ℕ, String, Bool, true, false, Option, none, some, List, [], ◌∷◌, pos, ◌==◌, if◌then◌else◌,
}
use agent_control_plane.Sql.{Result, ok, err}
use agent_control_plane.Json.{
  Json, null, bool, int, str, obj, Items, nil, cons, end, member, get_member, Codec,
}
use agent_control_plane.Schema.{WorkflowSnapshot, Tables}
use agent_control_plane.Workflows.{get_latest_snapshot}
use agent_control_plane.Commit.{
  TransitionResult, CommitParams, ArtifactCommitParams, commit_transition, commit_artifact,
}
use agent_control_plane.Plan.Decode.{decode_string, decode_list}
use agent_control_plane.Actors.{Actor}
use agent_control_plane.Api.{Call, Reply, error_reply}

-- Go's patch: a missing value is nil.
pub record Patch : Type 0 where
  pub path : String
  pub value : Json

abbrev pub value_or_null : Option Json → Json
value_or_null none = null
value_or_null (some j) = j

abbrev pub build_patch : Option String → Option Json → Option Patch
build_patch none value = none
build_patch (some path) value = some (record { path = path; value = value_or_null value })

unfoldable pub decode_patch : Json → Option Patch
unfolding decode_string get_member
decode_patch null = some (record { path = ""; value = null })
decode_patch (obj ms) = build_patch (decode_string (get_member "path" ms)) (get_member "value" ms)
decode_patch _ = none

-- The field `patches` of the body.
unfoldable pub decode_patches : Option Json → Option (List Patch)
unfolding decode_list decode_patch get_member
decode_patches (some null) = some []
decode_patches (some (obj ms)) = decode_list decode_patch (get_member "patches" ms)
decode_patches _ = none

-- What transition.fard returns.
pub record Edit : Type 0 where
  pub is_ok : Bool
  pub state_json : String
  pub state_hash : String
  pub receipt_json : String
  pub receipt_digest : String
  pub seq : ℕ
  pub policy_ok : Bool
  pub violations : Json

-- What commit_artifact.fard returns.
pub record ArtifactCommit : Type 0 where
  pub is_ok : Bool
  pub digest : String
  pub state_json : String
  pub state_hash : String
  pub receipt_json : String
  pub receipt_digest : String
  pub seq : ℕ

-- Bridge.RunAndUnmarshal on transition.fard and on commit_artifact.fard.
pub record Bridge : Type 0 where
  pub transition : String → Actor → List Patch → Result Edit
  pub run_artifact : String → Actor → String → Result ArtifactCommit

-- patches_any
unfoldable pub patch_items : List Patch → Items
patch_items [] = nil
patch_items (p ∷ ps) =
    cons (obj (member "path" (str p.path) (member "value" p.value end))) (patch_items ps)

-- The result that is commit_replied: the fields that are left out have Go's zero values.
unfoldable pub edit_result : Edit → TransitionResult
edit_result b = record {
  is_ok = b.is_ok;
  state_json = b.state_json;
  state_hash = b.state_hash;
  receipt_json = b.receipt_json;
  receipt_digest = b.receipt_digest;
  policy_ok = b.policy_ok;
  violations = "";
  seq = b.seq;
  stage = "";
}

unfoldable pub edit_params : ℕ → String → Actor → List Patch → Edit → CommitParams
unfolding edit_result patch_items
edit_params snapshot_every id actor ps b = record {
  workflow_id = id;
  result = edit_result b;
  patches = some (patch_items ps);
  kind = "human_state_edit";
  actor_id = actor.actor_id;
  snapshot_every = snapshot_every;
}

unfoldable pub edit_reply : Edit → Reply
edit_reply b = record {
  code = 200;
  body = member "ok" (bool b.is_ok) (
      member "state_hash" (str b.state_hash) (
        member "seq" (int (pos b.seq))
          (member "policy_ok" (bool b.policy_ok) (member "violations" b.violations end))));
}

unfoldable pub artifact_result : ArtifactCommit → TransitionResult
artifact_result b = record {
  is_ok = b.is_ok;
  state_json = b.state_json;
  state_hash = b.state_hash;
  receipt_json = b.receipt_json;
  receipt_digest = b.receipt_digest;
  policy_ok = false;
  violations = "";
  seq = b.seq;
  stage = "";
}

unfoldable pub artifact_params : ℕ → String → Actor → String → ArtifactCommit → ArtifactCommitParams
unfolding artifact_result
artifact_params snapshot_every id actor text b = record {
  workflow_id = id;
  artifact_json = text;
  artifact_digest = b.digest;
  result = artifact_result b;
  actor_id = actor.actor_id;
  snapshot_every = snapshot_every;
}

unfoldable pub artifact_reply : ArtifactCommit → Reply
artifact_reply b = record {
  code = 200;
  body = member "ok" (bool b.is_ok) (
      member "digest" (str b.digest)
        (member "state_hash" (str b.state_hash) (member "seq" (int (pos b.seq)) end)));
}

-- The variable that an error of the bridge, which is dropped, leaves as it was declared.
unfoldable pub artifact_or_zero : Result ArtifactCommit → ArtifactCommit
artifact_or_zero (ok b) = b
artifact_or_zero (err e) = record {
  is_ok = false;
  digest = "";
  state_json = "";
  state_hash = "";
  receipt_json = "";
  receipt_digest = "";
  seq = 0;
}

abbrev pub commit_replied : Reply → Reply → Result (Unit {0}) × Tables → Reply × Tables
commit_replied reply failed (ok _, db) = (reply, db)
commit_replied reply failed (err e, db) = (failed, db)

-- if result.OK { commit }, whose outcome is `done`, and then the reply
abbrev pub commit_if : Bool → Reply → Reply → Result (Unit {0}) × Tables → Tables → Reply × Tables
commit_if true reply failed done db = commit_replied reply failed done
commit_if false reply failed done db = (reply, db)

module _ (c : Codec) (br : Bridge) (snapshot_every : ℕ) (id : String) (actor : Actor)
    (now : ℕ) where
  abbrev pub edit_answered : List Patch → Result Edit → Tables → Reply × Tables
  edit_answered ps (err e) db = (error_reply 500 "bridge", db)
  edit_answered ps (ok b) db =
      commit_if b.is_ok (edit_reply b) (error_reply 500 "commit failed")
        (commit_transition c (edit_params snapshot_every id actor ps b) now db) db

  abbrev pub edit_from : List Patch → Option WorkflowSnapshot → Tables → Reply × Tables
  edit_from ps none db = (error_reply 404 "workflow state not found", db)
  edit_from ps (some snap) db = edit_answered ps (br.transition snap.state_json actor ps) db

  abbrev pub edit_decoded : Option (List Patch) → Tables → Reply × Tables
  edit_decoded none db = (error_reply 400 "invalid body", db)
  edit_decoded (some ps) db = edit_from ps (get_latest_snapshot id db) db

  unfoldable pub edit_state : Call → Tables → Reply × Tables
  unfolding decode_patches edit_params edit_reply error_reply
  edit_state call db =
      if call.method == "POST"
      then edit_decoded (decode_patches call.body) db
      else (error_reply 405 "method not allowed", db)

  abbrev pub artifact_answered : String → ArtifactCommit → Tables → Reply × Tables
  artifact_answered text b db =
      commit_if b.is_ok (artifact_reply b) (error_reply 500 "commit artifact failed")
        (commit_artifact c (artifact_params snapshot_every id actor text b) now db) db

  abbrev pub artifact_from : String → Option WorkflowSnapshot → Tables → Reply × Tables
  artifact_from text none db = (error_reply 404 "workflow not found", db)
  artifact_from text (some snap) db =
      artifact_answered text (artifact_or_zero (br.run_artifact snap.state_json actor text)) db

  abbrev pub artifact_decoded : String → Option Json → Tables → Reply × Tables
  artifact_decoded text none db = (error_reply 400 "invalid body", db)
  artifact_decoded text (some j) db = artifact_from text (get_latest_snapshot id db) db

  unfoldable pub post_artifact : Call → Tables → Reply × Tables
  unfolding artifact_or_zero artifact_params artifact_reply error_reply
  post_artifact call db =
      if call.method == "POST"
      then artifact_decoded call.text call.body db
      else (error_reply 405 "method not allowed", db)
