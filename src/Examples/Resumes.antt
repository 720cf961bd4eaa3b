-- ===== src/Examples/Resumes.antt =====
-- The gate "t1" is resumed.
use agent_control_plane.Prelude.{◌<◌, ◌≡◌, refl, true, some, none}
use agent_control_plane.Sql.{ok, transact}
use agent_control_plane.Json.{str, obj, member, end, get_member}
use agent_control_plane.Schema.{Tables, has_workflow}
use agent_control_plane.Workflows.{latest_snapshot, get_latest_snapshot, upsert_snapshot}
use agent_control_plane.Gates.{find_gate, get_gate, scan_gate, resolve_gate}
use agent_control_plane.Receipts.{
  insert_receipt, clashes, insert_delta, delta_clashes, latest_receipt, latest_delta,
}
use agent_control_plane.Plan.Decode.{decode_string}
use agent_control_plane.Actors.{Actor}
use agent_control_plane.Commit.{
  write_records, receipt_row, delta_row, snapshot_row, commit_gate_resolution,
}
use agent_control_plane.Api.{Call, string_field}
use agent_control_plane.Api.Resume.{
  Resumption, Bridge, resumption_result, resumption_reply, resume_gate,
}
use agent_control_plane.Api.Resume.Once.{ResumesOrKeeps, resume_gate-cases, resume_gate-once}
use agent_control_plane.Examples.{plain, gated}

abbrev resumption : Resumption
resumption = record {
  is_ok = true;
  state_json = "{}";
  state_hash = "h1";
  receipt_json = "{}";
  receipt_digest = "r1";
  error = "";
  seq = 1;
}

abbrev bridge : Bridge
bridge = record { gate_resume = λ state_json actor token resolution. ok resumption }

abbrev approve : Call
approve = record {
  method = "POST";
  body = some (obj (member "resolution" (str "approved") end));
  text = "";
}

abbrev ann : Actor
ann = record {
  actor_id = "ann";
  api_key_hash = "";
  roles = none;
  allowed_agents = none;
  allowed_workflows = none;
  created_at = 0;
  updated_at = 0;
}

abbrev bob : Actor
bob = record {
  actor_id = "bob";
  api_key_hash = "";
  roles = none;
  allowed_agents = none;
  allowed_workflows = none;
  created_at = 0;
  updated_at = 0;
}

resume_gate-cases_example :
    ResumesOrKeeps plain "w" "t1" ann 7 gated gated
      (resume_gate plain bridge "w" "t1" ann 7 approve gated gated)
resume_gate-cases_example = resume_gate-cases plain "w" "t1" ann 7 bridge approve gated gated

abbrev resumed : Tables
resumed = (resume_gate plain bridge "w" "t1" ann 7 approve gated gated).1

approved : (resume_gate plain bridge "w" "t1" ann 7 approve gated gated).0.code ≡ 200
unfolding resume_gate string_field decode_string get_member get_gate find_gate scan_gate
    get_latest_snapshot latest_snapshot commit_gate_resolution transact resolve_gate write_records
    insert_receipt clashes insert_delta delta_clashes receipt_row delta_row snapshot_row
    upsert_snapshot has_workflow latest_receipt latest_delta resumption_result resumption_reply
approved = refl

resume_gate-once_example :
    (200 < (resume_gate plain bridge "w" "t1" bob 9 approve resumed resumed).0.code)
    × ((resume_gate plain bridge "w" "t1" bob 9 approve resumed resumed).1 ≡ resumed)
resume_gate-once_example =
    resume_gate-once plain bridge "w" "w" "t1" ann bob 7 9 approve approve gated gated resumed
      resumed approved refl
