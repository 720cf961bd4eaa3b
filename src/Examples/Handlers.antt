-- ===== src/Examples/Handlers.antt =====
-- The handlers of acpd/internal/api on small tables, with programs that always answer the same.
use agent_control_plane.Prelude.{◌≡◌, ◌≢◌, refl, true, false, none, some, ◌⊎◌, pos}
use agent_control_plane.Sql.{ok, transact}
use agent_control_plane.Json.{
  Json, bool, int, null, str, obj, arr, nil, member, end, get_member, set_member,
}
use agent_control_plane.Schema.{has_workflow}
use agent_control_plane.Workflows.{
  create_workflow, insert_workflow, upsert_snapshot, save_snapshot, get_latest_snapshot,
  latest_snapshot, snapshot_at, scan_snapshot, get_snapshot_at_seq, find_workflow,
}
use agent_control_plane.Workflows.Added.{SnapshotsOwned}
use agent_control_plane.Plan.Decode.{decode_string, decode_list, decode_items}
use agent_control_plane.Actors.{Actor}
use agent_control_plane.Commit.{
  commit_transition, write_records, receipt_row, delta_row, snapshot_row,
}
use agent_control_plane.Receipts.{
  insert_receipt, clashes, insert_delta, delta_clashes, latest_receipt, latest_delta,
}
use agent_control_plane.Api.{Call}
use agent_control_plane.Api.Create as Create
use agent_control_plane.Api.Create.{
  post_workflow, decode_request, with_id, inject_plan, first_row, first_snapshot, create_reply,
}
use agent_control_plane.Api.Create.Outcome.{IsFound, post_workflow-IsFound}
use agent_control_plane.Api.Edits as Edits
use agent_control_plane.Api.Edits.{edit_state, decode_patches, edit_params, edit_reply}
use agent_control_plane.Api.Edits.Outcome.{AnswersOrKeeps, EditAsked, edit_state-cases}
use agent_control_plane.Api.Views as Views
use agent_control_plane.Api.Views.{replay_workflow, decode_replay, baseline}
use agent_control_plane.Examples.{plain, one_workflow}

abbrev pub call : Json → Call
call body = record { method = "POST"; body = some body; text = "{}" }

abbrev pub ann : Actor
ann = record {
  actor_id = "ann";
  api_key_hash = "";
  roles = none;
  allowed_agents = none;
  allowed_workflows = none;
  created_at = 0;
  updated_at = 0;
}

owned : SnapshotsOwned one_workflow
unfolding has_workflow
owned = (refl, tt)

abbrev creating : Create.Bridge
creating = record {
  run_create = λ id goal owner plan. ok (record {
    is_ok = true;
    state_json = "{}";
    state_hash = "h0";
    receipt_json = "{}";
    receipt_digest = "r0";
    seq = 0;
  });
}

abbrev new_body : Json
new_body =
    obj (member "goal" (str "sell") (member "owner" (str "bob") (member "plan" (obj end) end)))

post_workflow-IsFound_example :
    let (reply, db') = post_workflow plain creating "12345678" 5 (call new_body) one_workflow in
    ((reply.code ≡ 200)
      × ((req : Create.CreateRequest) × ((decode_request (some new_body) ≡ some req)
            × IsFound plain creating "12345678" 5 (with_id "12345678" req) one_workflow db')))
    ⊎ ((reply.code ≢ 200) × (db' ≡ one_workflow))
post_workflow-IsFound_example =
    post_workflow-IsFound plain creating "12345678" 5 (call new_body) one_workflow owned

abbrev editing : Edits.Bridge
editing = record {
  transition = λ state actor ps. ok (record {
    is_ok = true;
    state_json = "{}";
    state_hash = "h1";
    receipt_json = "{}";
    receipt_digest = "r1";
    seq = 1;
    policy_ok = true;
    violations = null;
  });
  run_artifact = λ state actor text. ok (record {
    is_ok = false;
    digest = "";
    state_json = "";
    state_hash = "";
    receipt_json = "";
    receipt_digest = "";
    seq = 0;
  });
}

abbrev edit_body : Json
edit_body = obj (member "patches" (arr nil) end)

edit_state-cases_example :
    AnswersOrKeeps plain 7
      (EditAsked plain editing 10 "w" ann 7 one_workflow (call edit_body))
      one_workflow
      (edit_state plain editing 10 "w" ann 7 (call edit_body) one_workflow)
edit_state-cases_example = edit_state-cases plain editing 10 "w" ann 7 one_workflow (call edit_body)

abbrev viewing : Views.Bridge
viewing = record {
  dashboard = λ state artifacts. ok null;
  verify_chain =
      λ receipts. ok (record { chain_root = ""; chain_verified = true; receipt_count = 0 });
  replay = λ state actor events version. ok (str state);
}

edited : (edit_state plain editing 10 "w" ann 7 (call edit_body) one_workflow).0.code ≡ 200
unfolding edit_state decode_patches edit_params edit_reply get_latest_snapshot latest_snapshot
    scan_snapshot commit_transition transact find_workflow write_records insert_receipt clashes
    insert_delta delta_clashes receipt_row delta_row snapshot_row upsert_snapshot has_workflow
    latest_receipt latest_delta get_member decode_list decode_items
edited = refl

replayed : (replay_workflow viewing "w" ann (call (obj end)) one_workflow).value ≡ some (str "{}")
unfolding replay_workflow decode_replay baseline get_snapshot_at_seq snapshot_at scan_snapshot
    get_member decode_list decode_string
replayed = refl

made : (post_workflow plain creating "12345678" 5 (call new_body) one_workflow).0 ≡ record {
  code = 200;
  body = member "ok" (bool true) (
      member "workflow_id"
        (str "wf_12345678")
        (member "state_hash" (str "h0") (member "seq" (int (pos 0)) end)));
}
unfolding post_workflow decode_request with_id inject_plan first_row first_snapshot create_reply
    create_workflow insert_workflow has_workflow transact save_snapshot upsert_snapshot get_member
    set_member decode_string
made = refl
