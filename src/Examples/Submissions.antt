-- ===== src/Examples/Submissions.antt =====
-- A fork and an anchor that are asked for over HTTP.
use agent_control_plane.Prelude.{
  ◌==◌, false, ◌≤◌, ◌≡◌, ◌≢◌, refl, true, none, some, [], ◌∷◌, ◌⊎◌, sort_by,
}
use agent_control_plane.Sql.{ok}
use agent_control_plane.Json.{Json, str, obj, member, end}
use agent_control_plane.Schema.{Receipt, Tables}
use agent_control_plane.Receipts.{get_receipts, scan_receipt}
use agent_control_plane.Anchors.{create_anchor, list_anchors, get_anchor_gaps}
use agent_control_plane.Anchors.Backend.{submit, local_anchor, marshal_external_ref, ref_json}
use agent_control_plane.Api.Forks as Forks
use agent_control_plane.Api.Forks.{ForkRequest, decode_fork, with_defaults, post_fork}
use agent_control_plane.Api.Forks.Outcome.{ForksOrKeeps, post_fork-cases}
use agent_control_plane.Api.Anchors as Anchors
use agent_control_plane.Api.Anchors.{
  AnchorRequest, Verified, anchor_workflow, verify_anchor, receipt_maps, with_range, anchor_row,
  anchor_reply, last_seq,
}
use agent_control_plane.Api.Anchors.Covers.{anchor_workflow-no_gaps}
use agent_control_plane.Api.Anchors.Verify.{Verifies, verify_anchor-Verifies}
use agent_control_plane.Examples.{plain, one_workflow}
use agent_control_plane.Examples.Handlers.{call, ann}

abbrev forking : Forks.Bridge
forking = record {
  fork = λ state id seq reason.
      ok (record { is_ok = true; state_json = "{ \"seq\": 0 }"; state_hash = "" });
}

abbrev fork_body : Json
fork_body = obj (member "reason" (str "what if") end)

post_fork-cases_example :
    ((req : ForkRequest) × ((decode_fork (some fork_body) ≡ some req)
        × ForksOrKeeps plain forking "w"
            (with_defaults "12345678" req)
            one_workflow
            5
            (post_fork plain forking "12345678" 5 "w" (call fork_body) one_workflow)))
    ⊎ (((((call fork_body).method == "POST") ≡ false) ⊎ (decode_fork (some fork_body) ≡ none))
        × ((400 ≤ (post_fork plain forking "12345678" 5 "w" (call fork_body) one_workflow).0.code)
            × ((post_fork plain forking "12345678" 5 "w" (call fork_body) one_workflow).1
                ≡ one_workflow)))
post_fork-cases_example =
    post_fork-cases plain forking "12345678" 5 "w" (call fork_body) one_workflow

abbrev receipt : Receipt
receipt = record {
  workflow_id = "w";
  seq = 3;
  receipt_digest = "r3";
  receipt_json = "{}";
  prev_receipt_digest = none;
  created_at = 4;
}

abbrev received : Tables
received = record one_workflow { receipts = receipt ∷ [] }

abbrev anchoring : Anchors.Bridge
anchoring = record {
  anchor_payload = λ id from to receipts version.
      ok (record { payload_json = "{}"; payload_digest = "p1"; chain_root = "c1" });
  anchor_proof = λ payload ref by. ok (record { proof_json = "{}"; proof_digest = "d1" });
  anchor_verify = λ proof receipts. ok (record { is_ok = true; root_matches = true });
}

abbrev whole : AnchorRequest
whole = record { seq_from = 0; seq_to = 0; policy_version = "" }

abbrev read_receipt : Receipt
read_receipt = scan_receipt receipt

anchored_ok :
    (anchor_workflow plain anchoring "u1" "now" 7 "w" ann "POST" whole received).0.code ≡ 200
unfolding anchor_workflow with_range anchor_row anchor_reply submit local_anchor
    marshal_external_ref ref_json get_receipts scan_receipt create_anchor sort_by
anchored_ok = refl

receipts_found : get_receipts "w" received ≡ read_receipt ∷ []
unfolding get_receipts sort_by
receipts_found = refl

anchor_workflow-no_gaps_example :
    get_anchor_gaps "w"
      (last_seq read_receipt [])
      (anchor_workflow plain anchoring "u1" "now" 7 "w" ann "POST" whole received).1
    ≡ []
anchor_workflow-no_gaps_example =
    anchor_workflow-no_gaps plain anchoring "u1" "now" 7 "w" ann "POST" whole received read_receipt
      [] refl refl receipts_found anchored_ok

abbrev anchored_tables : Tables
anchored_tables = (anchor_workflow plain anchoring "u1" "now" 7 "w" ann "POST" whole received).1

log_filled : list_anchors "w" anchored_tables ≢ []
unfolding anchor_workflow with_range anchor_row anchor_reply submit local_anchor
    marshal_external_ref ref_json get_receipts scan_receipt create_anchor list_anchors sort_by
log_filled = cc

verify_anchor-Verifies_example :
    (v : Verified) × ((verify_anchor plain anchoring "w" "GET" anchored_tables
        ≡ record { code = 200; value = some v })
      × Verifies plain anchoring "w"
          (receipt_maps plain (get_receipts "w" anchored_tables))
          (list_anchors "w" anchored_tables)
          v)
verify_anchor-Verifies_example =
    verify_anchor-Verifies plain anchoring "w" anchored_tables log_filled
