-- ===== src/Api/Anchors.antt =====
-- acpd/internal/api/anchor.go: anchorWorkflow, getAnchorLog and verifyAnchor. A sequence number is a natural
-- number. The text of an error, which the code puts into the reply, is left out.
pub mod Covers
pub mod Verify
use agent_control_plane.Prelude.{
  ℕ, zero, pos, String, Bool, true, false, Option, none, some, List, [], ◌∷◌, map, ◌&&◌, ◌==◌,
  if◌then◌else◌,
}
use agent_control_plane.Sql.{Error, Result, ok, err}
use agent_control_plane.Json.{Json, null, bool, int, str, obj, Members, end, member, Codec}
use agent_control_plane.Schema.{Anchor, Receipt, Tables}
use agent_control_plane.Receipts.{get_receipts}
use agent_control_plane.Anchors.{create_anchor, list_anchors}
use agent_control_plane.Anchors.Summary.{AnchorSummary, anchor_summary}
use agent_control_plane.Anchors.Backend.{
  ExternalRef, submit, default_backend, ref_json, marshal_external_ref,
}
use agent_control_plane.Actors.{Actor}
use agent_control_plane.Api.{Call, Reply, error_reply}
use agent_control_plane.Api.Views.{Answer, shown, failed}

-- The body, whose fields are zero where they are missing; an error of the decoder is not looked at.
pub record AnchorRequest : Type 0 where
  pub seq_from : ℕ
  pub seq_to : ℕ
  pub policy_version : String

-- What anchor_payload.fard, anchor_proof.fard and anchor_verify.fard return, as far as it is read.
pub record Payload : Type 0 where
  pub payload_json : String
  pub payload_digest : String
  pub chain_root : String

pub record Proof : Type 0 where
  pub proof_json : String
  pub proof_digest : String

pub record Verification : Type 0 where
  pub is_ok : Bool
  pub root_matches : Bool

-- Bridge.RunAndUnmarshal on these three programs.
pub record Bridge : Type 0 where
  pub anchor_payload : String → (seq_from seq_to : ℕ) → List Json → String → Result Payload
  pub anchor_proof : String → ExternalRef → String → Result Proof
  pub anchor_verify : Json → List Json → Result Verification

-- json.Unmarshal into a map: it stays nil where the document is no object.
abbrev pub map_or_null : Option Json → Json
map_or_null (some (obj ms)) = obj ms
map_or_null _ = null

abbrev pub receipt_maps : Codec → List Receipt → List Json
receipt_maps c receipts = map (λ (r : Receipt). map_or_null (c.unmarshal r.receipt_json)) receipts

-- The number of the last receipt of a list that is not empty.
abbrev pub last_seq : Receipt → List Receipt → ℕ
last_seq r [] = r.seq
last_seq r (s ∷ rest) = last_seq s rest

abbrev pub or_seq : ℕ → ℕ → ℕ
or_seq zero default = default
or_seq seq default = seq

unfoldable pub with_range : ℕ → AnchorRequest → AnchorRequest
with_range last req = record {
  seq_from = or_seq req.seq_from 1;
  seq_to = or_seq req.seq_to last;
  policy_version = if req.policy_version == "" then "ACP-POLICY-1.0.0" else req.policy_version;
}

unfoldable pub anchor_row :
    Codec
    → (proof_id id : String) → AnchorRequest
    → Payload
    → ExternalRef
    → Proof
    → Actor
    → ℕ
    → Anchor
unfolding marshal_external_ref
anchor_row c proof_id id req payload ref proof actor now = record {
  proof_id = proof_id;
  workflow_id = id;
  seq_from = req.seq_from;
  seq_to = req.seq_to;
  chain_root = payload.chain_root;
  payload_digest = payload.payload_digest;
  proof_digest = proof.proof_digest;
  external_kind = ref.kind;
  external_ref = marshal_external_ref c ref;
  anchored_by = actor.actor_id;
  payload_json = payload.payload_json;
  proof_json = proof.proof_json;
  created_at = now;
}

unfoldable pub anchor_reply : (proof_id id : String) → AnchorRequest → Payload → ExternalRef → Reply
unfolding ref_json
anchor_reply proof_id id req payload ref = record {
  code = 200;
  body = member "ok" (bool true) (
      member "proof_id" (str proof_id) (
        member "workflow_id" (str id) (
          member "seq_from" (int (pos req.seq_from)) (
            member "seq_to" (int (pos req.seq_to)) (
              member "chain_root" (str payload.chain_root) (
                member "payload_digest" (str payload.payload_digest) (
                  member "external_kind" (str ref.kind)
                    (member "external_ref" (ref_json ref) end))))))));
}

-- `uuid` is a new UUID, `at` the backend's time, printed, and `now` the store's time.
module _ (c : Codec) (br : Bridge) (uuid at : String) (now : ℕ) (id : String) (actor : Actor) where
  abbrev pub anchor_stored : Reply → Result (Unit {0}) × Tables → Reply × Tables
  anchor_stored reply (ok _, db) = (reply, db)
  anchor_stored reply (err e, db) = (error_reply 500 "store anchor", db)

  abbrev pub anchor_proved :
      AnchorRequest → Payload → ExternalRef → Result Proof → Tables → Reply × Tables
  anchor_proved req payload ref (err e) db = (error_reply 500 "anchor proof bridge", db)
  anchor_proved req payload ref (ok proof) db =
      anchor_stored (anchor_reply uuid id req payload ref)
        (create_anchor (anchor_row c uuid id req payload ref proof actor now) db)

  abbrev pub anchor_submitted :
      AnchorRequest → Payload → Result ExternalRef → Tables → Reply × Tables
  anchor_submitted req payload (err e) db = (error_reply 500 "anchor backend", db)
  anchor_submitted req payload (ok ref) db =
      anchor_proved req payload ref (br.anchor_proof payload.payload_json ref actor.actor_id) db

  abbrev pub anchor_bridged : AnchorRequest → Result Payload → Tables → Reply × Tables
  anchor_bridged req (err e) db = (error_reply 500 "anchor payload bridge", db)
  anchor_bridged req (ok payload) db =
      anchor_submitted req payload
        (submit c at default_backend payload.payload_digest id req.seq_from req.seq_to) db

  abbrev pub anchor_ranged : AnchorRequest → List Receipt → Tables → Reply × Tables
  anchor_ranged req receipts db =
      anchor_bridged req
        (br.anchor_payload id req.seq_from req.seq_to (receipt_maps c receipts) req.policy_version)
        db

  abbrev pub anchor_from : AnchorRequest → List Receipt → Tables → Reply × Tables
  anchor_from req [] db = (error_reply 400 "no receipts found for workflow", db)
  anchor_from req (r ∷ rest) db = anchor_ranged (with_range (last_seq r rest) req) (r ∷ rest) db

  unfoldable pub anchor_workflow : String → AnchorRequest → Tables → Reply × Tables
  unfolding with_range anchor_row anchor_reply submit error_reply
  anchor_workflow method req db =
      if method == "POST"
      then anchor_from req (get_receipts id db) db
      else (error_reply 405 "method not allowed", db)

module _ (c : Codec) (id : String) where
  unfoldable pub show_anchor_log : String → Tables → Answer (List Anchor × AnchorSummary)
  show_anchor_log method db =
      if method == "GET" then shown (list_anchors id db, anchor_summary c id db) else failed 405

-- One entry of `proofs`: the row, and what the program answered.
pub record Checked : Type 0 where
  pub anchor : Anchor
  pub answer : Result Verification

pub record Verified : Type 0 where
  pub is_ok : Bool
  pub proofs : List Checked

abbrev pub answer_ok : Result Verification → Bool
answer_ok (err e) = false
answer_ok (ok v) = v.is_ok

module _ (c : Codec) (br : Bridge) (id : String) where
  abbrev pub check_anchor : List Json → Anchor → Checked
  check_anchor receipts a = record {
    anchor = a;
    answer = br.anchor_verify (map_or_null (c.unmarshal a.proof_json)) receipts;
  }

  -- The loop over the anchors, with allOK and the results so far at the front.
  unfoldable pub verify_loop : List Json → Bool → List Anchor → Verified
  verify_loop receipts all_ok [] = record { is_ok = all_ok; proofs = [] }
  verify_loop receipts all_ok (a ∷ rest) =
      let one = check_anchor receipts a in
      let more = verify_loop receipts (if answer_ok one.answer then all_ok else false) rest in
      record { is_ok = more.is_ok; proofs = one ∷ more.proofs }

  abbrev pub verify_from : List Anchor → List Receipt → Answer Verified
  verify_from [] receipts = failed 404
  verify_from (a ∷ rest) receipts = shown (verify_loop (receipt_maps c receipts) true (a ∷ rest))

  unfoldable pub verify_anchor : String → Tables → Answer Verified
  unfolding verify_loop
  verify_anchor method db =
      if method == "GET" then verify_from (list_anchors id db) (get_receipts id db) else failed 405
