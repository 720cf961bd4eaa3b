-- ===== src/Commit.antt =====
-- acpd/internal/store/commit.go: a transition's receipt, delta, snapshot and summary row are written in
-- one transaction.
pub mod Records
pub mod Success
pub mod Chain
pub mod Calls
pub mod After
use Prim.Native.String.{len}
use agent_control_plane.Prelude.{
  ℕ, ◌+◌, String, Bool, true, false, Option, none, some, List, [], ◌∷◌, update, pos, nat_eq, ◌==◌,
  if◌then◌else◌,
}
use agent_control_plane.Sql.{no_rows, Stmt, pure, raise, gets, write, wrap, transact, ◌>>=◌, ◌>>◌}
use agent_control_plane.Json.{
  Json, null, bool, int, str, arr, obj, Items, nil, Members, end, member, set_member, strings,
  Codec, hash_bytes, string_member,
}
use agent_control_plane.Schema.{Workflow, WorkflowSnapshot, Delta, Receipt, Artifact, Tables}
use agent_control_plane.Workflows.{is_workflow, find_workflow, advance_row, upsert_snapshot}
use agent_control_plane.Receipts.{
  insert_receipt, latest_receipt, digest_of, insert_delta, latest_delta, hash_of, insert_artifact,
}
use agent_control_plane.Gates.{resolve_gate}

-- What the bridge returns for one transition.
pub record TransitionResult : Type 0 where
  pub is_ok : Bool
  pub state_json : String
  pub state_hash : String
  pub receipt_json : String
  pub receipt_digest : String
  pub policy_ok : Bool
  pub violations : String
  pub seq : ℕ
  pub stage : String

pub record CommitParams : Type 0 where
  pub workflow_id : String
  pub result : TransitionResult
  pub patches : Option Items
  pub kind : String
  pub actor_id : String
  pub snapshot_every : ℕ

pub record ArtifactCommitParams : Type 0 where
  pub workflow_id : String
  pub artifact_json : String
  pub artifact_digest : String
  pub result : TransitionResult
  pub actor_id : String
  pub snapshot_every : ℕ

-- The words that an error of each statement is wrapped in.
pub record Labels : Type 0 where
  pub receipt : String
  pub delta : String
  pub snapshot : String

unfoldable pub receipt_row : String → TransitionResult → Option String → ℕ → Receipt
receipt_row id r prev now = record {
  workflow_id = id;
  seq = r.seq;
  receipt_digest = r.receipt_digest;
  receipt_json = r.receipt_json;
  prev_receipt_digest = prev;
  created_at = now;
}

unfoldable pub snapshot_row : String → TransitionResult → ℕ → WorkflowSnapshot
snapshot_row id r now = record {
  workflow_id = id;
  seq = r.seq;
  state_json = r.state_json;
  state_hash = r.state_hash;
  created_at = now;
}

-- A nil slice is marshalled as null.
abbrev pub patches_json : Option Items → Json
patches_json none = null
patches_json (some js) = arr js

abbrev pub transition_labels : Labels
transition_labels = record {
  receipt = "insert receipt";
  delta = "insert delta";
  snapshot = "insert snapshot";
}

abbrev pub artifact_labels : Labels
artifact_labels = record {
  receipt = "insert artifact receipt";
  delta = "insert artifact delta";
  snapshot = "insert artifact snapshot";
}

abbrev pub gate_labels : Labels
gate_labels = record { receipt = "gate receipt"; delta = "gate delta"; snapshot = "gate snapshot" }

unfoldable pub artifact_row : ArtifactCommitParams → ℕ → Artifact
artifact_row p now = record {
  digest = p.artifact_digest;
  workflow_id = p.workflow_id;
  artifact_json = p.artifact_json;
  content_ref = none;
  created_at = now;
}

-- A result that is not ok moves the summary row alone; its stage and its sequence number are the
-- result's, and the snapshot's number stays.
unfoldable pub reject_row : TransitionResult → ℕ → Workflow → Workflow
reject_row r now wf = record wf {
  stage = r.stage;
  state_hash = r.state_hash;
  current_seq = r.seq;
  updated_at = now;
}

abbrev pub known_workflow : Option Workflow → Stmt Tables (Unit {0})
known_workflow none = raise no_rows
known_workflow (some wf) = pure tt

module _ (c : Codec) where
  -- The stage of the result, or else the one in the state's document, or else "".
  unfoldable pub stage_of : TransitionResult → String
  unfolding string_member
  stage_of r =
      if r.stage == ""
      then elim (string_member c "stage" r.state_json) [ none ↦ "" | some s ↦ s ]
      else r.stage

  -- deltaBody["state_before_hash"], from the receipt's document, or else ""
  unfoldable pub before_hash : TransitionResult → String
  unfolding string_member
  before_hash r = elim (string_member c "state_before_hash" r.receipt_json) [
    | none ↦ ""
    | some s ↦ s
  ]

  unfoldable pub delta_body : String → String → Json → Items → TransitionResult → Members
  unfolding before_hash
  delta_body kind actor patches digests r = member "delta_type" (str "acp.delta.v1") (
      member "seq" (int (pos r.seq)) (
        member "kind" (str kind) (
          member "actor" (str actor) (
            member "patches" patches (
              member "artifact_digests" (arr digests) (
                member "state_before_hash" (str (before_hash r)) (
                  member "state_after_hash" (str r.state_hash)
                    (member "receipt_digest" (str r.receipt_digest) end))))))))

  -- The delta of a gate has no state_before_hash.
  unfoldable pub gate_body : String → TransitionResult → Members
  gate_body actor r = member "delta_type" (str "acp.delta.v1") (
      member "seq" (int (pos r.seq)) (
        member "kind" (str "gate_resume") (
          member "actor" (str actor) (
            member "patches" (arr nil) (
              member "artifact_digests" (arr nil) (
                member "state_after_hash" (str r.state_hash)
                  (member "receipt_digest" (str r.receipt_digest) end)))))))

  unfoldable pub body_hash : Members → String
  unfolding hash_bytes
  body_hash body = hash_bytes c (c.marshal (obj body))

  -- {"delta": body, "delta_hash": hash} and, for a transition, "patches": the document of the patches.
  unfoldable pub delta_document : Members → Members → String
  unfolding body_hash
  delta_document body more =
      c.marshal (obj (member "delta" (obj body) (member "delta_hash" (str (body_hash body)) more)))

  unfoldable pub delta_row :
      String → TransitionResult → Members → Members → Option String → ℕ → Delta
  unfolding body_hash delta_document
  delta_row id r body more prev now = record {
    workflow_id = id;
    seq = r.seq;
    delta_json = delta_document body more;
    delta_hash = body_hash body;
    prev_delta_hash = prev;
    created_at = now;
  }

  unfoldable pub advance : String → TransitionResult → ℕ → Tables → Tables
  unfolding stage_of advance_row
  advance id r now db = record db {
    workflows =
        update (is_workflow id) (advance_row (stage_of r) r.state_hash r.seq r.seq now)
          db.workflows;
  }

  -- The statements that the three commits share: the previous digests are read, and the receipt, the
  -- delta, the snapshot and the summary row are written.
  unfoldable pub write_records :
      Labels → String → TransitionResult → Members → Members → ℕ → Stmt Tables (Unit {0})
  unfolding receipt_row delta_row snapshot_row advance
  write_records labels id r body more now = do
    prev_receipt ← gets (λ db. digest_of (latest_receipt id db))
    prev_delta ← gets (λ db. hash_of (latest_delta id db))
    wrap labels.receipt (insert_receipt (receipt_row id r prev_receipt now))
    wrap labels.delta (insert_delta (delta_row id r body more prev_delta now))
    wrap labels.snapshot (upsert_snapshot (snapshot_row id r now))
    write (advance id r now)

  unfoldable pub patches_member : Option Items → Members
  patches_member patches = member "patches" (str (c.marshal (patches_json patches))) end

  unfoldable pub commit_transition : CommitParams → ℕ → Stmt Tables (Unit {0})
  unfolding write_records delta_body patches_member
  commit_transition p now = transact (do
    wf ← gets (find_workflow p.workflow_id)
    wrap "get workflow for commit" (known_workflow wf)
    write_records transition_labels p.workflow_id p.result
        (delta_body p.kind p.actor_id (patches_json p.patches) nil p.result)
        (patches_member p.patches) now)

  unfoldable pub commit_artifact : ArtifactCommitParams → ℕ → Stmt Tables (Unit {0})
  unfolding write_records delta_body artifact_row
  commit_artifact p now = transact (do
    wrap "insert artifact" (insert_artifact (artifact_row p now))
    write_records artifact_labels p.workflow_id p.result
        (delta_body "artifact_committed" p.actor_id (arr nil) (strings (p.artifact_digest ∷ []))
          p.result)
        end now)

  unfoldable pub commit_gate_resolution :
      String → String → String → String → TransitionResult → ℕ → Stmt Tables (Unit {0})
  unfolding write_records gate_body reject_row
  commit_gate_resolution id token resolution by r now = transact (do
    wrap "resolve gate" (resolve_gate token resolution by now)
    if r.is_ok
        then write_records gate_labels id r (gate_body by r) end now
        else write (λ db. record db {
          workflows = update (is_workflow id) (reject_row r now) db.workflows;
        }))
