-- ===== src/Commit/Success.antt =====
-- When each commit succeeds, and that a commit that fails leaves the tables as they were.
use agent_control_plane.Prelude.{
  ℕ, String, ◌≡◌, refl, true, false, none, List, [], ◌∷◌, any, find, update, inl, inr, arith,
  Option-cases, ◌==◌,
}
use agent_control_plane.Sql.{Error, no_rows, foreign_key_violation, wrapped, transact}
use agent_control_plane.Json.{arr, nil, end, strings, Codec, Members}
use agent_control_plane.Schema.{Workflow, Tables, has_workflow}
use agent_control_plane.Workflows.{is_workflow, find_workflow}
use agent_control_plane.Receipts.{latest_receipt, latest_delta}
use agent_control_plane.Receipts.Inserts.{add_artifact, insert_artifact-cases}
use agent_control_plane.Gates.{has_token, resolve_row, resolve_gate}
use agent_control_plane.Commit.{
  TransitionResult, CommitParams, ArtifactCommitParams, patches_json, delta_body, gate_body,
  patches_member, transition_labels, artifact_labels, gate_labels, artifact_row, commit_transition,
  commit_artifact, commit_gate_resolution,
}
use agent_control_plane.Commit.Records.{recorded, is_fresh, write_records-cases, RecordsOrKeeps}

find-has_workflow :
    (id : String) (wfs : List Workflow)
    → find (is_workflow id) wfs ≡ none
    → any (λ w. w.workflow_id == id) wfs ≡ false
find-has_workflow id [] h = refl
find-has_workflow id (w ∷ wfs) h = ground (arith, find-has_workflow id wfs)

abbrev unknown_workflow : Error
unknown_workflow = wrapped "get workflow for commit" no_rows

abbrev unknown_artifact : Error
unknown_artifact = wrapped "insert artifact" foreign_key_violation

module _ (now : ℕ) (db : Tables) where
  -- The tables with the artifact, where its digest is new.
  abbrev pub with_artifact : ArtifactCommitParams → Tables
  with_artifact p = record db { artifacts = add_artifact (artifact_row p now) db.artifacts }

  -- The tables with the resolved gate.
  abbrev pub with_gate : String → String → String → Tables
  with_gate token resolution by = record db {
    gates = update (has_token token) (resolve_row resolution by now) db.gates;
  }

module _ (c : Codec) (now : ℕ) (db : Tables) where
  unknown_stale :
      (id : String) (r : TransitionResult) (body more : Members)
      → has_workflow db id ≡ false
      → is_fresh c id r body more now db ≡ false
  unknown_stale id r body more h = ground arith

  -- CommitTransition with fresh keys of a known workflow is recorded; any other ends in an error and
  -- changes nothing.
  pub commit_transition-outcome :
      (p : CommitParams)
      → RecordsOrKeeps c p.workflow_id p.result
          (delta_body c p.kind p.actor_id (patches_json p.patches) nil p.result)
          (patches_member c p.patches)
          now
          (commit_transition c p now)
          db
          db
  unfolding commit_transition transact
  commit_transition-outcome p =
      let body = delta_body c p.kind p.actor_id (patches_json p.patches) nil p.result in
      let more = patches_member c p.patches in
      elim (Option-cases (find_workflow p.workflow_id db)) [
        | inl n ↦ inr (
          unknown_stale p.workflow_id p.result body more
              (unfold find_workflow has_workflow in find-has_workflow p.workflow_id db.workflows n),
          (unknown_workflow, rw n),
        )
        | inr (w, k) ↦
            elim (write_records-cases c p.workflow_id p.result body more now db transition_labels) [
              | inl (f, e) ↦ inl (f, rw (k, e))
              | inr (f, (x, partial, e)) ↦ inr (f, (x, rw (k, e)))
            ]
      ]

  -- CommitArtifact likewise, and its artifact is written with the transition or not at all.
  pub commit_artifact-outcome :
      (p : ArtifactCommitParams)
      → RecordsOrKeeps c p.workflow_id p.result
          (delta_body c "artifact_committed" p.actor_id
            (arr nil)
            (strings (p.artifact_digest ∷ []))
            p.result)
          end
          now
          (commit_artifact c p now)
          db
          (with_artifact now db p)
  unfolding commit_artifact transact latest_receipt latest_delta has_workflow recorded
  commit_artifact-outcome p =
      let body =
        delta_body c "artifact_committed" p.actor_id (arr nil) (strings (p.artifact_digest ∷ []))
          p.result in
      elim (insert_artifact-cases (artifact_row p now) db) [
        | inl (k, e) ↦
            inr (unknown_stale p.workflow_id p.result body end k, (unknown_artifact, rw e))
        | inr e ↦
            elim (write_records-cases c p.workflow_id p.result body end now (with_artifact now db p)
              artifact_labels) [
                | inl (f, g) ↦ inl (f, rw (e, g))
                | inr (f, (x, partial, g)) ↦ inr (f, (x, rw (e, g)))
              ]
      ]

  -- CommitGateResolution with an ok result likewise, and the gate is resolved with the transition or not
  -- at all.
  pub commit_gate-outcome :
      (id token resolution by : String) (r : TransitionResult)
      → r.is_ok ≡ true
      → RecordsOrKeeps c id r
          (gate_body c by r)
          end
          now
          (commit_gate_resolution c id token resolution by r now)
          db
          (with_gate now db token resolution by)
  unfolding commit_gate_resolution transact resolve_gate latest_receipt latest_delta has_workflow
      recorded
  commit_gate-outcome id token resolution by r o =
      elim (write_records-cases c id r (gate_body c by r) end now
        (with_gate now db token resolution by) gate_labels) [
          | inl (f, e) ↦ inl (f, simp (o, e))
          | inr (f, (x, partial, e)) ↦ inr (f, (x, simp (o, e)))
        ]
