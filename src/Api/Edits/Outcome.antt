-- ===== src/Api/Edits/Outcome.antt =====
-- When editState and commitArtifact of acpd/internal/api/workflows.go commit.
use agent_control_plane.Prelude.{
  ℕ, String, ◌≡◌, ◌<◌, refl, sym, ap, ◌∙◌, Bool, true, false, Option, none, some, List, ◌⊎◌, inl,
  inr, Bool-cases, Option-cases, arith, ◌==◌,
}
use agent_control_plane.Sql.{Result, ok, err}
use agent_control_plane.Json.{Json, Codec}
use agent_control_plane.Schema.{WorkflowSnapshot, Tables}
use agent_control_plane.Workflows.{get_latest_snapshot}
use agent_control_plane.Commit.Calls.{
  CommitCall, transition, artifact, run_commit, commit_atomic, call_result,
}
use agent_control_plane.Actors.{Actor}
use agent_control_plane.Api.{Call, Reply, error_reply}
use agent_control_plane.Api.Edits.{
  Patch, Edit, ArtifactCommit, Bridge, edit_params, edit_result, edit_reply, decode_patches,
  artifact_params, artifact_result, artifact_reply, artifact_or_zero, commit_replied, commit_if,
  edit_answered, edit_from, edit_state, artifact_answered, artifact_from, artifact_decoded,
  post_artifact,
}

module _ (c : Codec) (now : ℕ) where
  -- What a handler does with a transition of the bridge: it is committed and the reply is 200, or the bridge
  -- refused it, the reply is 200 all the same and nothing is changed, or the reply is an error and nothing
  -- is changed.
  abbrev pub AnswersOrKeeps : (CommitCall → Type 0) → Tables → Reply × Tables → Type 0
  AnswersOrKeeps Asked db m =
      ((call : CommitCall) × (Asked call
          × ((m.0.code ≡ 200)
              × (((call_result call).is_ok ≡ true) × (run_commit c call now db ≡ (ok tt, m.1))))))
      ⊎ (((call : CommitCall) × (Asked call
              × ((m.0.code ≡ 200) × (((call_result call).is_ok ≡ false) × (m.1 ≡ db)))))
          ⊎ ((200 < m.0.code) × (m.1 ≡ db)))

  commit_replied-cases :
      (Asked : CommitCall → Type 0) (call : CommitCall) (reply failed : Reply) (db : Tables)
      (m : Result (Unit {0}) × Tables)
      → Asked call
      → reply.code ≡ 200
      → 200 < failed.code
      → (call_result call).is_ok ≡ true
      → run_commit c call now db ≡ m
      → AnswersOrKeeps Asked db (commit_replied reply failed m)
  commit_replied-cases Asked call reply failed db (ok u, db') a r f t h =
      inl (call, (a, (r, (t, h))))
  commit_replied-cases Asked call reply failed db (err e, db') a r f t h =
      inr (inr (f, ap (λ x. x.1) (sym h) ∙ commit_atomic c now call db (ap (λ x. x.0) h)))

  pub commit_if-cases :
      (Asked : CommitCall → Type 0) (call : CommitCall) (reply failed : Reply) (db : Tables)
      → Asked call
      → reply.code ≡ 200
      → 200 < failed.code
      → (is_ok : Bool) → (call_result call).is_ok ≡ is_ok
      → AnswersOrKeeps Asked db (commit_if is_ok reply failed (run_commit c call now db) db)
  commit_if-cases Asked call reply failed db a r f true t =
      commit_replied-cases Asked call reply failed db (run_commit c call now db) a r f t refl
  commit_if-cases Asked call reply failed db a r f false t = inr (inl (call, (a, (r, (t, refl)))))

module _ (c : Codec) (br : Bridge) (snapshot_every : ℕ) (id : String) (actor : Actor) (now : ℕ)
    (db : Tables) where
  -- The transition that the bridge computes from the latest state for the patches of the body.
  pub data EditAsked (call : Call) : CommitCall → Type 0 where
    edit_asked :
        (ps : List Patch) (snap : WorkflowSnapshot) (b : Edit)
        → decode_patches call.body ≡ some ps
        → get_latest_snapshot id db ≡ some snap
        → br.transition snap.state_json actor ps ≡ ok b
        → EditAsked call (transition (edit_params snapshot_every id actor ps b))

  module _ (call : Call) (ps : List Patch) (d : decode_patches call.body ≡ some ps) where
    edit_answered-cases :
        (snap : WorkflowSnapshot) (o : Result Edit)
        → get_latest_snapshot id db ≡ some snap
        → br.transition snap.state_json actor ps ≡ o
        → AnswersOrKeeps c now
            (EditAsked call)
            db
            (edit_answered c br snapshot_every id actor now ps o db)
    unfolding error_reply edit_reply run_commit
    edit_answered-cases snap (err e) s h = inr (inr (omega arith, refl))
    edit_answered-cases snap (ok b) s h =
        commit_if-cases c now (EditAsked call)
          (transition (edit_params snapshot_every id actor ps b)) (edit_reply b)
          (error_reply 500 "commit failed") db (edit_asked ps snap b d s h) refl (omega arith)
          b.is_ok (unfold edit_params edit_result in refl)

    edit_from-cases :
        (o : Option WorkflowSnapshot)
        → get_latest_snapshot id db ≡ o
        → AnswersOrKeeps c now
            (EditAsked call)
            db
            (edit_from c br snapshot_every id actor now ps o db)
    unfolding error_reply
    edit_from-cases none s = inr (inr (omega arith, refl))
    edit_from-cases (some snap) s =
        edit_answered-cases snap (br.transition snap.state_json actor ps) s refl

  -- editState replies 200 in two cases: the bridge's program has answered ok for the latest state and the
  -- patches of the body, and that transition is committed, or it has answered that it is not ok, and nothing
  -- is changed. Every other reply is an error, and nothing is changed.
  pub edit_state-cases :
      (call : Call)
      → AnswersOrKeeps c now
          (EditAsked call)
          db
          (edit_state c br snapshot_every id actor now call db)
  unfolding edit_state error_reply
  edit_state-cases call = elim (Bool-cases (call.method == "POST")) [
    | inr n ↦ rw n (inr (inr (omega arith, refl)))
    | inl y ↦ elim (Option-cases (decode_patches call.body)) [
      | inl n ↦ rw (y, n) (inr (inr (omega arith, refl)))
      | inr (ps, d) ↦ rw (y, d) (edit_from-cases call ps d (get_latest_snapshot id db) refl)
    ]
  ]

  -- The transition that the bridge computes from the latest state for the artifact in the body.
  pub data ArtifactAsked (text : String) : CommitCall → Type 0 where
    artifact_asked :
        (snap : WorkflowSnapshot)
        → get_latest_snapshot id db ≡ some snap
        → ArtifactAsked text (
            artifact (
              artifact_params snapshot_every id actor text
                (artifact_or_zero (br.run_artifact snap.state_json actor text))))

  artifact_answered-cases :
      (text : String) (b : ArtifactCommit)
      → ArtifactAsked text (artifact (artifact_params snapshot_every id actor text b))
      → AnswersOrKeeps c now
          (ArtifactAsked text)
          db
          (artifact_answered c br snapshot_every id actor now text b db)
  unfolding error_reply artifact_reply run_commit
  artifact_answered-cases text b asked =
      commit_if-cases c now (ArtifactAsked text)
        (artifact (artifact_params snapshot_every id actor text b)) (artifact_reply b)
        (error_reply 500 "commit artifact failed") db asked refl (omega arith) b.is_ok
        (unfold artifact_params artifact_result in refl)

  artifact_from-cases :
      (text : String) (o : Option WorkflowSnapshot)
      → get_latest_snapshot id db ≡ o
      → AnswersOrKeeps c now
          (ArtifactAsked text)
          db
          (artifact_from c br snapshot_every id actor now text o db)
  unfolding error_reply
  artifact_from-cases text none s = inr (inr (omega arith, refl))
  artifact_from-cases text (some snap) s =
      artifact_answered-cases text (artifact_or_zero (br.run_artifact snap.state_json actor text))
        (artifact_asked snap s)

  artifact_decoded-cases :
      (text : String) (o : Option Json)
      → AnswersOrKeeps c now
          (ArtifactAsked text)
          db
          (artifact_decoded c br snapshot_every id actor now text o db)
  unfolding error_reply
  artifact_decoded-cases text none = inr (inr (omega arith, refl))
  artifact_decoded-cases text (some j) = artifact_from-cases text (get_latest_snapshot id db) refl

  -- commitArtifact replies 200 in two cases: the bridge's program has answered ok for the latest state and the
  -- artifact in the body, and the artifact is committed with its transition, or it has failed or answered
  -- that it is not ok, and nothing is changed. Every other reply is an error, and nothing is changed.
  pub post_artifact-cases :
      (call : Call)
      → AnswersOrKeeps c now
          (ArtifactAsked call.text)
          db
          (post_artifact c br snapshot_every id actor now call db)
  unfolding post_artifact error_reply
  post_artifact-cases call = elim (Bool-cases (call.method == "POST")) [
    | inr n ↦ rw n (inr (inr (omega arith, refl)))
    | inl y ↦ rw y (artifact_decoded-cases call.text call.body)
  ]
