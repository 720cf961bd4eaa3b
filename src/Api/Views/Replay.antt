-- ===== src/Api/Views/Replay.antt =====
-- What replayWorkflow of acpd/internal/api/workflows.go replies does not depend on later commits.
use agent_control_plane.Prelude.{ℕ, ◌<◌, String, ◌≡◌, refl, ap, ◌∙◌, true}
use agent_control_plane.Sql.{ok}
use agent_control_plane.Json.{Codec}
use agent_control_plane.Schema.{Tables}
use agent_control_plane.Workflows.{snapshot_at}
use agent_control_plane.Workflows.Earlier.{snapshot_at-stored_later}
use agent_control_plane.Commit.{snapshot_row, advance}
use agent_control_plane.Commit.Records.{recorded}
use agent_control_plane.Commit.Calls.{
  CommitCall, transition, artifact, gate, run_commit, call_workflow, call_result, call_body,
  call_more, call_base, records, recorded_of_ok,
}

module _ (c : Codec) (now : ℕ) (id : String) where
  base-snapshot_at :
      (call : CommitCall) (db : Tables)
      → snapshot_at id 0 (call_base call now db) ≡ snapshot_at id 0 db
  unfolding snapshot_at
  base-snapshot_at (transition p) db = refl
  base-snapshot_at (artifact p) db = refl
  base-snapshot_at (gate _ token resolution by r) db = refl

  recorded-snapshot_at :
      (call : CommitCall) (db : Tables)
      → 0 < (call_result call).seq
      → snapshot_at id 0 (
          recorded c
            (call_workflow call)
            (call_result call)
            (call_body c call)
            (call_more c call)
            now
            db)
        ≡ snapshot_at id 0 db
  unfolding recorded advance snapshot_at snapshot_row
  recorded-snapshot_at call db h =
      unfold snapshot_at in
      snapshot_at-stored_later id 0 (snapshot_row (call_workflow call) (call_result call) now) db h

  -- The state at number 0 stays what it is.
  pub commit-first_snapshot :
      (call : CommitCall) (db db' : Tables)
      → records call ≡ true
      → 0 < (call_result call).seq
      → run_commit c call now db ≡ (ok tt, db')
      → snapshot_at id 0 db' ≡ snapshot_at id 0 db
  commit-first_snapshot call db db' r h e =
      ap (snapshot_at id 0) (recorded_of_ok c now call db db' r e)
      ∙ recorded-snapshot_at call (call_base call now db) h
      ∙ base-snapshot_at call db
