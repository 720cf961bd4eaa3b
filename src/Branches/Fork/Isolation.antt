-- ===== src/Branches/Fork/Isolation.antt =====
-- A fork of acpd/internal/store/branches.go starts a workflow of its own and leaves every other alone.
use agent_control_plane.Prelude.{
  ℕ, String, ◌≡◌, ◌≢◌, sym, ap, subst, true, some, inl, inr, eq_refl, test_of_ne, arith,
}
use agent_control_plane.Sql.{ok}
use agent_control_plane.Schema.{Workflow, WorkflowSnapshot, Tables, has_workflow}
use agent_control_plane.Workflows.{find_workflow, latest_snapshot}
use agent_control_plane.Workflows.Latest.{latest-stored_other}
use agent_control_plane.Workflows.Added.{
  SnapshotsOwned, find-append_miss, find-append_new, latest-stored_new,
}
use agent_control_plane.Branches.Fork.{
  ForkParams, ForkResult, fork_workflow, fork_snapshot, commit_fork,
}
use agent_control_plane.Branches.Fork.Outcome.{ForksFrom, forked, is_free, commit_fork-outcome}

module _ (p : ForkParams) (state_json hash : String) (now : ℕ) where
  -- What the queries find of the workflow `id` after a fork.
  pub record IsForked (r : ForkResult) (db db' : Tables) : Type 0 where
    pub parent : Workflow
    pub origin : find_workflow p.parent_workflow_id db ≡ some parent
    pub summary : find_workflow p.new_workflow_id db' ≡ some (fork_workflow p parent hash now)
    pub state : latest_snapshot p.new_workflow_id db' ≡ some (fork_snapshot p state_json hash now)
    pub others :
        (id : String)
        → p.new_workflow_id ≢ id
        → (find_workflow id db' ≡ find_workflow id db)
          × (latest_snapshot id db' ≡ latest_snapshot id db)

  ok_forks :
      (r : ForkResult) (db db' : Tables)
      → commit_fork p state_json hash now db ≡ (ok r, db')
      → ForksFrom p state_json hash now db (ok r, db')
  ok_forks r db db' h = elim (commit_fork-outcome p state_json hash now db) [
    | inl f ↦ subst (ForksFrom p state_json hash now db) h f
    | inr (_, (e, k)) ↦ absurd (cc (h, k))
  ]

  module _ (snap : WorkflowSnapshot) (parent : Workflow) (db : Tables) where
    abbrev after : Tables
    after = forked p state_json hash now snap parent db

    summary_new :
        is_free p db ≡ true
        → find_workflow p.new_workflow_id after ≡ some (fork_workflow p parent hash now)
    unfolding find_workflow fork_workflow has_workflow
    summary_new f =
        find-append_new p.new_workflow_id db.workflows (fork_workflow p parent hash now)
          (ground arith) (eq_refl p.new_workflow_id)

    state_new :
        SnapshotsOwned db
        → is_free p db ≡ true
        → latest_snapshot p.new_workflow_id after ≡ some (fork_snapshot p state_json hash now)
    unfolding fork_snapshot latest_snapshot
    state_new o f = latest-stored_new (fork_snapshot p state_json hash now) db o (ground arith)

    others_kept :
        (id : String)
        → p.new_workflow_id ≢ id
        → (find_workflow id after ≡ find_workflow id db)
          × (latest_snapshot id after ≡ latest_snapshot id db)
    unfolding find_workflow fork_workflow fork_snapshot latest_snapshot
    others_kept id ne = (
      find-append_miss id db.workflows (fork_workflow p parent hash now)
          (test_of_ne p.new_workflow_id id ne),
      latest-stored_other (fork_snapshot p state_json hash now) db id ne,
    )

  -- After a fork that succeeds, on tables whose snapshots all belong to workflows, the new workflow is
  -- found with the parent's stage and owner at number 0, its latest snapshot is the forked state, and the
  -- summary row and the latest snapshot of every other workflow, the parent's too, are as before.
  pub commit_fork-IsForked :
      (r : ForkResult) (db db' : Tables)
      → SnapshotsOwned db
      → commit_fork p state_json hash now db ≡ (ok r, db')
      → IsForked r db db'
  commit_fork-IsForked r db db' o h =
      let f = ok_forks r db db' h in
      let same : db' ≡ after f.snap f.parent db = ap (λ x. x.1) f.forks in
      record {
        parent = f.parent;
        origin = f.origin;
        summary =
            subst
              (λ d. find_workflow p.new_workflow_id d ≡ some (fork_workflow p f.parent hash now))
              (sym same) (summary_new f.snap f.parent db f.free);
        state =
            subst
              (λ d.
                latest_snapshot p.new_workflow_id d ≡ some (fork_snapshot p state_json hash now))
              (sym same) (state_new f.snap f.parent db o f.free);
        others = λ id ne.
            subst
              (λ d.
                (find_workflow id d ≡ find_workflow id db)
                × (latest_snapshot id d ≡ latest_snapshot id db))
              (sym same) (others_kept f.snap f.parent db id ne);
      }
