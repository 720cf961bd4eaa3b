-- ===== src/Branches/Fork/Outcome.antt =====
-- When CommitFork of acpd/internal/store/branches.go succeeds, and what the tables are then.
use agent_control_plane.Prelude.{
  ℕ, String, ◌≡◌, Bool, true, false, none, some, [], ◌∷◌, ◌++◌, ◌⊎◌, inl, inr, any, any-append, not,
  ◌&&◌, Bool-cases, Option-cases, eq_refl, arith, ◌==◌,
}
use agent_control_plane.Sql.{Error, absent, wrapped, unique_violation, Result, ok, err, transact}
use agent_control_plane.Schema.{Workflow, WorkflowSnapshot, Tables, has_workflow}
use agent_control_plane.Workflows.{find_workflow, insert_workflow, save_snapshot, snapshot_at}
use agent_control_plane.Workflows.Latest.{stored, upsert_snapshot_ok}
use agent_control_plane.Branches.{kind_or_fork, create_branch, has_branch_id}
use agent_control_plane.Branches.Fork.{
  ForkParams, ForkResult, fork_workflow, fork_snapshot, fork_branch, fork_result, write_fork,
  commit_fork,
}

module _ (p : ForkParams) where
  -- The new id names neither a workflow nor a branch.
  abbrev pub is_free : Tables → Bool
  is_free db =
      not (has_workflow db p.new_workflow_id)
      && not (any (has_branch_id p.new_workflow_id) db.branches)

  -- A state to fork from or the parent is missing, or the new id is taken.
  abbrev pub CannotFork : Tables → Type 0
  CannotFork db =
      (snapshot_at p.parent_workflow_id p.branch_point_seq db ≡ none)
      ⊎ ((find_workflow p.parent_workflow_id db ≡ none) ⊎ (is_free db ≡ false))

module _ (p : ForkParams) (state_json hash : String) (now : ℕ) where
  abbrev pub with_workflow : Workflow → Tables → Tables
  with_workflow parent db = record db {
    workflows = db.workflows ++ fork_workflow p parent hash now ∷ [];
  }

  -- The tables with the forked workflow, its first snapshot and the record of the branch.
  abbrev pub forked : WorkflowSnapshot → Workflow → Tables → Tables
  forked snap parent db = record db {
    workflows = db.workflows ++ fork_workflow p parent hash now ∷ [];
    snapshots = (stored (fork_snapshot p state_json hash now) db).snapshots;
    branches = db.branches ++ fork_branch p snap now ∷ [];
  }

  has_with_workflow :
      (parent : Workflow) (db : Tables)
      → has_workflow (with_workflow parent db) p.new_workflow_id ≡ true
  unfolding has_workflow fork_workflow
  has_with_workflow parent db =
      rw
        (any-append (λ (w : Workflow). w.workflow_id == p.new_workflow_id) db.workflows
          (fork_workflow p parent hash now ∷ []))
        (ground (arith, eq_refl p.new_workflow_id))

  module _ (snap : WorkflowSnapshot) (parent : Workflow) (db : Tables) where
    insert_free :
        has_workflow db p.new_workflow_id ≡ false
        → insert_workflow (fork_workflow p parent hash now) db ≡ (ok tt, with_workflow parent db)
    unfolding insert_workflow fork_workflow
    insert_free h = rw h

    insert_taken :
        has_workflow db p.new_workflow_id ≡ true
        → insert_workflow (fork_workflow p parent hash now) db ≡ (err unique_violation, db)
    unfolding insert_workflow fork_workflow
    insert_taken h = rw h

    -- The tables after the first two statements.
    abbrev with_snapshot : Tables
    with_snapshot = stored (fork_snapshot p state_json hash now) (with_workflow parent db)

    save_ok :
        save_snapshot now (fork_snapshot p state_json hash now) (with_workflow parent db)
        ≡ (ok tt, with_snapshot)
    unfolding save_snapshot fork_snapshot
    save_ok =
        upsert_snapshot_ok (fork_snapshot p state_json hash now) (with_workflow parent db)
          (has_with_workflow parent db)

    branch_free :
        any (has_branch_id p.new_workflow_id) db.branches ≡ false
        → create_branch now (fork_branch p snap now) with_snapshot ≡ (ok tt, forked snap parent db)
    unfolding create_branch fork_branch
    branch_free h =
        let again : kind_or_fork (kind_or_fork p.kind) ≡ kind_or_fork p.kind = ground arith in
        rw (h, again)

    branch_taken :
        any (has_branch_id p.new_workflow_id) db.branches ≡ true
        → create_branch now (fork_branch p snap now) with_snapshot
          ≡ (err unique_violation, with_snapshot)
    unfolding create_branch fork_branch
    branch_taken h = rw h

    write_fork-cases :
        ((is_free p db ≡ true)
          × (write_fork p state_json hash snap parent now db ≡ (ok tt, forked snap parent db)))
        ⊎ ((is_free p db ≡ false)
            × ((e : Error) × ((partial : Tables) × (write_fork p state_json hash snap parent now db
                    ≡ (err e, partial)))))
    unfolding write_fork
    write_fork-cases = elim (Bool-cases (has_workflow db p.new_workflow_id)) [
      | inl t ↦
          inr (rw t, (wrapped "create forked workflow" unique_violation, (db, rw (insert_taken t))))
      | inr f ↦ elim (Bool-cases (any (has_branch_id p.new_workflow_id) db.branches)) [
        | inl t ↦ inr (
          rw (f, t),
          (
            wrapped "create branch record" unique_violation,
            (with_snapshot, rw (insert_free f, save_ok, branch_taken t)),
          ),
        )
        | inr g ↦ inl (rw (f, g), rw (insert_free f, save_ok, branch_free g))
      ]
    ]

  -- The fork that the queries allow: the state at or before the point, and the parent.
  pub record ForksFrom (db : Tables) (m : Result ForkResult × Tables) : Type 0 where
    pub snap : WorkflowSnapshot
    pub parent : Workflow
    pub point : snapshot_at p.parent_workflow_id p.branch_point_seq db ≡ some snap
    pub origin : find_workflow p.parent_workflow_id db ≡ some parent
    pub free : is_free p db ≡ true
    pub forks : m ≡ (ok (fork_result p snap), forked snap parent db)

  keeps :
      (snap : WorkflowSnapshot) (parent : Workflow) (db : Tables)
      → snapshot_at p.parent_workflow_id p.branch_point_seq db ≡ some snap
      → find_workflow p.parent_workflow_id db ≡ some parent
      → ForksFrom db (commit_fork p state_json hash now db)
        ⊎ ((is_free p db ≡ false)
            × ((e : Error) × (commit_fork p state_json hash now db ≡ (err e, db))))
  unfolding commit_fork transact
  keeps snap parent db k o = elim (write_fork-cases snap parent db) [
    | inl (f, e) ↦ inl (record {
      snap = snap;
      parent = parent;
      point = k;
      origin = o;
      free = f;
      forks = rw (k, o, e);
    })
    | inr (f, (x, (partial, e))) ↦ inr (f, (x, rw (k, o, e)))
  ]

  -- CommitFork succeeds where the parent has a state at or before the branch point and the new id is
  -- free, and then writes the new workflow, its snapshot and the branch; in every other case it ends in an
  -- error and changes nothing.
  pub commit_fork-outcome :
      (db : Tables)
      → ForksFrom db (commit_fork p state_json hash now db)
        ⊎ (CannotFork p db × ((e : Error) × (commit_fork p state_json hash now db ≡ (err e, db))))
  unfolding commit_fork
  commit_fork-outcome db =
      elim (Option-cases (snapshot_at p.parent_workflow_id p.branch_point_seq db)) [
        | inl n ↦ inr (inl n, (wrapped "get parent snapshot at seq" absent, rw n))
        | inr (snap, k) ↦ elim (Option-cases (find_workflow p.parent_workflow_id db)) [
          | inl n ↦ inr (inr (inl n), (wrapped "get parent workflow" absent, rw (k, n)))
          | inr (parent, o) ↦ elim (keeps snap parent db k o) [
            | inl f ↦ inl f
            | inr (f, x) ↦ inr (inr (inr f), x)
          ]
        ]
      ]
