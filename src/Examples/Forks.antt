-- ===== src/Examples/Forks.antt =====
-- A fork of the workflow "w".
use agent_control_plane.Prelude.{◌≡◌, refl}
use agent_control_plane.Sql.{ok, transact}
use agent_control_plane.Schema.{Tables, has_workflow}
use agent_control_plane.Workflows.{
  find_workflow, insert_workflow, upsert_snapshot, save_snapshot, snapshot_at,
}
use agent_control_plane.Branches.{create_branch}
use agent_control_plane.Branches.Fork.{
  ForkParams, ForkResult, fork_workflow, fork_snapshot, fork_branch, fork_result, write_fork,
  commit_fork,
}
use agent_control_plane.Workflows.Added.{SnapshotsOwned}
use agent_control_plane.Branches.Fork.Isolation.{IsForked, commit_fork-IsForked}
use agent_control_plane.Examples.{snapshot_of, one_workflow}

abbrev fork : ForkParams
fork = record {
  parent_workflow_id = "w";
  new_workflow_id = "v";
  branch_point_seq = 2;
  reason = "what if";
  kind = "";
}

abbrev after : Tables
after = (commit_fork fork "{}" "h2" 7 one_workflow).1

abbrev reply : ForkResult
reply = fork_result fork (snapshot_of "w" 0)

forks : commit_fork fork "{}" "h2" 7 one_workflow ≡ (ok reply, after)
unfolding commit_fork write_fork transact insert_workflow save_snapshot upsert_snapshot
    create_branch snapshot_at find_workflow fork_result has_workflow fork_workflow fork_snapshot
    fork_branch
forks = refl

owned : SnapshotsOwned one_workflow
unfolding has_workflow
owned = (refl, tt)

commit_fork-IsForked_example : IsForked fork "{}" "h2" 7 reply one_workflow after
commit_fork-IsForked_example =
    commit_fork-IsForked fork "{}" "h2" 7 reply one_workflow after owned forks
