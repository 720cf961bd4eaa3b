-- ===== src/Branches/Fork.antt =====
-- acpd/internal/store/branches.go: CommitFork.
pub mod Outcome
pub mod Isolation
use Prim.Native.String.{◌++◌, len, slice, find}
use Prim.Native.Nat.{◌+◌}
use agent_control_plane.Prelude.{ℕ, String, Option, none, some, leb, ◌==◌, if◌then◌else◌}
use agent_control_plane.Sql.{absent, wrapped, Stmt, pure, raise, wrap, transact, ◌>>=◌, ◌>>◌}
use agent_control_plane.Schema.{Workflow, WorkflowSnapshot, Branch, Tables}
use agent_control_plane.Workflows.{find_workflow, insert_workflow, save_snapshot, snapshot_at}
use agent_control_plane.Branches.{kind_or_fork, create_branch}

pub record ForkParams : Type 0 where
  pub parent_workflow_id : String
  pub new_workflow_id : String
  pub branch_point_seq : ℕ
  pub reason : String
  pub kind : String

pub record ForkResult : Type 0 where
  pub branch_id : String
  pub new_workflow_id : String
  pub branch_point_seq : ℕ
  pub branch_point_hash : String

-- strings.Replace(text, old, new, 1): `find` returns a position past the end where there is none.
unfoldable pub replace_first : String → String → String → String
replace_first text old new =
    let i = find text old in
    if leb i (len text) then slice text 0 i ++ new ++ slice text (i + len old) (len text) else text

abbrev pub fork_goal : Workflow → String → String → String
fork_goal parent kind reason = parent.goal ++ " [" ++ kind ++ ": " ++ reason ++ "]"

unfoldable pub fork_workflow : ForkParams → Workflow → String → ℕ → Workflow
fork_workflow p parent hash now = record {
  workflow_id = p.new_workflow_id;
  goal = fork_goal parent (kind_or_fork p.kind) p.reason;
  owner = parent.owner;
  stage = parent.stage;
  state_hash = hash;
  current_seq = 0;
  snapshot_seq = 0;
  created_at = now;
  updated_at = now;
}

unfoldable pub fork_snapshot : ForkParams → String → String → ℕ → WorkflowSnapshot
unfolding replace_first
fork_snapshot p state_json hash now = record {
  workflow_id = p.new_workflow_id;
  seq = 0;
  state_json = replace_first state_json "\"lineage\":null" "\"lineage\":{}";
  state_hash = hash;
  created_at = now;
}

unfoldable pub fork_branch : ForkParams → WorkflowSnapshot → ℕ → Branch
fork_branch p snap now = record {
  branch_id = p.new_workflow_id;
  parent_id = p.parent_workflow_id;
  branch_point_seq = p.branch_point_seq;
  branch_point_hash = snap.state_hash;
  reason = p.reason;
  kind = kind_or_fork p.kind;
  created_at = now;
}

unfoldable pub fork_result : ForkParams → WorkflowSnapshot → ForkResult
fork_result p snap = record {
  branch_id = p.new_workflow_id;
  new_workflow_id = p.new_workflow_id;
  branch_point_seq = p.branch_point_seq;
  branch_point_hash = snap.state_hash;
}

-- The body of the transaction.
unfoldable pub write_fork :
    ForkParams → String → String → WorkflowSnapshot → Workflow → ℕ → Stmt Tables (Unit {0})
unfolding fork_workflow fork_snapshot fork_branch
write_fork p state_json hash snap parent now = do
  wrap "create forked workflow" (insert_workflow (fork_workflow p parent hash now))
  wrap "save fork snapshot" (save_snapshot now (fork_snapshot p state_json hash now))
  wrap "create branch record" (create_branch now (fork_branch p snap now))

-- The two queries come before the transaction.
abbrev pub fork_from :
    ForkParams
    → String
    → String
    → ℕ
    → Option WorkflowSnapshot
    → Option Workflow
    → Stmt Tables ForkResult
fork_from p state_json hash now none parent = raise (wrapped "get parent snapshot at seq" absent)
fork_from p state_json hash now (some snap) none = raise (wrapped "get parent workflow" absent)
fork_from p state_json hash now (some snap) (some parent) = do
  transact (write_fork p state_json hash snap parent now)
  pure (fork_result p snap)

unfoldable pub commit_fork : ForkParams → String → String → ℕ → Stmt Tables ForkResult
unfolding write_fork fork_result snapshot_at
commit_fork p state_json hash now db =
    fork_from p state_json hash now (snapshot_at p.parent_workflow_id p.branch_point_seq db)
      (find_workflow p.parent_workflow_id db) db
