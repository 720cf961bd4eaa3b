-- ===== src/Workflows.antt =====
-- acpd/internal/store/workflows.go: the summary rows and the snapshots of workflows.
pub mod Latest
pub mod Added
pub mod Earlier
use agent_control_plane.Prelude.{
  ℕ, zero, suc, String, Bool, not, Option, none, some, List, [], ◌∷◌, ◌++◌, map, select, any, find,
  update, max_by, sort_desc, leb, nat_eq, ◌&&◌, ◌||◌, ◌==◌, if◌then◌else◌, pos, take,
}
use agent_control_plane.Sql.{
  unique_violation, foreign_key_violation, Stmt, raise, write, wrap, ◌>>=◌,
}
use agent_control_plane.Schema.{Workflow, WorkflowSnapshot, Tables, has_workflow}
use agent_control_plane.Tasks.{parse_time, rfc3339_nano}

-- INSERT INTO workflows: the primary key is checked.
unfoldable pub insert_workflow : Workflow → Stmt Tables (Unit {0})
insert_workflow wf db =
    if has_workflow db wf.workflow_id
    then raise unique_violation db
    else write (λ db. record db { workflows = db.workflows ++ wf ∷ [] }) db

unfoldable pub create_workflow : ℕ → Workflow → Stmt Tables (Unit {0})
unfolding insert_workflow has_workflow
create_workflow now wf =
    wrap "create workflow" (insert_workflow (record wf { created_at = now; updated_at = now }))

unfoldable pub scan_workflow : Workflow → Workflow
scan_workflow wf = record wf {
  created_at = parse_time rfc3339_nano wf.created_at;
  updated_at = parse_time rfc3339_nano wf.updated_at;
}

abbrev pub is_workflow : String → Workflow → Bool
is_workflow id wf = wf.workflow_id == id

unfoldable pub find_workflow : String → Tables → Option Workflow
find_workflow id db = find (is_workflow id) db.workflows

unfoldable pub get_workflow : String → Tables → Option Workflow
unfolding find_workflow scan_workflow
get_workflow id db = elim (find_workflow id db) [ none ↦ none | some wf ↦ some (scan_workflow wf) ]

-- UPDATE workflows SET stage=?, state_hash=?, current_seq=?, snapshot_seq=?, updated_at=?
unfoldable pub advance_row : String → String → ℕ → ℕ → ℕ → Workflow → Workflow
advance_row stage hash seq snapshot_seq now wf = record wf {
  stage = stage;
  state_hash = hash;
  current_seq = seq;
  snapshot_seq = snapshot_seq;
  updated_at = now;
}

unfoldable pub update_workflow : ℕ → Workflow → Stmt Tables (Unit {0})
unfolding advance_row
update_workflow now wf = write (λ db. record db {
  workflows =
      update (is_workflow wf.workflow_id)
        (advance_row wf.stage wf.state_hash wf.current_seq wf.snapshot_seq now) db.workflows;
})

-- WHERE stage = ? unless it is "", ORDER BY updated_at DESC, LIMIT unless it is 0
abbrev pub limited : ℕ → List Workflow → List Workflow
limited zero wfs = wfs
limited (suc n) wfs = take (suc n) wfs

unfoldable pub list_workflows : String → ℕ → Tables → List Workflow
unfolding scan_workflow
list_workflows stage limit db = map scan_workflow (
    limited limit (
      sort_desc (λ wf. wf.updated_at)
        (select (λ (wf : Workflow). stage == "" || wf.stage == stage) db.workflows)))

abbrev pub same_key : WorkflowSnapshot → WorkflowSnapshot → Bool
same_key s t = t.workflow_id == s.workflow_id && nat_eq t.seq s.seq

-- INSERT OR REPLACE INTO workflow_snapshots: a row of that key is deleted first. (On Postgres it is
-- updated in place; no query tells the two apart.) The foreign key is checked.
unfoldable pub upsert_snapshot : WorkflowSnapshot → Stmt Tables (Unit {0})
upsert_snapshot s db =
    if has_workflow db s.workflow_id
    then write
        (λ db. record db { snapshots = select (λ t. not (same_key s t)) db.snapshots ++ s ∷ [] }) db
    else raise foreign_key_violation db

unfoldable pub save_snapshot : ℕ → WorkflowSnapshot → Stmt Tables (Unit {0})
unfolding upsert_snapshot
save_snapshot now s = upsert_snapshot (record s { created_at = now })

unfoldable pub scan_snapshot : WorkflowSnapshot → WorkflowSnapshot
scan_snapshot s = record s { created_at = parse_time rfc3339_nano s.created_at }

abbrev pub of_workflow : String → WorkflowSnapshot → Bool
of_workflow id s = s.workflow_id == id

-- WHERE workflow_id = ? ORDER BY seq DESC LIMIT 1
unfoldable pub latest_snapshot : String → Tables → Option WorkflowSnapshot
latest_snapshot id db = max_by (λ s. s.seq) (select (of_workflow id) db.snapshots)

unfoldable pub get_latest_snapshot : String → Tables → Option WorkflowSnapshot
unfolding latest_snapshot scan_snapshot
get_latest_snapshot id db = elim (latest_snapshot id db) [
  | none ↦ none
  | some s ↦ some (scan_snapshot s)
]

-- WHERE workflow_id = ? AND seq <= ? ORDER BY seq DESC LIMIT 1
unfoldable pub snapshot_at : String → ℕ → Tables → Option WorkflowSnapshot
snapshot_at id seq db =
    max_by (λ s. s.seq) (select (λ s. of_workflow id s && leb s.seq seq) db.snapshots)

unfoldable pub get_snapshot_at_seq : String → ℕ → Tables → Option WorkflowSnapshot
unfolding snapshot_at scan_snapshot
get_snapshot_at_seq id seq db = elim (snapshot_at id seq db) [
  | none ↦ none
  | some s ↦ some (scan_snapshot s)
]
