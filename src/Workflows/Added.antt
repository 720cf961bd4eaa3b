-- ===== src/Workflows/Added.antt =====
-- A workflow that is added to the tables of acpd/internal/store, with a first snapshot.
use agent_control_plane.Prelude.{
  ◌==◌, String, ◌≡◌, true, false, some, List, [], ◌∷◌, ◌++◌, All, All-map, any, any-append, find,
  subst, eq_iff, eq_refl, arith,
}
use agent_control_plane.Schema.{Workflow, WorkflowSnapshot, Tables, has_workflow}
use agent_control_plane.Workflows.{is_workflow, latest_snapshot}
use agent_control_plane.Workflows.Latest.{stored, latest-stored}

-- FOREIGN KEY (workflow_id): a snapshot is one of a workflow that exists.
abbrev pub SnapshotsOwned : Tables → Type 0
SnapshotsOwned db =
    All (λ (s : WorkflowSnapshot). has_workflow db s.workflow_id ≡ true) db.snapshots

abbrev pub with_row : Workflow → Tables → Tables
with_row wf db = record db { workflows = db.workflows ++ wf ∷ [] }

pub find-append_miss :
    (id : String) (wfs : List Workflow) (w : Workflow)
    → is_workflow id w ≡ false
    → find (is_workflow id) (wfs ++ w ∷ []) ≡ find (is_workflow id) wfs
find-append_miss id [] w h = rw h
find-append_miss id (v ∷ wfs) w h = ground (arith, find-append_miss id wfs w h)

pub find-append_new :
    (id : String) (wfs : List Workflow) (w : Workflow)
    → any (is_workflow id) wfs ≡ false
    → is_workflow id w ≡ true
    → find (is_workflow id) (wfs ++ w ∷ []) ≡ some w
find-append_new id [] w h t = rw t
find-append_new id (v ∷ wfs) w h t = ground (arith, find-append_new id wfs w)

pub has_workflow-with_row :
    (wf : Workflow) (db : Tables) → has_workflow (with_row wf db) wf.workflow_id ≡ true
unfolding has_workflow
has_workflow-with_row wf db =
    rw (any-append (λ (w : Workflow). w.workflow_id == wf.workflow_id) db.workflows (wf ∷ []))
      (ground (arith, eq_refl wf.workflow_id))

-- The first snapshot of a workflow that is new is its latest one.
pub latest-stored_new :
    (s : WorkflowSnapshot) (db : Tables)
    → SnapshotsOwned db
    → has_workflow db s.workflow_id ≡ false
    → latest_snapshot s.workflow_id (stored s db) ≡ some s
latest-stored_new s db o f = latest-stored s db (
    All-map {P = λ (t : WorkflowSnapshot). has_workflow db t.workflow_id ≡ true}
      (λ t k own.
        let same : t.workflow_id ≡ s.workflow_id = (eq_iff t.workflow_id s.workflow_id).0 own in
        let k' : has_workflow db s.workflow_id ≡ true =
          subst (λ id. has_workflow db id ≡ true) same k in
        absurd (cc (f, k')))
      db.snapshots o)
