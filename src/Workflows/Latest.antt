-- ===== src/Workflows/Latest.antt =====
-- Which snapshot the queries of acpd/internal/store/workflows.go find.
use agent_control_plane.Prelude.{
  ℕ, ◌≤◌, ◌<◌, String, ◌≡◌, ◌≢◌, ap, Bool, true, false, not, none, some, [], ◌∷◌, ◌++◌, Memᴰ, All,
  All-map, All-of, All-at, All-of-select, select, mem-select, select-append, select_comm,
  select_all, select-none, max_by, max_by-greatest, max_by-append, max_by-none, max_by-snoc,
  max_by-select, first_by-mem, leb, ◌&&◌, eq_iff, eq_refl, test_of_ne, arith, ◌∙◌, inl, inr, ◌⊎◌,
  Option-cases,
}
use mathlib.Core.List.{append-nil}
use agent_control_plane.Sql.{ok}
use agent_control_plane.Schema.{WorkflowSnapshot, Tables, has_workflow}
use agent_control_plane.Workflows.{
  same_key, upsert_snapshot, of_workflow, latest_snapshot, snapshot_at,
}

abbrev pub stored : WorkflowSnapshot → Tables → Tables
stored s db = record db { snapshots = select (λ t. not (same_key s t)) db.snapshots ++ s ∷ [] }

pub upsert_snapshot_ok :
    (s : WorkflowSnapshot) (db : Tables)
    → has_workflow db s.workflow_id ≡ true
    → upsert_snapshot s db ≡ (ok tt, stored s db)
unfolding upsert_snapshot
upsert_snapshot_ok s db h = rw h

module _ (s : WorkflowSnapshot) (db : Tables) where
  own_rows :
      select (of_workflow s.workflow_id) (stored s db).snapshots
      ≡ select (λ t. not (same_key s t)) (select (of_workflow s.workflow_id) db.snapshots) ++ s ∷ []
  own_rows =
      select-append (of_workflow s.workflow_id) (select (λ t. not (same_key s t)) db.snapshots)
        (s ∷ [])
      ∙ rw (
        select_comm (of_workflow s.workflow_id) (λ t. not (same_key s t)) db.snapshots,
        eq_refl s.workflow_id,
      )

  -- A snapshot that no other of its workflow is ahead of is the latest one once it is stored.
  pub latest-stored :
      All (λ t. of_workflow s.workflow_id t ≡ true → t.seq ≤ s.seq) db.snapshots
      → latest_snapshot s.workflow_id (stored s db) ≡ some s
  unfolding latest_snapshot
  latest-stored h =
      let own = select (of_workflow s.workflow_id) db.snapshots in
      rw own_rows (
        max_by-append (λ t. t.seq) (select (λ t. not (same_key s t)) own) s
          (All-of _ (select (λ t. not (same_key s t)) own) (λ t m.
            let m' = mem-select (λ t. not (same_key s t)) t own m in
            let m'' = mem-select (of_workflow s.workflow_id) t db.snapshots m'.0 in
            let le : t.seq ≤ s.seq =
              All-at (λ t. of_workflow s.workflow_id t ≡ true → t.seq ≤ s.seq) db.snapshots h m''.0
                m''.1 in
            let other : not (same_key s t) ≡ true = m'.1 in
            let own' : of_workflow s.workflow_id t ≡ true = m''.1 in ground arith)))

  -- A snapshot that is behind the latest one does not show.
  pub latest-stored_behind :
      (l : WorkflowSnapshot)
      → latest_snapshot s.workflow_id db ≡ some l
      → s.seq < l.seq
      → latest_snapshot s.workflow_id (stored s db) ≡ some l
  unfolding latest_snapshot
  latest-stored_behind l e h =
      let own = select (of_workflow s.workflow_id) db.snapshots in
      let kept : max_by (λ t. t.seq) (select (λ t. not (same_key s t)) own) ≡ some l =
        max_by-select (λ t. t.seq) (λ t. not (same_key s t)) own l e (ground arith) in
      rw (own_rows, max_by-snoc (λ t. t.seq) (select (λ t. not (same_key s t)) own) s, kept)
        (ground arith)

  other_rows :
      (id : String)
      → s.workflow_id ≢ id
      → select (of_workflow id) (stored s db).snapshots ≡ select (of_workflow id) db.snapshots
  other_rows id ne =
      select-append (of_workflow id) (select (λ t. not (same_key s t)) db.snapshots) (s ∷ [])
      ∙ rw
          (
            select_comm (of_workflow id) (λ t. not (same_key s t)) db.snapshots,
            test_of_ne s.workflow_id id ne,
          )
          (append-nil _
            ∙ select_all (λ t. not (same_key s t)) (select (of_workflow id) db.snapshots)
                (All-of _ (select (of_workflow id) db.snapshots) (λ t m.
                  let own : of_workflow id t ≡ true =
                    (mem-select (of_workflow id) t db.snapshots m).1 in
                  ground (
                    arith,
                    eq_iff t.workflow_id id,
                    eq_iff t.workflow_id s.workflow_id,
                    eq_iff s.workflow_id id,
                    ne,
                  ))))

  -- The snapshots of another workflow are as before.
  pub latest-stored_other :
      (id : String) → s.workflow_id ≢ id → latest_snapshot id (stored s db) ≡ latest_snapshot id db
  unfolding latest_snapshot
  latest-stored_other id ne = ap (max_by (λ t. t.seq)) (other_rows id ne)

module _ (id : String) (seq : ℕ) (db : Tables) where
  abbrev pub in_reach : WorkflowSnapshot → Bool
  in_reach s = of_workflow id s && leb s.seq seq

  -- The snapshot at a sequence number is the one of the workflow with the greatest number up to that
  -- one; there is none exactly when the workflow has none up to it.
  pub snapshot_at-greatest :
      ((snapshot_at id seq db ≡ none)
        × All (λ t. of_workflow id t && leb t.seq seq ≡ false) db.snapshots)
      ⊎ ((s : WorkflowSnapshot) × (snapshot_at id seq db ≡ some s)
          × Memᴰ s db.snapshots
          × (s.workflow_id ≡ id)
          × (s.seq ≤ seq)
          × All (λ t. t.workflow_id ≡ id → t.seq ≤ seq → t.seq ≤ s.seq) db.snapshots)
  unfolding snapshot_at
  snapshot_at-greatest = elim (Option-cases (max_by (λ s. s.seq) (select in_reach db.snapshots))) [
    | inl e ↦ inl (e, select-none in_reach db.snapshots (max_by-none (λ s. s.seq) _ e))
    | inr (s, e) ↦
        let m = mem-select in_reach s db.snapshots (first_by-mem _ _ s e) in
        let t : in_reach s ≡ true = m.1 in
        inr (
          s,
          e,
          m.0,
          (eq_iff s.workflow_id id).0 (ground arith),
          ground arith,
          All-map {P = λ t. in_reach t ≡ true → t.seq ≤ s.seq}
              (λ t f w le. f (ground (arith, eq_iff t.workflow_id id))) db.snapshots
              (All-of-select (λ t. t.seq ≤ s.seq) in_reach db.snapshots
                (max_by-greatest (λ t. t.seq) _ s e)),
        )
  ]
