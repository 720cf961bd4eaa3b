-- ===== src/Workflows/Earlier.antt =====
-- What the queries of acpd/internal/store/workflows.go find at a number does not depend on later snapshots.
use agent_control_plane.Prelude.{
  ℕ, ◌<◌, String, ◌≡◌, ap, ◌∙◌, true, false, [], ◌∷◌, not, All-of, select, mem-select,
  select-append, select_comm, select_all, max_by, mapped, some, arith,
}
use mathlib.Core.List.{append-nil}
use agent_control_plane.Schema.{WorkflowSnapshot, Tables}
use agent_control_plane.Workflows.{same_key, snapshot_at, scan_snapshot, get_snapshot_at_seq}
use agent_control_plane.Workflows.Latest.{stored, in_reach}

module _ (id : String) (seq : ℕ) (s : WorkflowSnapshot) (db : Tables) (later : seq < s.seq) where
  misses : in_reach id seq db s ≡ false
  misses = ground arith

  kept :
      select (λ t. not (same_key s t)) (select (in_reach id seq db) db.snapshots)
      ≡ select (in_reach id seq db) db.snapshots
  kept =
      select_all (λ t. not (same_key s t)) (select (in_reach id seq db) db.snapshots)
        (All-of _ (select (in_reach id seq db) db.snapshots) (λ t m.
          let reached : in_reach id seq db t ≡ true =
            (mem-select (in_reach id seq db) t db.snapshots m).1 in
          ground arith))

  rows :
      select (in_reach id seq db) (stored s db).snapshots ≡ select (in_reach id seq db) db.snapshots
  rows =
      select-append (in_reach id seq db) (select (λ t. not (same_key s t)) db.snapshots) (s ∷ [])
      ∙ rw (select_comm (in_reach id seq db) (λ t. not (same_key s t)) db.snapshots, misses, kept)
          (append-nil _)

  -- A snapshot that is stored under a later number leaves what is found at a number alone.
  pub snapshot_at-stored_later : snapshot_at id seq (stored s db) ≡ snapshot_at id seq db
  unfolding snapshot_at
  snapshot_at-stored_later = ap (max_by (λ t. t.seq)) rows

pub get_snapshot_at_seq-found :
    (id : String) (seq : ℕ) (s : WorkflowSnapshot) (db : Tables)
    → snapshot_at id seq db ≡ some s
    → get_snapshot_at_seq id seq db ≡ some (scan_snapshot s)
unfolding get_snapshot_at_seq
get_snapshot_at_seq-found id seq s db h = ap (mapped scan_snapshot) h
