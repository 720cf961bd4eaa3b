-- ===== src/Commit/Records.antt =====
-- The statements that the commits share succeed exactly on fresh keys of a known workflow, and what they
-- write then.
use agent_control_plane.Prelude.{
  ℕ, String, ◌≡◌, Bool, true, false, [], ◌∷◌, ◌++◌, any, Bool-cases, inl, inr, not, ◌&&◌, ◌⊎◌,
}
use agent_control_plane.Sql.{Error, Stmt, ok, err, wrapped, unique_violation, foreign_key_violation}
use agent_control_plane.Json.{Members, Codec}
use agent_control_plane.Schema.{Receipt, Delta, Tables, has_workflow}
use agent_control_plane.Workflows.Latest.{stored, upsert_snapshot_ok}
use agent_control_plane.Receipts.{
  clashes, latest_receipt, digest_of, delta_clashes, latest_delta, hash_of,
}
use agent_control_plane.Receipts.Inserts.{
  insert_receipt_taken, insert_receipt_unknown, insert_receipt_ok, insert_delta_taken,
  insert_delta_ok,
}
use agent_control_plane.Commit.{
  TransitionResult, Labels, receipt_row, delta_row, snapshot_row, advance, write_records,
}

module _ (c : Codec) (id : String) (r : TransitionResult) (body more : Members) (now : ℕ)
    (db : Tables) where
  abbrev pub next_receipt : Receipt
  next_receipt = receipt_row id r (digest_of (latest_receipt id db)) now

  abbrev pub next_delta : Delta
  next_delta = delta_row c id r body more (hash_of (latest_delta id db)) now

  abbrev with_receipt : Tables
  with_receipt = record db { receipts = db.receipts ++ next_receipt ∷ [] }

  -- The tables after the four statements.
  unfoldable pub recorded : Tables
  unfolding receipt_row delta_row snapshot_row advance
  recorded = advance c id r now (record db {
    receipts = db.receipts ++ next_receipt ∷ [];
    deltas = db.deltas ++ next_delta ∷ [];
    snapshots = (stored (snapshot_row id r now) db).snapshots;
  })

  abbrev pub receipt_taken : Bool
  receipt_taken = any (clashes next_receipt) db.receipts

  abbrev pub delta_taken : Bool
  delta_taken = any (delta_clashes next_delta) db.deltas

  module _ (labels : Labels) where
    pub write_records-receipt_taken :
        receipt_taken ≡ true
        → write_records c labels id r body more now db
          ≡ (err (wrapped labels.receipt unique_violation), db)
    unfolding write_records
    write_records-receipt_taken h = rw (insert_receipt_taken next_receipt db h)

    pub write_records_unknown :
        receipt_taken ≡ false
        → has_workflow db id ≡ false
        → write_records c labels id r body more now db
          ≡ (err (wrapped labels.receipt foreign_key_violation), db)
    unfolding write_records
    write_records_unknown h k = rw (insert_receipt_unknown next_receipt db h k)

    pub write_records-delta_taken :
        receipt_taken ≡ false
        → has_workflow db id ≡ true
        → delta_taken ≡ true
        → write_records c labels id r body more now db
          ≡ (err (wrapped labels.delta unique_violation), with_receipt)
    unfolding write_records
    write_records-delta_taken h k t =
        rw (insert_receipt_ok next_receipt db h k, insert_delta_taken next_delta with_receipt t)

    pub write_records_fresh :
        receipt_taken ≡ false
        → has_workflow db id ≡ true
        → delta_taken ≡ false
        → write_records c labels id r body more now db ≡ (ok tt, recorded)
    unfolding write_records recorded has_workflow
    write_records_fresh h k t = rw (
      insert_receipt_ok next_receipt db h k,
      insert_delta_ok next_delta with_receipt t k,
      upsert_snapshot_ok (snapshot_row id r now)
          (record with_receipt { deltas = db.deltas ++ next_delta ∷ [] }) k,
    )

  -- Neither the sequence number nor the receipt's digest is taken, and the workflow is there.
  abbrev pub is_fresh : Bool
  is_fresh = not receipt_taken && has_workflow db id && not delta_taken

  module _ (labels : Labels) where
    -- Fresh keys are recorded, and on any other the statements end in an error.
    pub write_records-cases :
        ((is_fresh ≡ true) × (write_records c labels id r body more now db ≡ (ok tt, recorded)))
        ⊎ ((is_fresh ≡ false)
            × ((e : Error) × (partial : Tables) × (write_records c labels id r body more now db
                  ≡ (err e, partial))))
    write_records-cases = elim (Bool-cases receipt_taken) [
      | inl y ↦ inr (rw y, (_, _, write_records-receipt_taken labels y))
      | inr n ↦ elim (Bool-cases (has_workflow db id)) [
        | inr k ↦ inr (rw (n, k), (_, _, write_records_unknown labels n k))
        | inl k ↦ elim (Bool-cases delta_taken) [
          | inl t ↦ inr (rw (n, k, t), (_, _, write_records-delta_taken labels n k t))
          | inr f ↦ inl (rw (n, k, f), write_records_fresh labels n k f)
        ]
      ]
    ]

-- A commit `m` on `db` that also makes the side changes of `base`: with fresh keys of a known workflow it
-- succeeds and records the transition; otherwise it ends in an error and the tables are as before.
abbrev pub RecordsOrKeeps :
    Codec
    → String
    → TransitionResult
    → Members
    → Members
    → ℕ
    → Stmt Tables (Unit {0})
    → Tables
    → Tables
    → Type 0
RecordsOrKeeps c id r body more now m db base =
    ((is_fresh c id r body more now db ≡ true)
      × (m db ≡ (ok tt, recorded c id r body more now base)))
    ⊎ ((is_fresh c id r body more now db ≡ false) × ((e : Error) × (m db ≡ (err e, db))))
