-- ===== src/Receipts/Inserts.antt =====
-- The outcomes of the insertions.
use agent_control_plane.Prelude.{
  ◌≡◌, true, false, any, List, [], ◌∷◌, ◌++◌, Bool-cases, inl, inr, ◌⊎◌, ◌==◌, if◌then◌else◌,
}
use agent_control_plane.Sql.{ok, err, unique_violation, foreign_key_violation}
use agent_control_plane.Schema.{Receipt, Delta, Artifact, Tables, has_workflow}
use agent_control_plane.Receipts.{
  clashes, insert_receipt, delta_clashes, insert_delta, insert_artifact,
}

module _ (r : Receipt) (db : Tables) where
  pub insert_receipt_taken :
      any (clashes r) db.receipts ≡ true → insert_receipt r db ≡ (err unique_violation, db)
  unfolding insert_receipt
  insert_receipt_taken h = rw h

  pub insert_receipt_unknown :
      any (clashes r) db.receipts ≡ false
      → has_workflow db r.workflow_id ≡ false
      → insert_receipt r db ≡ (err foreign_key_violation, db)
  unfolding insert_receipt
  insert_receipt_unknown h k = rw (h, k)

  pub insert_receipt_ok :
      any (clashes r) db.receipts ≡ false
      → has_workflow db r.workflow_id ≡ true
      → insert_receipt r db ≡ (ok tt, record db { receipts = db.receipts ++ r ∷ [] })
  unfolding insert_receipt
  insert_receipt_ok h k = rw (h, k)

module _ (d : Delta) (db : Tables) where
  pub insert_delta_taken :
      any (delta_clashes d) db.deltas ≡ true → insert_delta d db ≡ (err unique_violation, db)
  unfolding insert_delta
  insert_delta_taken h = rw h

  pub insert_delta_ok :
      any (delta_clashes d) db.deltas ≡ false
      → has_workflow db d.workflow_id ≡ true
      → insert_delta d db ≡ (ok tt, record db { deltas = db.deltas ++ d ∷ [] })
  unfolding insert_delta
  insert_delta_ok h k = rw (h, k)

-- The artifacts with one more, unless its digest is known.
abbrev pub add_artifact : Artifact → List Artifact → List Artifact
add_artifact a arts =
    if any (λ (b : Artifact). b.digest == a.digest) arts then arts else arts ++ a ∷ []

module _ (a : Artifact) (db : Tables) where
  pub insert_artifact-cases :
      ((has_workflow db a.workflow_id ≡ false)
        × (insert_artifact a db ≡ (err foreign_key_violation, db)))
      ⊎ (insert_artifact a db ≡ (ok tt, record db { artifacts = add_artifact a db.artifacts }))
  unfolding insert_artifact
  insert_artifact-cases =
      elim (Bool-cases (any (λ (b : Artifact). b.digest == a.digest) db.artifacts)) [
        | inl y ↦ inr (rw y)
        | inr n ↦ elim (Bool-cases (has_workflow db a.workflow_id)) [
          | inl k ↦ inr (rw (n, k))
          | inr k ↦ inl (k, rw (n, k))
        ]
      ]
