-- ===== src/Commit/Chain.antt =====
-- What a recorded transition does to the chains of receipts and deltas and to what the queries find.
use agent_control_plane.Prelude.{
  ℕ, ◌≤◌, String, ◌≡◌, ◌≢◌, refl, sym, ◌∙◌, true, Option, none, some, List, [], ◌∷◌, ◌++◌, All,
  select, select-append, find, find-mem, find-update, update_one, eq_refl, test_of_ne, arith, any,
  any-append,
}
use mathlib.Core.List.{append-nil}
use agent_control_plane.Json.{Members, Codec}
use agent_control_plane.Schema.{Workflow, Receipt, Delta, Tables}
use agent_control_plane.Workflows.{
  is_workflow, find_workflow, advance_row, of_workflow, latest_snapshot,
}
use agent_control_plane.Workflows.Latest.{latest-stored}
use agent_control_plane.Receipts.{
  receipt_of, latest_receipt, digest_of, delta_of, latest_delta, hash_of, clashes,
}
use agent_control_plane.Linked.{digest_of_last, Linked, Later, append-Linked}
use agent_control_plane.Commit.{
  TransitionResult, receipt_row, delta_row, snapshot_row, advance, stage_of,
}
use agent_control_plane.Commit.Records.{recorded, next_receipt, next_delta}

abbrev pub LinkedReceipts : List Receipt → Type 0
LinkedReceipts = Linked (λ r. r.seq) (λ r. r.prev_receipt_digest) (λ r. r.receipt_digest) none

abbrev pub LinkedDeltas : List Delta → Type 0
LinkedDeltas = Linked (λ d. d.seq) (λ d. d.prev_delta_hash) (λ d. d.delta_hash) none

-- The receipts of a workflow form a linked list of digests, and so do its deltas.
pub record IsChained (id : String) (db : Tables) : Type 0 where
  pub receipts : LinkedReceipts (select (receipt_of id) db.receipts)
  pub deltas : LinkedDeltas (select (delta_of id) db.deltas)

-- The sequence number is larger than those of the workflow's receipts and deltas.
pub record IsNext (id : String) (seq : ℕ) (db : Tables) : Type 0 where
  pub receipt :
      Later
        (λ (r : Receipt). r.seq)
        (λ r. r.prev_receipt_digest)
        (λ r. r.receipt_digest)
        (latest_receipt id db)
        seq
  pub delta :
      Later
        (λ (d : Delta). d.seq)
        (λ d. d.prev_delta_hash)
        (λ d. d.delta_hash)
        (latest_delta id db)
        seq

digest_of-last :
    (o : Option Receipt)
    → digest_of o
      ≡ digest_of_last (λ r. r.seq) (λ r. r.prev_receipt_digest) (λ r. r.receipt_digest) o
digest_of-last none = refl
digest_of-last (some r) = refl

hash_of-last :
    (o : Option Delta)
    → hash_of o ≡ digest_of_last (λ d. d.seq) (λ d. d.prev_delta_hash) (λ d. d.delta_hash) o
hash_of-last none = refl
hash_of-last (some d) = refl

-- The summary row, where there is one, with the stage, the hash and the number of the transition.
abbrev pub advanced : Codec → TransitionResult → ℕ → Option Workflow → Option Workflow
advanced c r now none = none
advanced c r now (some wf) = some (advance_row (stage_of c r) r.state_hash r.seq r.seq now wf)

module _ (c : Codec) (id : String) (r : TransitionResult) (body more : Members) (now : ℕ)
    (db : Tables) where
  abbrev after : Tables
  after = recorded c id r body more now db

  own_receipts :
      select (receipt_of id) after.receipts
      ≡ select (receipt_of id) db.receipts ++ next_receipt c id r body more now db ∷ []
  unfolding recorded advance receipt_row
  own_receipts =
      select-append (receipt_of id) db.receipts (next_receipt c id r body more now db ∷ [])
      ∙ rw (eq_refl id)

  own_deltas :
      select (delta_of id) after.deltas
      ≡ select (delta_of id) db.deltas ++ next_delta c id r body more now db ∷ []
  unfolding recorded advance delta_row
  own_deltas =
      select-append (delta_of id) db.deltas (next_delta c id r body more now db ∷ [])
      ∙ rw (eq_refl id)

  -- A transition with the next number goes on with both chains of its workflow.
  pub recorded-IsChained : IsNext id r.seq db → IsChained id db → IsChained id after
  unfolding latest_receipt latest_delta receipt_row delta_row
  recorded-IsChained n h = record {
    receipts = rw own_receipts (
        append-Linked (λ r. r.seq) (λ r. r.prev_receipt_digest) (λ r. r.receipt_digest)
          (select (receipt_of id) db.receipts) (next_receipt c id r body more now db) h.receipts
          (digest_of-last _) n.receipt);
    deltas = rw own_deltas (
        append-Linked (λ d. d.seq) (λ d. d.prev_delta_hash) (λ d. d.delta_hash)
          (select (delta_of id) db.deltas) (next_delta c id r body more now db) h.deltas
          (hash_of-last _) n.delta);
  }

  module _ (other : String) (ne : id ≢ other) where
    other_receipts :
        select (receipt_of other) after.receipts ≡ select (receipt_of other) db.receipts
    unfolding recorded advance receipt_row
    other_receipts =
        select-append (receipt_of other) db.receipts (next_receipt c id r body more now db ∷ [])
        ∙ rw (test_of_ne id other ne) (append-nil _)

    other_deltas : select (delta_of other) after.deltas ≡ select (delta_of other) db.deltas
    unfolding recorded advance delta_row
    other_deltas =
        select-append (delta_of other) db.deltas (next_delta c id r body more now db ∷ [])
        ∙ rw (test_of_ne id other ne) (append-nil _)

    -- The chains of another workflow are as before.
    pub recorded-IsChained_other : IsChained other db → IsChained other after
    recorded-IsChained_other h = record {
      receipts = rw other_receipts h.receipts;
      deltas = rw other_deltas h.deltas;
    }

  -- The latest snapshot is the transition's, where no snapshot of the workflow is ahead of it.
  pub recorded-latest :
      All (λ t. of_workflow id t ≡ true → t.seq ≤ r.seq) db.snapshots
      → latest_snapshot id after ≡ some (snapshot_row id r now)
  unfolding recorded advance snapshot_row latest_snapshot
  recorded-latest h = latest-stored (snapshot_row id r now) db h

  advanced_one :
      (o : Option Workflow)
      → o ≡ find (is_workflow id) db.workflows
      → (elim o [
        | none ↦ none
        | some wf ↦ some (
            update_one
              (is_workflow id)
              (advance_row (stage_of c r) r.state_hash r.seq r.seq now)
              wf)
      ])
        ≡ advanced c r now o
  advanced_one none e = refl
  advanced_one (some wf) e = rw (find-mem (is_workflow id) db.workflows wf (sym e)).1

  -- The summary row has the stage, the hash and the number of the transition.
  pub recorded-find : find_workflow id after ≡ advanced c r now (find_workflow id db)
  unfolding recorded advance find_workflow
  recorded-find =
      find-update (is_workflow id) (is_workflow id)
        (advance_row (stage_of c r) r.state_hash r.seq r.seq now) (λ x. unfold advance_row in refl)
        db.workflows
      ∙ advanced_one (find (is_workflow id) db.workflows) refl

  -- The transition's number is taken afterwards.
  pub recorded_taken :
      (r' : TransitionResult)
      → r'.seq ≡ r.seq
      → any (clashes (receipt_row id r' none now)) after.receipts ≡ true
  unfolding recorded advance receipt_row clashes
  recorded_taken r' e =
      any-append (clashes (receipt_row id r' none now)) db.receipts _
      ∙ ground (arith, eq_refl id, e)
