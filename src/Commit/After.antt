-- ===== src/Commit/After.antt =====
-- What the queries of acpd/internal/store find after a commit, and a commit made twice.
use agent_control_plane.Prelude.{
  ℕ, ◌≤◌, String, ◌≡◌, refl, sym, ap, subst, ◌∙◌, true, false, Option, none, some, All, inl, inr,
  any, mapped, find-updated,
}
use agent_control_plane.Sql.{Error, ok, err}
use agent_control_plane.Json.{Codec, Members}
use agent_control_plane.Schema.{Workflow, Tables}
use agent_control_plane.Workflows.{is_workflow, find_workflow, of_workflow, latest_snapshot}
use agent_control_plane.Receipts.{clashes}
use agent_control_plane.Gates.{has_token, find_gate, resolve_row}
use agent_control_plane.Commit.{TransitionResult, snapshot_row, receipt_row, reject_row}
use agent_control_plane.Commit.Records.{is_fresh}
use agent_control_plane.Commit.Chain.{advanced, recorded-latest, recorded-find, recorded_taken}
use agent_control_plane.Commit.Calls.{
  CommitCall, transition, artifact, gate, run_commit, call_workflow, call_result, call_body,
  call_more, call_base, records, recorded_of_ok, commit-outcome, commit_gate-rejected,
}

-- The queries agree on what the transition left: the latest snapshot and the summary row.
pub record IsCurrent (c : Codec) (id : String) (r : TransitionResult) (now : ℕ)
    (before : Option Workflow) (db : Tables) : Type 0 where
  pub snapshot : latest_snapshot id db ≡ some (snapshot_row id r now)
  pub summary : find_workflow id db ≡ advanced c r now before

module _ (c : Codec) (now : ℕ) where
  base-snapshots :
      (call : CommitCall) (db : Tables) → (call_base call now db).snapshots ≡ db.snapshots
  base-snapshots (transition p) db = refl
  base-snapshots (artifact p) db = refl
  base-snapshots (gate _ token resolution by r) db = refl

  base-find :
      (call : CommitCall) (id : String) (db : Tables)
      → find_workflow id (call_base call now db) ≡ find_workflow id db
  unfolding find_workflow
  base-find (transition p) id db = refl
  base-find (artifact p) id db = refl
  base-find (gate _ token resolution by r) id db = refl

  -- After a commit that succeeds and records its transition, which all do but a gate resolution whose result
  -- is not ok, where no snapshot of its workflow has a larger number, the latest snapshot is the transition's
  -- and the summary row has its stage, hash and number.
  pub commit-IsCurrent :
      (call : CommitCall) (db db' : Tables)
      → records call ≡ true
      → All
          (λ t. of_workflow (call_workflow call) t ≡ true → t.seq ≤ (call_result call).seq)
          db.snapshots
      → run_commit c call now db ≡ (ok tt, db')
      → IsCurrent c
          (call_workflow call)
          (call_result call)
          now
          (find_workflow (call_workflow call) db)
          db'
  commit-IsCurrent call db db' r h e =
      let id = call_workflow call in
      rw (recorded_of_ok c now call db db' r e) (record {
        snapshot =
            recorded-latest c id (call_result call) (call_body c call) (call_more c call) now
              (call_base call now db)
              (subst (λ ss. All (λ t. of_workflow id t ≡ true → t.seq ≤ (call_result call).seq) ss)
                (sym (base-snapshots call db)) h);
        summary =
            recorded-find c id (call_result call) (call_body c call) (call_more c call) now
              (call_base call now db)
            ∙ ap (advanced c (call_result call) now) (base-find call id db);
      })

  stale_of_taken :
      (id : String) (r : TransitionResult) (body more : Members) (later : ℕ) (db : Tables)
      → any (clashes (receipt_row id r none now)) db.receipts ≡ true
      → is_fresh c id r body more later db ≡ false
  unfolding clashes receipt_row
  stale_of_taken id r body more later db h = rw h

  -- A number is given once: after a commit that succeeds and records its transition, a second one of the same
  -- workflow with the same number that is to record its own, at whatever time, ends in an error and changes
  -- nothing. The commits that record no transition are the gate resolutions whose result is not ok.
  pub commit_repeat :
      (first second : CommitCall) (later : ℕ) (db db' : Tables)
      → records first ≡ true
      → records second ≡ true
      → call_workflow second ≡ call_workflow first
      → (call_result second).seq ≡ (call_result first).seq
      → run_commit c first now db ≡ (ok tt, db')
      → (e : Error) × (run_commit c second later db' ≡ (err e, db'))
  commit_repeat first second later db db' r r' w s e = elim (commit-outcome c later second db' r') [
    | inl (f, _) ↦
        let stale =
          stale_of_taken (call_workflow second) (call_result second) (call_body c second)
            (call_more c second) later db'
            (rw (w, recorded_of_ok c now first db db' r e)
              (recorded_taken c (call_workflow first) (call_result first) (call_body c first)
                (call_more c first) now (call_base first now db) (call_result second) s)) in
        absurd (cc (f, stale))
    | inr (_, x) ↦ x
  ]

  -- What a gate resolution whose result was not ok leaves behind.
  pub record IsRejected (id token resolution by : String) (r : TransitionResult) (db db' : Tables)
      : Type 0 where
    pub gate : find_gate token db' ≡ mapped (resolve_row resolution by now) (find_gate token db)
    pub summary : find_workflow id db' ≡ mapped (reject_row r now) (find_workflow id db)
    -- Nothing but these two tables differs.
    pub rest : db' ≡ record db { gates = db'.gates; workflows = db'.workflows }

  -- A gate resolution whose result is not ok succeeds all the same: the gate is found with the resolution
  -- that was asked for, the summary row with the result's stage, hash and number, and every table but those
  -- of gates and workflows is as before: no snapshot, receipt or delta is written, changed or removed.
  pub commit_gate-IsRejected :
      (id token resolution by : String) (r : TransitionResult) (db : Tables)
      → r.is_ok ≡ false
      → let m = run_commit c (gate id token resolution by r) now db in
        (m.0 ≡ ok tt) × IsRejected id token resolution by r db m.1
  commit_gate-IsRejected id token resolution by r db h =
      rw (commit_gate-rejected c now id token resolution by r db h) (
        refl,
        record {
          gate =
              unfold find_gate in
              find-updated (has_token token) (resolve_row resolution by now)
                (λ x. unfold resolve_row in refl) db.gates;
          summary =
              unfold find_workflow in
              find-updated (is_workflow id) (reject_row r now) (λ x. unfold reject_row in refl)
                db.workflows;
          rest = refl;
        },
      )
