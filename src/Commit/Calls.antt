-- ===== src/Commit/Calls.antt =====
-- The three commits of acpd/internal/store/commit.go as one type of calls, and what they promise alike.
use agent_control_plane.Prelude.{
  ℕ, String, ◌≡◌, ◌≢◌, refl, sym, update, subst, Bool, true, false, [], ◌∷◌, inl, inr, Bool-cases,
  eq_iff, ◌==◌,
}
use agent_control_plane.Sql.{Error, ok, err, Stmt, transact}
use agent_control_plane.Sql.Rules.{transact_atomic}
use agent_control_plane.Json.{arr, Members, Codec, nil, end, strings}
use agent_control_plane.Schema.{Tables}
use agent_control_plane.Receipts.{latest_receipt, latest_delta}
use agent_control_plane.Workflows.{is_workflow}
use agent_control_plane.Gates.{resolve_gate}
use agent_control_plane.Commit.{
  reject_row, TransitionResult, CommitParams, ArtifactCommitParams, patches_json, delta_body,
  gate_body, patches_member, commit_transition, commit_artifact, commit_gate_resolution,
}
use agent_control_plane.Commit.Records.{recorded, RecordsOrKeeps}
use agent_control_plane.Commit.Success.{
  with_artifact, with_gate, commit_transition-outcome, commit_artifact-outcome, commit_gate-outcome,
}
use agent_control_plane.Commit.Chain.{
  IsChained, IsNext, recorded-IsChained, recorded-IsChained_other,
}

pub data CommitCall : Type 0 where
  transition : CommitParams → CommitCall
  artifact : ArtifactCommitParams → CommitCall
  gate : (id token resolution by : String) → TransitionResult → CommitCall

module _ (c : Codec) where
  unfoldable pub run_commit : CommitCall → ℕ → Stmt Tables (Unit {0})
  run_commit (transition p) now = commit_transition c p now
  run_commit (artifact p) now = commit_artifact c p now
  run_commit (gate id token resolution by r) now =
      commit_gate_resolution c id token resolution by r now

  abbrev pub call_body : CommitCall → Members
  call_body (transition p) = delta_body c p.kind p.actor_id (patches_json p.patches) nil p.result
  call_body (artifact p) =
      delta_body c "artifact_committed" p.actor_id (arr nil) (strings (p.artifact_digest ∷ []))
        p.result
  call_body (gate id token resolution by r) = gate_body c by r

  abbrev pub call_more : CommitCall → Members
  call_more (transition p) = patches_member c p.patches
  call_more _ = end

abbrev pub call_workflow : CommitCall → String
call_workflow (transition p) = p.workflow_id
call_workflow (artifact p) = p.workflow_id
call_workflow (gate id token resolution by r) = id

abbrev pub call_result : CommitCall → TransitionResult
call_result (transition p) = p.result
call_result (artifact p) = p.result
call_result (gate id token resolution by r) = r

-- Every call records its transition, but for a gate whose result is not ok.
abbrev pub records : CommitCall → Bool
records (gate id token resolution by r) = r.is_ok
records _ = true

-- The tables with the side changes of the call.
abbrev pub call_base : CommitCall → ℕ → Tables → Tables
call_base (transition p) now db = db
call_base (artifact p) now db = with_artifact now db p
call_base (gate id token resolution by r) now db = with_gate now db token resolution by

module _ (c : Codec) (now : ℕ) where
  -- A commit that returns an error leaves every table as it was.
  pub commit_atomic :
      (call : CommitCall) (db : Tables) {e : Error}
      → (run_commit c call now db).0 ≡ err e
      → (run_commit c call now db).1 ≡ db
  unfolding run_commit commit_transition commit_artifact commit_gate_resolution
  commit_atomic (transition p) db h = transact_atomic _ db h
  commit_atomic (artifact p) db h = transact_atomic _ db h
  commit_atomic (gate id token resolution by r) db h = transact_atomic _ db h

  -- A call that records its transition succeeds exactly where neither the sequence number nor the
  -- receipt's digest is taken and the workflow exists; then it writes the receipt, the delta, the
  -- snapshot and the summary row with its side changes, and otherwise it changes nothing.
  pub commit-outcome :
      (call : CommitCall) (db : Tables)
      → records call ≡ true
      → RecordsOrKeeps c
          (call_workflow call)
          (call_result call)
          (call_body c call)
          (call_more c call)
          now
          (run_commit c call now)
          db
          (call_base call now db)
  unfolding run_commit
  commit-outcome (transition p) db h = commit_transition-outcome c now db p
  commit-outcome (artifact p) db h = commit_artifact-outcome c now db p
  commit-outcome (gate id token resolution by r) db h =
      commit_gate-outcome c now db id token resolution by r h

  pub recorded_of_ok :
      (call : CommitCall) (db db' : Tables)
      → records call ≡ true
      → run_commit c call now db ≡ (ok tt, db')
      → db'
        ≡ recorded c
            (call_workflow call)
            (call_result call)
            (call_body c call)
            (call_more c call)
            now
            (call_base call now db)
  recorded_of_ok call db db' r h = elim (commit-outcome call db r) [
    | inl (_, e) ↦ cc (h, e)
    | inr (_, (x, e)) ↦ absurd (cc (h, e))
  ]

  -- A gate resolution whose result is not ok leaves every table but two as it was.
  abbrev pub rejected : (id token resolution by : String) → TransitionResult → Tables → Tables
  rejected id token resolution by r db = record (with_gate now db token resolution by) {
    workflows = update (is_workflow id) (reject_row r now) db.workflows;
  }

  pub commit_gate-rejected :
      (id token resolution by : String) (r : TransitionResult) (db : Tables)
      → r.is_ok ≡ false
      → run_commit c (gate id token resolution by r) now db
        ≡ (ok tt, rejected id token resolution by r db)
  unfolding run_commit commit_gate_resolution transact resolve_gate
  commit_gate-rejected id token resolution by r db h = rw h

  base-IsChained :
      (call : CommitCall) (id : String) (db : Tables)
      → IsChained id db
      → IsChained id (call_base call now db)
  base-IsChained (transition p) id db h = h
  base-IsChained (artifact p) id db h = record { receipts = h.receipts; deltas = h.deltas }
  base-IsChained (gate _ token resolution by r) id db h = record {
    receipts = h.receipts;
    deltas = h.deltas;
  }

  test_ne : (x y : String) → (x == y) ≡ false → x ≢ y
  test_ne x y h e = absurd (cc (h, (eq_iff x y).1 e))

  base-IsNext :
      (call : CommitCall) (id : String) (seq : ℕ) (db : Tables)
      → IsNext id seq db
      → IsNext id seq (call_base call now db)
  unfolding latest_receipt latest_delta
  base-IsNext (transition p) id seq db h = h
  base-IsNext (artifact p) id seq db h = record { receipt = h.receipt; delta = h.delta }
  base-IsNext (gate _ token resolution by r) id seq db h = record {
    receipt = h.receipt;
    delta = h.delta;
  }

  recorded-IsChained_call :
      (call : CommitCall) (id : String) (db db' : Tables)
      → records call ≡ true
      → IsNext (call_workflow call) (call_result call).seq db
      → IsChained id db
      → run_commit c call now db ≡ (ok tt, db')
      → IsChained id db'
  recorded-IsChained_call call id db db' r n h e =
      rw (recorded_of_ok call db db' r e) (elim (Bool-cases (call_workflow call == id)) [
        | inl y ↦
            let same : call_workflow call ≡ id = (eq_iff (call_workflow call) id).0 y in
            subst
              (λ i. IsChained i (
                recorded c (call_workflow call) (call_result call) (call_body c call)
                  (call_more c call) now (call_base call now db)))
              same
              (recorded-IsChained c (call_workflow call) (call_result call) (call_body c call)
                (call_more c call) now (call_base call now db)
                (base-IsNext call (call_workflow call) (call_result call).seq db n)
                (subst (λ i. IsChained i (call_base call now db)) (sym same)
                  (base-IsChained call id db h)))
        | inr f ↦
            recorded-IsChained_other c (call_workflow call) (call_result call) (call_body c call)
              (call_more c call) now (call_base call now db) id (test_ne (call_workflow call) id f)
              (base-IsChained call id db h)
      ])

  rejected-IsChained :
      (id token resolution by other : String) (r : TransitionResult) (db db' : Tables)
      → r.is_ok ≡ false
      → IsChained other db
      → run_commit c (gate id token resolution by r) now db ≡ (ok tt, db')
      → IsChained other db'
  rejected-IsChained id token resolution by other r db db' f h e =
      let same : rejected id token resolution by r db ≡ db' =
        cc (commit_gate-rejected id token resolution by r db f, e) in
      subst (IsChained other) same (record { receipts = h.receipts; deltas = h.deltas })

  -- A commit that succeeds with the next number of its workflow, be it that of a refused gate resolution,
  -- leaves the receipts and the deltas of every workflow linked: each names the digest of the one before,
  -- the first none, and the numbers rise.
  pub commit-IsChained :
      (call : CommitCall) (id : String) (db db' : Tables)
      → IsNext (call_workflow call) (call_result call).seq db
      → IsChained id db
      → run_commit c call now db ≡ (ok tt, db')
      → IsChained id db'
  commit-IsChained (transition p) id db db' n h e =
      recorded-IsChained_call (transition p) id db db' refl n h e
  commit-IsChained (artifact p) id db db' n h e =
      recorded-IsChained_call (artifact p) id db db' refl n h e
  commit-IsChained (gate w token resolution by r) id db db' n h e = elim (Bool-cases r.is_ok) [
    | inl t ↦ recorded-IsChained_call (gate w token resolution by r) id db db' t n h e
    | inr f ↦ rejected-IsChained w token resolution by id r db db' f h e
  ]
