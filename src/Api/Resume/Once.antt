-- ===== src/Api/Resume/Once.antt =====
-- When resumeGate of acpd/internal/api/gates.go resolves a gate, and what it does for one that is resolved.
use agent_control_plane.Prelude.{
  ℕ, ◌<◌, String, ◌≡◌, ◌≢◌, refl, sym, ap, subst, ◌∙◌, true, Option, none, some, ◌⊎◌, inl, inr,
  ◌||◌, mapped, update, find-updated, Bool-cases, Option-cases, eq_iff, arith, ◌==◌,
}
use agent_control_plane.Sql.{Result, ok, err, transact}
use agent_control_plane.Json.{end, Codec}
use agent_control_plane.Schema.{WorkflowSnapshot, Gate, Tables}
use agent_control_plane.Workflows.{get_latest_snapshot}
use agent_control_plane.Gates.{
  has_token, scan_gate, scanned, find_gate, get_gate, resolve_row, resolve_gate,
}
use agent_control_plane.Actors.{Actor}
use agent_control_plane.Commit.{TransitionResult, gate_body, commit_gate_resolution, advance}
use agent_control_plane.Commit.Records.{recorded}
use agent_control_plane.Commit.Success.{with_gate, commit_gate-outcome}
use agent_control_plane.Commit.Calls.{gate, run_commit, commit_atomic}
use agent_control_plane.Api.{Call, Reply, error_reply, string_field}
use agent_control_plane.Api.Resume.{
  Resumption, Bridge, resumption_result, resumption_reply, committed, resume_result, resume_from,
  resume_found, resume_gate,
}

module _ (c : Codec) (workflow_id token actor : String) (now : ℕ) where
  -- A commit of a gate that succeeds leaves the gates with that one resolved.
  commit_gate-gates :
      (resolution : String) (r : TransitionResult) (db db' : Tables)
      → commit_gate_resolution c workflow_id token resolution actor r now db ≡ (ok tt, db')
      → db'.gates ≡ update (has_token token) (resolve_row resolution actor now) db.gates
  commit_gate-gates resolution r db db' h = elim (Bool-cases r.is_ok) [
    | inl t ↦ elim (commit_gate-outcome c now db workflow_id token resolution actor r t) [
      | inl (f, e) ↦
          let same : db'
              ≡ recorded c workflow_id r (gate_body c actor r) end now
                  (with_gate now db token resolution actor) =
            cc (h, e) in
          rw same (unfold recorded advance in refl)
      | inr (f, (x, e)) ↦ absurd (cc (h, e))
    ]
    | inr f ↦
        let e : (commit_gate_resolution c workflow_id token resolution actor r now db).1.gates
            ≡ update (has_token token) (resolve_row resolution actor now) db.gates =
          unfold commit_gate_resolution transact resolve_gate in rw f in
        ap (λ m. m.1.gates) (sym h) ∙ e
  ]

  find_gate-commit :
      (resolution : String) (r : TransitionResult) (db db' : Tables)
      → commit_gate_resolution c workflow_id token resolution actor r now db ≡ (ok tt, db')
      → find_gate token db' ≡ mapped (resolve_row resolution actor now) (find_gate token db)
  unfolding find_gate
  find_gate-commit resolution r db db' h = rw (commit_gate-gates resolution r db db' h) (
      find-updated (has_token token) (resolve_row resolution actor now)
        (λ x. unfold resolve_row in refl) db.gates)

module _ (c : Codec) (workflow_id token : String) (actor : Actor) (now : ℕ) where
  -- A gate of the workflow that was seen pending, and is found resolved afterwards where there is one.
  pub record Resumed (seen db db' : Tables) : Type 0 where
    pub resolution : String
    pub allowed : (resolution == "approved" || resolution == "rejected") ≡ true
    pub gate : Gate
    pub found : find_gate token seen ≡ some gate
    pub pending : gate.status ≡ "pending"
    pub own : gate.workflow_id ≡ workflow_id
    pub resolved :
        find_gate token db'
        ≡ mapped (resolve_row resolution actor.actor_id now) (find_gate token db)

  -- The reply is 200 and the gate is resolved, or it is an error and nothing is changed.
  abbrev pub ResumesOrKeeps : (seen db : Tables) → Reply × Tables → Type 0
  ResumesOrKeeps seen db m =
      ((m.0.code ≡ 200) × Resumed seen db m.1) ⊎ ((200 < m.0.code) × (m.1 ≡ db))

  module _ (br : Bridge) (resolution : String) (seen db : Tables)
      (allowed : (resolution == "approved" || resolution == "rejected") ≡ true) where
    module _ (g : Gate) (found : find_gate token seen ≡ some g) (pending : g.status ≡ "pending")
        (own : g.workflow_id ≡ workflow_id) where
      committed-cases :
          (b : Resumption) (m : Result (Unit {0}) × Tables)
          → commit_gate_resolution c workflow_id token resolution actor.actor_id
              (resumption_result b)
              now
              db
            ≡ m
          → ResumesOrKeeps seen db (committed c br workflow_id token actor now b m)
      unfolding error_reply resumption_reply
      committed-cases b (ok u, db') h = inl (
        refl,
        record {
          resolution = resolution;
          allowed = allowed;
          gate = g;
          found = found;
          pending = pending;
          own = own;
          resolved =
              find_gate-commit c workflow_id token actor.actor_id now resolution
                (resumption_result b) db db' h;
        },
      )
      committed-cases b (err e, db') h =
          let call = gate workflow_id token resolution actor.actor_id (resumption_result b) in
          let failed : (run_commit c call now db).0 ≡ err e =
            unfold run_commit in ap (λ m. m.0) h in
          let kept : (run_commit c call now db).1 ≡ db = commit_atomic c now call db failed in
          inr (omega arith, ap (λ m. m.1) (sym h) ∙ unfold run_commit in kept)

      resume_result-cases :
          (o : Result Resumption)
          → ResumesOrKeeps seen db (resume_result c br workflow_id token actor now resolution o db)
      unfolding error_reply resumption_reply
      resume_result-cases (err e) = inr (omega arith, refl)
      resume_result-cases (ok b) =
          committed-cases b
            (commit_gate_resolution c workflow_id token resolution actor.actor_id
              (resumption_result b) now db)
            refl

      resume_from-cases :
          (o : Option WorkflowSnapshot)
          → ResumesOrKeeps seen db (resume_from c br workflow_id token actor now resolution o db)
      unfolding error_reply
      resume_from-cases none = inr (omega arith, refl)
      resume_from-cases (some snap) =
          resume_result-cases (br.gate_resume snap.state_json actor token resolution)

    resume_found-cases :
        (o : Option Gate)
        → find_gate token seen ≡ o
        → ResumesOrKeeps seen db
            (resume_found c br workflow_id token actor now resolution (scanned o) seen db)
    unfolding error_reply scan_gate
    resume_found-cases none f = inr (omega arith, refl)
    resume_found-cases (some g) f = elim (Bool-cases (g.workflow_id == workflow_id)) [
      | inr n ↦ rw n (inr (omega arith, refl))
      | inl y ↦ elim (Bool-cases (g.status == "pending")) [
        | inr n ↦ rw (y, n) (inr (omega arith, refl))
        | inl p ↦
            rw (y, p)
              (resume_from-cases g f ((eq_iff g.status "pending").0 p)
                ((eq_iff g.workflow_id workflow_id).0 y) (get_latest_snapshot workflow_id seen))
      ]
    ]

  -- Whatever happened between its reads and its commit, resumeGate replies 200 exactly where it resolves the
  -- gate: the resolution is one of the two, the gate that was read is pending and of the workflow, and the gate
  -- is found with the resolution and the actor afterwards. Every other reply is an error, and the tables are
  -- as the commit found them.
  pub resume_gate-cases :
      (br : Bridge) (call : Call) (seen db : Tables)
      → ResumesOrKeeps seen db (resume_gate c br workflow_id token actor now call seen db)
  unfolding resume_gate error_reply get_gate
  resume_gate-cases br call seen db = elim (Bool-cases (call.method == "POST")) [
    | inr n ↦ rw n (inr (omega arith, refl))
    | inl y ↦ elim (Option-cases (string_field "resolution" call.body)) [
      | inl n ↦ rw (y, n) (inr (omega arith, refl))
      | inr (res, k) ↦ elim (Bool-cases (res == "approved" || res == "rejected")) [
        | inr n ↦ rw (y, k, n) (inr (omega arith, refl))
        | inl t ↦ rw (y, k, t) (resume_found-cases br res seen db t (find_gate token seen) refl)
      ]
    ]
  ]

-- A resolved gate is not pending.
resolved_word : (res : String) → (res == "approved" || res == "rejected") ≡ true → res ≢ "pending"
resolved_word res h e =
    let k : ("pending" == "approved" || "pending" == "rejected") ≡ true =
      subst (λ s. (s == "approved" || s == "rejected") ≡ true) e h in
    absurd (cc k)

-- What is found of a gate that a commit resolved is not pending.
not_pending :
    (res by : String) (now : ℕ) (o : Option Gate) (g : Gate)
    → (res == "approved" || res == "rejected") ≡ true
    → mapped (resolve_row res by now) o ≡ some g
    → g.status ≢ "pending"
unfolding resolve_row
not_pending res by now none g t h p = absurd (cc h)
not_pending res by now (some old) g t h p = resolved_word res t (cc (h, p))

-- After a call of resumeGate that replied 200, every call for the same token that reads the gate as the first
-- call left it is an error and changes nothing, by whatever actor, for whatever workflow, at whatever time,
-- whatever else has changed in the tables that it reads and whatever its commit would find. A call that
-- read the gate before the first call's commit is not meant.
pub resume_gate-once :
    (c : Codec) (br : Bridge) (id other token : String) (actor by : Actor) (now later : ℕ)
    (first second : Call) (seen db read found : Tables)
    → (resume_gate c br id token actor now first seen db).0.code ≡ 200
    → find_gate token read ≡ find_gate token (resume_gate c br id token actor now first seen db).1
    → (200 < (resume_gate c br other token by later second read found).0.code)
      × ((resume_gate c br other token by later second read found).1 ≡ found)
resume_gate-once c br id other token actor by now later first second seen db read found h same =
    elim (resume_gate-cases c other token by later br second read found) [
      | inr k ↦ k
      | inl (_, again) ↦ elim (resume_gate-cases c id token actor now br first seen db) [
        | inr (bad, _) ↦ absurd (omega (arith, bad, h))
        | inl (_, done) ↦ absurd (
            not_pending done.resolution actor.actor_id now (find_gate token db) again.gate
              done.allowed (sym done.resolved ∙ sym same ∙ again.found) again.pending)
      ]
    ]
