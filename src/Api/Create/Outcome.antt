-- ===== src/Api/Create/Outcome.antt =====
-- createWorkflow of acpd/internal/api/workflows.go creates a workflow with its first state or nothing.
use agent_control_plane.Prelude.{
  ℕ, String, ◌≡◌, ◌≢◌, refl, true, false, Option, none, some, ◌⊎◌, inl, inr, ◌||◌, Bool-cases,
  Option-cases, eq_refl, eq_iff, test_of_ne, arith, ◌==◌,
}
use agent_control_plane.Sql.{Result, ok, err, wrapped, unique_violation, transact}
use agent_control_plane.Json.{Codec}
use agent_control_plane.Schema.{Tables, has_workflow}
use agent_control_plane.Workflows.{
  find_workflow, latest_snapshot, insert_workflow, create_workflow, save_snapshot,
}
use agent_control_plane.Workflows.Latest.{stored, upsert_snapshot_ok, latest-stored_other}
use agent_control_plane.Workflows.Added.{
  SnapshotsOwned, with_row, find-append_miss, find-append_new, has_workflow-with_row,
  latest-stored_new,
}
use agent_control_plane.Api.{Call, Reply, error_reply}
use agent_control_plane.Api.Create.{
  CreateRequest, Creation, Bridge, decode_request, plan_or_empty, inject_plan, first_row,
  first_snapshot, create_reply, with_id, create_injected, create_result, create_named,
  post_workflow,
}

module _ (c : Codec) (br : Bridge) (uuid : String) (now : ℕ) where
  -- The workflow that a request has created: the program's state with the plan in it, at number 0.
  pub record IsCreated (req : CreateRequest) (db db' : Tables) : Type 0 where
    pub result : Creation
    pub state_json : String
    pub answered :
        br.run_create req.workflow_id req.goal req.owner (plan_or_empty req.plan) ≡ ok result
    pub injected : inject_plan c req.plan result.state_json ≡ some state_json
    pub goal : req.goal ≢ ""
    pub fresh : has_workflow db req.workflow_id ≡ false
    pub rows :
        db'
        ≡ stored (first_snapshot req result state_json now) (with_row (first_row req result now) db)

  -- The reply is 200 and the workflow of the request is there, or it is another one and nothing is
  -- changed.
  abbrev pub CreatesOrKeeps : CreateRequest → Tables → Reply × Tables → Type 0
  CreatesOrKeeps req db m =
      ((m.0.code ≡ 200) × IsCreated req db m.1) ⊎ ((m.0.code ≢ 200) × (m.1 ≡ db))

  module _ (req : CreateRequest) (db : Tables) where
    create_free :
        (b : Creation)
        → has_workflow db req.workflow_id ≡ false
        → create_workflow now (first_row req b now) db ≡ (ok tt, with_row (first_row req b now) db)
    unfolding create_workflow insert_workflow first_row
    create_free b f = rw f

    create_taken :
        (b : Creation)
        → has_workflow db req.workflow_id ≡ true
        → create_workflow now (first_row req b now) db
          ≡ (err (wrapped "create workflow" unique_violation), db)
    unfolding create_workflow insert_workflow first_row
    create_taken b t = rw t

    save_first :
        (b : Creation) (state_json : String)
        → transact
            (save_snapshot now (first_snapshot req b state_json now))
            (with_row (first_row req b now) db)
          ≡ (
            ok tt,
            stored (first_snapshot req b state_json now) (with_row (first_row req b now) db),
          )
    unfolding transact save_snapshot first_snapshot first_row
    save_first b state_json = rw (
        upsert_snapshot_ok (first_snapshot req b state_json now) (with_row (first_row req b now) db)
          (has_workflow-with_row (first_row req b now) db))

    module _ (goal : req.goal ≢ "") (b : Creation)
        (answered : br.run_create req.workflow_id req.goal req.owner (plan_or_empty req.plan)
          ≡ ok b) where
      injected-cases :
          (o : Option String)
          → inject_plan c req.plan b.state_json ≡ o
          → CreatesOrKeeps req db (create_injected c br uuid now req b o db)
      unfolding error_reply create_reply
      injected-cases none i = inr ((λ e. omega (arith, e)), refl)
      injected-cases (some state_json) i = elim (Bool-cases (has_workflow db req.workflow_id)) [
        | inl t ↦ rw (create_taken b t) (inr ((λ e. omega (arith, e)), refl))
        | inr f ↦
            rw (create_free b f, save_first b state_json)
              (inl (
                refl,
                record {
                  result = b;
                  state_json = state_json;
                  answered = answered;
                  injected = i;
                  goal = goal;
                  fresh = f;
                  rows = refl;
                },
              ))
      ]

    result-cases :
        req.goal ≢ ""
        → (o : Result Creation)
        → br.run_create req.workflow_id req.goal req.owner (plan_or_empty req.plan) ≡ o
        → CreatesOrKeeps req db (create_result c br uuid now req o db)
    unfolding error_reply
    result-cases goal (err e) h = inr ((λ e. omega (arith, e)), refl)
    result-cases goal (ok b) h = injected-cases goal b h (inject_plan c req.plan b.state_json) refl

    named-cases : CreatesOrKeeps req db (create_named c br uuid now req db)
    unfolding error_reply
    named-cases = elim (Bool-cases (req.goal == "" || req.owner == "")) [
      | inl t ↦ rw t (inr ((λ e. omega (arith, e)), refl))
      | inr f ↦
          let goal : req.goal ≢ "" =
            λ e. let t : (req.goal == "") ≡ true = (eq_iff req.goal "").1 e in ground arith in
          rw f (
            result-cases goal
              (br.run_create req.workflow_id req.goal req.owner (plan_or_empty req.plan)) refl)
    ]

  -- createWorkflow replies 200 exactly where it creates the workflow of the request that it decodes: the goal
  -- is given, the id is free and the bridge's program answers; its row and its snapshot at number 0, whose
  -- document has the plan in it, are then all that is added. Every other reply changes nothing.
  pub post_workflow-cases :
      (call : Call) (db : Tables)
      → ((req : CreateRequest) × ((decode_request call.body ≡ some req)
            × CreatesOrKeeps (with_id uuid req) db (post_workflow c br uuid now call db)))
        ⊎ ((decode_request call.body ≡ none)
            × (((post_workflow c br uuid now call db).0.code ≡ 400)
                × ((post_workflow c br uuid now call db).1 ≡ db)))
  unfolding post_workflow error_reply
  post_workflow-cases call db = elim (Option-cases (decode_request call.body)) [
    | inl n ↦ inr (n, rw n (refl, refl))
    | inr (req, e) ↦ inl (req, (e, rw e (named-cases (with_id uuid req) db)))
  ]

  -- What the queries find of the workflows after a request that created one.
  pub record IsFound (req : CreateRequest) (db db' : Tables) : Type 0 where
    pub creation : IsCreated req db db'
    pub summary : find_workflow req.workflow_id db' ≡ some (first_row req creation.result now)
    pub state :
        latest_snapshot req.workflow_id db'
        ≡ some (first_snapshot req creation.result creation.state_json now)
    pub others :
        (id : String)
        → req.workflow_id ≢ id
        → (find_workflow id db' ≡ find_workflow id db)
          × (latest_snapshot id db' ≡ latest_snapshot id db)

  created-IsFound :
      (req : CreateRequest) (db db' : Tables)
      → SnapshotsOwned db
      → IsCreated req db db'
      → IsFound req db db'
  unfolding find_workflow has_workflow first_row first_snapshot latest_snapshot
  created-IsFound req db db' o k = record {
    creation = k;
    summary = rw k.rows (
        find-append_new req.workflow_id db.workflows (first_row req k.result now) k.fresh
          (eq_refl req.workflow_id));
    state =
        rw k.rows (latest-stored_new (first_snapshot req k.result k.state_json now) db o k.fresh);
    others = λ id ne. rw k.rows (
      find-append_miss id db.workflows (first_row req k.result now)
          (test_of_ne req.workflow_id id ne),
      latest-stored_other (first_snapshot req k.result k.state_json now) db id ne,
    );
  }

  -- On tables whose snapshots all belong to workflows, createWorkflow either replies 200, and then the workflow
  -- of the request is found in the stage "created" at number 0, its latest snapshot is the program's state,
  -- with the plan, at number 0, and the summary row and the latest snapshot of every other workflow are as
  -- before; or it replies otherwise and changes nothing.
  pub post_workflow-IsFound :
      (call : Call) (db : Tables)
      → SnapshotsOwned db
      → let (reply, db') = post_workflow c br uuid now call db in
        ((reply.code ≡ 200)
          × ((req : CreateRequest) × ((decode_request call.body ≡ some req)
                × IsFound (with_id uuid req) db db')))
        ⊎ ((reply.code ≢ 200) × (db' ≡ db))
  post_workflow-IsFound call db o = elim (post_workflow-cases call db) [
    | inr (_, (bad, same)) ↦ inr ((λ h. omega (arith, bad, h)), same)
    | inl (req, (e, inr k)) ↦ inr k
    | inl (req, (e, inl (h, k))) ↦ inl (
      h,
      (req, (e, created-IsFound (with_id uuid req) db (post_workflow c br uuid now call db).1 o k)),
    )
  ]
