-- ===== src/Plan/Effect.antt =====
-- What EnqueuePlanTasks of acpd/internal/store/plan.go writes, and that a second call adds nothing.
use agent_control_plane.Prelude.{
  ℕ, String, ◌≡◌, sym, ap, subst, ◌∙◌, true, false, any, any-append, any-of_mem, any-of_misses,
  test_of_ne, Memᴰ, All-at, ◌==◌, ◌⊎◌, eq_refl, arith, some, List, [], ◌∷◌, ◌++◌, All, All-of, map,
  inl, inr, Bool-cases, Option-cases,
}
use agent_control_plane.Sql.{wrapped, absent, invalid_json, ok, err}
use agent_control_plane.Json.{Codec}
use agent_control_plane.Schema.{WorkflowSnapshot, Tables}
use agent_control_plane.Tasks.Claim.{new_row}
use agent_control_plane.Workflows.{latest_snapshot}
use agent_control_plane.Plan.{PlanNode, Plan, ModelRoute, ready_nodes, plan_task_id}
use agent_control_plane.Plan.Enqueue.{plan_task, enqueue_plan, parsed, enqueue_plan_tasks}
use agent_control_plane.Plan.Ready.{IsReady, ready_nodes-exact}
use agent_control_plane.Tasks.{has_id}
use agent_control_plane.Tasks.Invariant.{QueueStep, queue_steps, IsSound}
use agent_control_plane.Tasks.Life.Facts.{queue_steps-keeps}
use agent_control_plane.Plan.Chosen.{
  Distinct, chosen-open, chosen_complete, chosen-Distinct, mem-map, mem-of_map,
}
use agent_control_plane.Plan.Once.{
  is_settled, with_task, with_tasks, chosen, enqueue_nodes-chosen, chosen-settles,
  enqueue_nodes_settled,
}

module _ (c : Codec) (id : String) where
  -- The plan in the latest snapshot, with the snapshot.
  pub record Planned (db : Tables) : Type 0 where
    pub snap : WorkflowSnapshot
    pub plan : Plan
    pub latest : latest_snapshot id db ≡ some snap
    pub read : parsed c snap.state_json ≡ some plan

  planned :
      (now : ℕ) (routes : List ModelRoute) (ids : List String) (db db' : Tables)
      → enqueue_plan_tasks c now id routes db ≡ (ok ids, db')
      → Planned db
  unfolding enqueue_plan_tasks enqueue_plan
  planned now routes ids db db' h = elim (Option-cases (latest_snapshot id db)) [
    | inl n ↦ absurd (
        let e : (enqueue_plan_tasks c now id routes db).0 ≡ err (wrapped "get snapshot" absent) =
          rw n in
        cc (h, e))
    | inr (snap, k) ↦ elim (Option-cases (parsed c snap.state_json)) [
      | inl n ↦ absurd (
          let e : (enqueue_plan_tasks c now id routes db).0
              ≡ err (wrapped "parse state" invalid_json) =
            rw (k, n) in
          cc (h, e))
      | inr (p, r) ↦ record { snap = snap; plan = p; latest = k; read = r }
    ]
  ]

  enqueue-chosen :
      (now : ℕ) (routes : List ModelRoute) (db : Tables) (p : Planned db)
      → enqueue_plan_tasks c now id routes db ≡ (
          let nodes = chosen c id now p.snap.seq routes (ready_nodes p.plan) db in
          (
            ok (map (λ (n : PlanNode). plan_task_id id n.id) nodes),
            with_tasks c id now p.snap.seq routes nodes db,
          ))
  unfolding enqueue_plan_tasks enqueue_plan
  enqueue-chosen now routes db p =
      rw (p.latest, p.read, enqueue_nodes-chosen c id now p.snap.seq routes (ready_nodes p.plan) db)

  chosen-IsReady :
      (now seq : ℕ) (routes : List ModelRoute) (p : Plan) (nodes : List PlanNode) (db : Tables)
      → All (IsReady p) nodes
      → All (IsReady p) (chosen c id now seq routes nodes db)
  chosen-IsReady now seq routes p [] db h = tt
  chosen-IsReady now seq routes p (node ∷ nodes) db h =
      elim (Bool-cases (is_settled c id db node)) [
        | inl t ↦ rw t (chosen-IsReady now seq routes p nodes db h.1)
        | inr f ↦
            rw f (
              h.0,
              chosen-IsReady now seq routes p nodes (with_task c id now seq routes node db) h.1,
            )
      ]

  abbrev node_task : PlanNode → String
  node_task n = plan_task_id id n.id

  -- A node is settled where a pending or claimed task stands for it, where its task's id is taken, or where the
  -- workflow has no summary row. These are the nodes that a call that returns ids has added tasks for: ready
  -- ones that were not settled, and every one of those, each task once.
  pub record Enqueued (now : ℕ) (routes : List ModelRoute) (ids : List String) (db db' : Tables)
      : Type 0 where
    pub from : Planned db
    pub nodes : List PlanNode
    pub ready : All (IsReady from.plan) nodes
    pub unsettled : All (λ n. is_settled c id db n ≡ false) nodes
    pub complete :
        All (λ n. (is_settled c id db n ≡ true) ⊎ Memᴰ (node_task n) ids) (ready_nodes from.plan)
    pub distinct : Distinct ids
    pub written : ids ≡ map node_task nodes
    pub rows : db' ≡ record db {
      tasks = db.tasks ++ map (λ n. new_row now (plan_task c id from.snap.seq routes n)) nodes;
    }

  -- EnqueuePlanTasks that returns ids has added a pending task for every ready node of the plan in the latest
  -- snapshot that no pending or claimed task stands for and whose task's id is free, in a workflow with a
  -- summary row; for no other node, and no task twice. It has returned the ids of exactly these tasks, and has
  -- changed nothing else.
  pub enqueue_plan_tasks-Enqueued :
      (now : ℕ) (routes : List ModelRoute) (ids : List String) (db db' : Tables)
      → enqueue_plan_tasks c now id routes db ≡ (ok ids, db')
      → Enqueued now routes ids db db'
  enqueue_plan_tasks-Enqueued now routes ids db db' h =
      let p = planned now routes ids db db' h in
      let e = enqueue-chosen now routes db p in
      let nodes = chosen c id now p.snap.seq routes (ready_nodes p.plan) db in
      let same : ids ≡ map node_task nodes = cc (h, e) in
      record {
        from = p;
        nodes = nodes;
        ready =
            chosen-IsReady now p.snap.seq routes p.plan (ready_nodes p.plan) db (
              All-of (IsReady p.plan) (ready_nodes p.plan) λ n m. (ready_nodes-exact p.plan n).0 m);
        unsettled = chosen-open c id now p.snap.seq routes (ready_nodes p.plan) db;
        complete =
            subst
              (λ l.
                All (λ n. (is_settled c id db n ≡ true) ⊎ Memᴰ (node_task n) l)
                  (ready_nodes p.plan))
              (sym same) (chosen_complete c id now p.snap.seq routes (ready_nodes p.plan) db);
        distinct =
            subst Distinct (sym same)
              (chosen-Distinct c id now p.snap.seq routes (ready_nodes p.plan) db);
        written = same;
        rows = cc (h, e);
      }

  -- A second call on the same tables.
  enqueue_again :
      (now later : ℕ) (routes again : List ModelRoute) (ids : List String) (db db' : Tables)
      → enqueue_plan_tasks c now id routes db ≡ (ok ids, db')
      → (p : Planned db) × (All (λ n. is_settled c id db' n ≡ true) (ready_nodes p.plan)
          × (enqueue_plan_tasks c later id again db' ≡ (ok [], db')))
  unfolding latest_snapshot
  enqueue_again now later routes again ids db db' h =
      let p = planned now routes ids db db' h in
      let nodes = ready_nodes p.plan in
      let e = enqueue-chosen now routes db p in
      let after =
        with_tasks c id now p.snap.seq routes (chosen c id now p.snap.seq routes nodes db) db in
      let same : after ≡ db' = cc (h, e) in
      let settles = chosen-settles c id now p.snap.seq routes nodes db in
      let settled = enqueue_nodes_settled c id later p.snap.seq again nodes after settles in
      let second : enqueue_plan_tasks c later id again after ≡ (ok [], after) =
        unfold enqueue_plan_tasks enqueue_plan in rw (p.latest, p.read, settled) in
      (
        p,
        (subst (λ d. All (λ n. is_settled c id d n ≡ true) nodes) same settles, cc (h, e, second)),
      )

  -- The tasks of the returned ids are there.
  returned_taken :
      (now : ℕ) (routes : List ModelRoute) (ids : List String) (db db' : Tables)
      → enqueue_plan_tasks c now id routes db ≡ (ok ids, db')
      → (x : String) → Memᴰ x ids
      → any (has_id x) db'.tasks ≡ true
  returned_taken now routes ids db db' h x m =
      let w = enqueue_plan_tasks-Enqueued now routes ids db db' h in
      let (n, (k, e)) = mem-of_map node_task w.nodes (subst (λ l. Memᴰ x l) w.written m) in
      let row = new_row now (plan_task c id w.from.snap.seq routes n) in
      let own : has_id x row ≡ true =
        unfold new_row plan_task in
        subst (λ y. (node_task n == y) ≡ true) (sym e) (eq_refl (node_task n)) in
      let added = map (λ n. new_row now (plan_task c id w.from.snap.seq routes n)) w.nodes in
      let there : any (has_id x) added ≡ true =
        any-of_mem (has_id x) row added
          (mem-map (λ n. new_row now (plan_task c id w.from.snap.seq routes n)) k) own in
      let split = any-append (has_id x) db.tasks added in
      ap (λ (d : Tables). any (has_id x) d.tasks) w.rows ∙ split ∙ ground (arith, there)

  returned_free :
      (now : ℕ) (routes : List ModelRoute) (ids : List String) (db db' : Tables)
      → enqueue_plan_tasks c now id routes db ≡ (ok ids, db')
      → (x : String) → Memᴰ x ids
      → any (has_id x) db.tasks ≡ false
  returned_free now routes ids db db' h x m =
      let w = enqueue_plan_tasks-Enqueued now routes ids db db' h in
      let (n, (k, e)) = mem-of_map node_task w.nodes (subst (λ l. Memᴰ x l) w.written m) in
      let free : any (has_id (node_task n)) db.tasks ≡ false =
        ground (arith, All-at (λ n. is_settled c id db n ≡ false) w.nodes w.unsettled k) in
      subst (λ y. any (has_id y) db.tasks ≡ false) (sym e) free

  none_returned :
      (xs : List String) (more : List String)
      → ((x : String) → Memᴰ x xs → Memᴰ x more → ⊥)
      → All (λ x. any (λ y. y == x) more ≡ false) xs
  none_returned xs more f =
      All-of (λ x. any (λ y. y == x) more ≡ false) xs
        λ x m.
          any-of_misses (λ y. y == x) more
            λ y k. test_of_ne y x λ e. f x m (subst (λ z. Memᴰ z more) e k)

  -- After a call that returns ids every node that was ready has a pending or claimed task or its task's id taken,
  -- or the workflow has no summary row, and a second call on the same tables returns no ids and changes nothing.
  -- And no later call ever returns one of the ids again, whatever history of queue operations has passed
  -- since the first and whatever became of the plan and of the other tables in between: so no node's task
  -- is enqueued twice. The tables after the first call must be sound, so that no task is lost.
  pub enqueue_plan_tasks-once :
      (now later : ℕ) (routes again : List ModelRoute) (ids more : List String)
      (db db' other other' : Tables) (history : List QueueStep)
      → IsSound db'
      → enqueue_plan_tasks c now id routes db ≡ (ok ids, db')
      → other.tasks ≡ (queue_steps history db').tasks
      → enqueue_plan_tasks c later id again other ≡ (ok more, other')
      → ((p : Planned db) × (All (λ n. is_settled c id db' n ≡ true) (ready_nodes p.plan)
            × (enqueue_plan_tasks c later id again db' ≡ (ok [], db'))))
        × All (λ x. any (λ y. y == x) more ≡ false) ids
  enqueue_plan_tasks-once now later routes again ids more db db' other other' history sound h t k =
      (
        enqueue_again now later routes again ids db db' h,
        none_returned ids more λ x m w.
            let stays =
              queue_steps-keeps history db' x sound (returned_taken now routes ids db db' h x m) in
            let free = returned_free later again more other other' k x w in
            cc (stays, free, ap (any (has_id x)) t),
      )
