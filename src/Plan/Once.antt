-- ===== src/Plan/Once.antt =====
-- A node is settled where a round of EnqueuePlanTasks adds no task for it; every round settles its node.
use agent_control_plane.Prelude.{
  ℕ, String, ◌≡◌, refl, sym, ap, subst, Bool, true, false, Option, none, some, List, [], ◌∷◌, ◌++◌,
  All, map, any, any-append, ◌||◌, not, inl, inr, Bool-cases, eq_refl, arith, if◌then◌else◌,
}
use mathlib.Core.List.{append-nil, append_assoc}
use agent_control_plane.Sql.{transact}
use agent_control_plane.Json.{Codec}
use agent_control_plane.Schema.{TaskRow, WorkflowSnapshot, Tables, has_workflow}
use agent_control_plane.Tasks.{has_id}
use agent_control_plane.Tasks.Claim.{new_row, enqueue_task}
use agent_control_plane.Plan.{PlanNode, Plan, ModelRoute, is_active_for, plan_task_id}
use agent_control_plane.Plan.Enqueue.{plan_task, enqueue_node, enqueue_nodes, parsed}

module _ (c : Codec) (id : String) where
  abbrev pub is_settled : Tables → PlanNode → Bool
  is_settled db node =
      any (is_active_for id node.id) db.tasks
      || any (has_id (plan_task_id id node.id)) db.tasks
      || not (has_workflow db id)

  module _ (now seq : ℕ) (routes : List ModelRoute) where
    abbrev pub node_row : PlanNode → TaskRow
    node_row node = new_row now (plan_task c id seq routes node)

    abbrev pub with_task : PlanNode → Tables → Tables
    with_task node db = record db { tasks = db.tasks ++ node_row node ∷ [] }

    enqueue_node_settled :
        (node : PlanNode) (db : Tables)
        → is_settled db node ≡ true
        → enqueue_node c now id seq routes node db ≡ ([], db)
    unfolding enqueue_node enqueue_task transact plan_task new_row
    enqueue_node_settled node db h = elim (Bool-cases (any (is_active_for id node.id) db.tasks)) [
      | inl t ↦ rw t
      | inr f ↦ elim (Bool-cases (any (has_id (plan_task_id id node.id)) db.tasks)) [
        | inl t ↦ rw (f, t)
        | inr g ↦ let k : has_workflow db id ≡ false = ground arith in rw (f, g, k)
      ]
    ]

    enqueue_node_open :
        (node : PlanNode) (db : Tables)
        → is_settled db node ≡ false
        → enqueue_node c now id seq routes node db
          ≡ (plan_task_id id node.id ∷ [], with_task node db)
    unfolding enqueue_node enqueue_task transact plan_task new_row
    enqueue_node_open node db h =
        let f : any (is_active_for id node.id) db.tasks ≡ false = ground arith in
        let g : any (has_id (plan_task_id id node.id)) db.tasks ≡ false = ground arith in
        let k : has_workflow db id ≡ true = ground arith in rw (f, g, k)

    is_settled_with : (node : PlanNode) (db : Tables) → is_settled (with_task node db) node ≡ true
    unfolding plan_task new_row
    is_settled_with node db =
        rw (any-append (has_id (plan_task_id id node.id)) db.tasks (node_row node ∷ []))
          (ground (arith, eq_refl (plan_task_id id node.id)))

    pub is_settled_kept :
        (node other : PlanNode) (db : Tables)
        → is_settled db other ≡ true
        → is_settled (with_task node db) other ≡ true
    unfolding has_workflow
    is_settled_kept node other db h =
        rw
          (
            any-append (is_active_for id other.id) db.tasks (node_row node ∷ []),
            any-append (has_id (plan_task_id id other.id)) db.tasks (node_row node ∷ []),
          )
          (ground arith)

    -- The nodes that the loop enqueues: each is open when its turn comes.
    abbrev pub chosen : List PlanNode → Tables → List PlanNode
    chosen [] db = []
    chosen (node ∷ nodes) db =
        let later = chosen nodes (with_task node db) in
        let same = chosen nodes db in if is_settled db node then same else node ∷ later

    abbrev pub with_tasks : List PlanNode → Tables → Tables
    with_tasks nodes db = record db { tasks = db.tasks ++ map node_row nodes }

    abbrev ids_of : List PlanNode → List String
    ids_of nodes = map (λ (n : PlanNode). plan_task_id id n.id) nodes

    with_tasks-cons :
        (node : PlanNode) (nodes : List PlanNode) (db : Tables)
        → with_tasks nodes (with_task node db) ≡ with_tasks (node ∷ nodes) db
    with_tasks-cons node nodes db =
        ap (λ ts. record db { tasks = ts })
          (append_assoc db.tasks (node_row node ∷ []) (map node_row nodes))

    with_tasks-nil : (db : Tables) → with_tasks [] db ≡ db
    with_tasks-nil db = ap (λ ts. record db { tasks = ts }) (append-nil db.tasks)

    pub enqueue_nodes-chosen :
        (nodes : List PlanNode) (db : Tables)
        → enqueue_nodes c now id seq routes nodes db
          ≡ (ids_of (chosen nodes db), with_tasks (chosen nodes db) db)
    unfolding enqueue_nodes
    enqueue_nodes-chosen [] db = ap (λ d. ([], d)) (sym (with_tasks-nil db))
    enqueue_nodes-chosen (node ∷ nodes) db = elim (Bool-cases (is_settled db node)) [
      | inl t ↦ rw (enqueue_node_settled node db t, enqueue_nodes-chosen nodes db, t)
      | inr f ↦ rw (
        enqueue_node_open node db f,
        enqueue_nodes-chosen nodes (with_task node db),
        f,
        with_tasks-cons node (chosen nodes (with_task node db)) db,
      )
    ]

    with_tasks_kept :
        (nodes : List PlanNode) (other : PlanNode) (db : Tables)
        → is_settled db other ≡ true
        → is_settled (with_tasks nodes db) other ≡ true
    with_tasks_kept [] other db h =
        subst (λ d. is_settled d other ≡ true) (sym (with_tasks-nil db)) h
    with_tasks_kept (node ∷ nodes) other db h =
        subst (λ d. is_settled d other ≡ true) (with_tasks-cons node nodes db)
          (with_tasks_kept nodes other (with_task node db) (is_settled_kept node other db h))

    pub chosen-hit :
        (node : PlanNode) (nodes : List PlanNode) (db : Tables)
        → is_settled db node ≡ true
        → chosen (node ∷ nodes) db ≡ chosen nodes db
    chosen-hit node nodes db t = rw t

    pub chosen-miss :
        (node : PlanNode) (nodes : List PlanNode) (db : Tables)
        → is_settled db node ≡ false
        → chosen (node ∷ nodes) db ≡ node ∷ chosen nodes (with_task node db)
    chosen-miss node nodes db f = rw f

    -- The loop settles every node that it visits.
    pub chosen-settles :
        (nodes : List PlanNode) (db : Tables)
        → All (λ n. is_settled (with_tasks (chosen nodes db) db) n ≡ true) nodes
    chosen-settles [] db = tt
    chosen-settles (node ∷ nodes) db = elim (Bool-cases (is_settled db node)) [
      | inl t ↦
          subst (λ l. All (λ n. is_settled (with_tasks l db) n ≡ true) (node ∷ nodes))
            (sym (chosen-hit node nodes db t))
            (with_tasks_kept (chosen nodes db) node db t, chosen-settles nodes db)
      | inr f ↦
          subst (λ l. All (λ n. is_settled (with_tasks l db) n ≡ true) (node ∷ nodes))
            (sym (chosen-miss node nodes db f))
            (subst (λ d. All (λ n. is_settled d n ≡ true) (node ∷ nodes))
              (with_tasks-cons node (chosen nodes (with_task node db)) db)
              (
                with_tasks_kept (chosen nodes (with_task node db)) node (with_task node db)
                    (is_settled_with node db),
                chosen-settles nodes (with_task node db),
              ))
    ]

    -- Over settled nodes it does nothing.
    pub enqueue_nodes_settled :
        (nodes : List PlanNode) (db : Tables)
        → All (λ n. is_settled db n ≡ true) nodes
        → enqueue_nodes c now id seq routes nodes db ≡ ([], db)
    unfolding enqueue_nodes
    enqueue_nodes_settled [] db h = refl
    enqueue_nodes_settled (node ∷ nodes) db h =
        rw (enqueue_node_settled node db h.0, enqueue_nodes_settled nodes db h.1)

  abbrev snapshot_plan : Option WorkflowSnapshot → Option Plan
  snapshot_plan none = none
  snapshot_plan (some snap) = parsed c snap.state_json
