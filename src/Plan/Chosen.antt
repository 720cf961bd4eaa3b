-- ===== src/Plan/Chosen.antt =====
-- Which nodes EnqueuePlanTasks of acpd/internal/store/plan.go adds a task for: the open ones, each once.
use mathlib.Core.List.{Memᴰ}
use agent_control_plane.Prelude.{
  ℕ, String, ◌≡◌, refl, sym, ap, subst, ◌∙◌, Bool, true, false, List, [], ◌∷◌, All, All-map, map,
  any, any-append, ◌||◌, ◌⊎◌, inl, inr, Bool-cases, eq_iff, arith, ◌==◌,
}
use agent_control_plane.Json.{Codec}
use agent_control_plane.Schema.{Tables, has_workflow}
use agent_control_plane.Tasks.{has_id}
use agent_control_plane.Tasks.Claim.{new_row}
use agent_control_plane.Plan.{PlanNode, ModelRoute, is_active_for, plan_task_id}
use agent_control_plane.Plan.Enqueue.{plan_task}
use agent_control_plane.Plan.Once.{
  is_settled, node_row, with_task, chosen, chosen-hit, chosen-miss, is_settled_kept,
}

-- No text stands twice in the list.
unfoldable pub Distinct : List String → Type 0
Distinct [] = Unit
Distinct (x ∷ xs) = (any (λ y. x == y) xs ≡ false) × Distinct xs

module _ {A B : Type 0} (f : A → B) where
  pub mem-map : {x : A} {xs : List A} → Memᴰ x xs → Memᴰ (f x) (map f xs)
  mem-map (Memᴰ.head e) = Memᴰ.head (ap f e)
  mem-map (Memᴰ.tail m) = Memᴰ.tail (mem-map m)

  pub mem-of_map : {y : B} (xs : List A) → Memᴰ y (map f xs) → (x : A) × (Memᴰ x xs × (y ≡ f x))
  mem-of_map [] m = elim m [ ]
  mem-of_map (x ∷ xs) (Memᴰ.head e) = (x, (Memᴰ.head refl, e))
  mem-of_map (x ∷ xs) (Memᴰ.tail m) = let (z, (k, e)) = mem-of_map xs m in (z, (Memᴰ.tail k, e))

  any-map : (p : B → Bool) (xs : List A) → any p (map f xs) ≡ any (λ x. p (f x)) xs
  any-map p [] = refl
  any-map p (x ∷ xs) = ap (λ b. p (f x) || b) (any-map p xs)

module _ (c : Codec) (id : String) (now seq : ℕ) (routes : List ModelRoute) where
  abbrev task_id_of : PlanNode → String
  task_id_of n = plan_task_id id n.id

  still_open :
      (node other : PlanNode) (db : Tables)
      → is_settled c id (with_task c id now seq routes node db) other ≡ false
      → is_settled c id db other ≡ false
  still_open node other db h = elim (Bool-cases (is_settled c id db other)) [
    | inr f ↦ f
    | inl t ↦ absurd (cc (h, is_settled_kept c id now seq routes node other db t))
  ]

  pub chosen-open :
      (nodes : List PlanNode) (db : Tables)
      → All (λ n. is_settled c id db n ≡ false) (chosen c id now seq routes nodes db)
  chosen-open [] db = tt
  chosen-open (node ∷ nodes) db = elim (Bool-cases (is_settled c id db node)) [
    | inl t ↦ rw t (chosen-open nodes db)
    | inr f ↦ rw f (
      f,
      All-map (λ n. still_open node n db)
          (chosen c id now seq routes nodes (with_task c id now seq routes node db))
          (chosen-open nodes (with_task c id now seq routes node db)),
    )
  ]

  active_node :
      (node other : PlanNode)
      → is_active_for id other.id (node_row c id now seq routes node) ≡ true
      → node.id ≡ other.id
  unfolding is_active_for new_row plan_task
  active_node node other a = (eq_iff node.id other.id).0 (ground (arith, a))

  still_settled :
      (node other : PlanNode) (db : Tables)
      → is_settled c id db other ≡ false
      → is_active_for id other.id (node_row c id now seq routes node) ≡ false
      → has_id (task_id_of other) (node_row c id now seq routes node) ≡ false
      → is_settled c id (with_task c id now seq routes node db) other ≡ false
  unfolding has_workflow
  still_settled node other db f a b =
      rw
        (
          any-append (is_active_for id other.id) db.tasks (node_row c id now seq routes node ∷ []),
          any-append (has_id (task_id_of other)) db.tasks (node_row c id now seq routes node ∷ []),
        )
        (ground (arith, f, a, b))

  -- A node that a task for another node settles has that node's id.
  same_task :
      (node other : PlanNode) (db : Tables)
      → is_settled c id db other ≡ false
      → is_settled c id (with_task c id now seq routes node db) other ≡ true
      → task_id_of node ≡ task_id_of other
  same_task node other db f t =
      let r = node_row c id now seq routes node in
      elim (Bool-cases (is_active_for id other.id r)) [
        | inl a ↦ ap (plan_task_id id) (active_node node other a)
        | inr a ↦ elim (Bool-cases (has_id (task_id_of other) r)) [
          | inl b ↦ unfold new_row plan_task in (eq_iff (task_id_of node) (task_id_of other)).0 b
          | inr b ↦ absurd (cc (t, still_settled node other db f a b))
        ]
      ]

  abbrev HasTask : Tables → List PlanNode → PlanNode → Type 0
  HasTask db ns n = (is_settled c id db n ≡ true) ⊎ Memᴰ (task_id_of n) (map task_id_of ns)

  handled_behind :
      (node : PlanNode) (ns : List PlanNode) (db : Tables) (n : PlanNode)
      → HasTask (with_task c id now seq routes node db) ns n
      → HasTask db (node ∷ ns) n
  handled_behind node ns db n (inr m) = inr (Memᴰ.tail m)
  handled_behind node ns db n (inl t) = elim (Bool-cases (is_settled c id db n)) [
    | inl y ↦ inl y
    | inr f ↦ inr (Memᴰ.head (sym (same_task node n db f t)))
  ]

  pub chosen_complete :
      (nodes : List PlanNode) (db : Tables)
      → All (HasTask db (chosen c id now seq routes nodes db)) nodes
  chosen_complete [] db = tt
  chosen_complete (node ∷ nodes) db = elim (Bool-cases (is_settled c id db node)) [
    | inl t ↦
        subst (λ l. All (HasTask db l) (node ∷ nodes))
          (sym (chosen-hit c id now seq routes node nodes db t)) (inl t, chosen_complete nodes db)
    | inr f ↦
        let after = with_task c id now seq routes node db in
        let rest = chosen c id now seq routes nodes after in
        subst (λ l. All (HasTask db l) (node ∷ nodes))
          (sym (chosen-miss c id now seq routes node nodes db f))
          (
            inr (Memᴰ.head refl),
            All-map (handled_behind node rest db) nodes (chosen_complete nodes after),
          )
  ]

  other_id :
      (node other : PlanNode) (db : Tables)
      → is_settled c id (with_task c id now seq routes node db) other ≡ false
      → (task_id_of node == task_id_of other) ≡ false
  unfolding new_row plan_task
  other_id node other db h =
      let split =
        any-append (has_id (task_id_of other)) db.tasks (node_row c id now seq routes node ∷ []) in
      ground (arith, h, split)

  none_again :
      (p : PlanNode → Bool) (ns : List PlanNode) → All (λ n. p n ≡ false) ns → any p ns ≡ false
  none_again p [] h = refl
  none_again p (n ∷ ns) h = ground (arith, h.0, none_again p ns h.1)

  pub chosen-Distinct :
      (nodes : List PlanNode) (db : Tables)
      → Distinct (map task_id_of (chosen c id now seq routes nodes db))
  unfolding Distinct
  chosen-Distinct [] db = tt
  chosen-Distinct (node ∷ nodes) db = elim (Bool-cases (is_settled c id db node)) [
    | inl t ↦ rw t (chosen-Distinct nodes db)
    | inr f ↦
        let after = with_task c id now seq routes node db in
        let rest = chosen c id now seq routes nodes after in
        rw f (
          any-map task_id_of (λ y. task_id_of node == y) rest
              ∙ none_again (λ n. task_id_of node == task_id_of n) rest
                  (All-map (λ n. other_id node n db) rest (chosen-open nodes after)),
          chosen-Distinct nodes after,
        )
  ]
