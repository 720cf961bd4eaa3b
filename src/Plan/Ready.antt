-- ===== src/Plan/Ready.antt =====
-- The ready nodes are the pending ones that wait for no node.
use agent_control_plane.Prelude.{
  String, ◌≡◌, Bool, true, false, Memᴰ, any, mem-select, inl, inr, ◌&&◌, not, ◌==◌, eq_iff,
  Bool-cases, arith, any-of_mem, mem-of_any, miss-of_any, any-of_misses, mem-in_select, ◌↔◌,
}
use agent_control_plane.Plan.{PlanNode, PlanEdge, Plan, is_done, is_blocked, ready_nodes}

-- A node of that ID has the status "done".
pub record IsDone (p : Plan) (id : String) : Type 0 where
  pub node : PlanNode
  pub mem : Memᴰ node p.nodes
  pub same : node.id ≡ id
  pub done : node.status ≡ "done"

-- A pending node of the plan, all of whose edges start at nodes that are done.
pub record IsReady (p : Plan) (n : PlanNode) : Type 0 where
  pub mem : Memᴰ n p.nodes
  pub pending : n.status ≡ "pending"
  pub free : (e : PlanEdge) → Memᴰ e p.edges → e.to ≡ n.id → IsDone p e.from

module _ (p : Plan) where
  is_done-IsDone : (id : String) → is_done p id ≡ true → IsDone p id
  unfolding is_done
  is_done-IsDone id h =
      let r = mem-of_any (λ (n : PlanNode). n.id == id && n.status == "done") p.nodes h in
      record {
        node = r.0;
        mem = r.1.0;
        same = ground (arith, r.1.1, eq_iff r.0.id id);
        done = ground (arith, r.1.1, eq_iff r.0.status "done");
      }

  IsDone-is_done : (id : String) → IsDone p id → is_done p id ≡ true
  unfolding is_done
  IsDone-is_done id d =
      any-of_mem (λ (n : PlanNode). n.id == id && n.status == "done") d.node p.nodes d.mem
        (ground (arith, d.same, d.done, eq_iff d.node.id id, eq_iff d.node.status "done"))

  sound : (n : PlanNode) → Memᴰ n (ready_nodes p) → IsReady p n
  unfolding ready_nodes is_blocked
  sound n m =
      let r =
        mem-select (λ (n : PlanNode). n.status == "pending" && not (is_blocked p n.id)) n p.nodes
          m in
      record {
        mem = r.0;
        pending = ground (arith, r.1, eq_iff n.status "pending");
        free = λ e k same. is_done-IsDone e.from (
            ground (
              arith,
              miss-of_any (λ (e : PlanEdge). e.to == n.id && not (is_done p e.from)) e p.edges
                  (ground (arith, r.1)) k,
              eq_iff e.to n.id,
              same,
            ));
      }

  complete : (n : PlanNode) → IsReady p n → Memᴰ n (ready_nodes p)
  unfolding ready_nodes is_blocked
  complete n r =
      let blocks : PlanEdge → Bool = λ e. e.to == n.id && not (is_done p e.from) in
      let free : any blocks p.edges ≡ false = any-of_misses blocks p.edges λ e k.
        elim (Bool-cases (e.to == n.id)) [
          | inl t ↦ rw (t, IsDone-is_done e.from (r.free e k ((eq_iff e.to n.id).0 t)))
          | inr f ↦ rw f
        ] in
      mem-in_select (λ (n : PlanNode). n.status == "pending" && not (is_blocked p n.id)) n p.nodes
        r.mem (ground (arith, eq_iff n.status "pending", r.pending, free))

  -- readyNodes returns exactly the nodes of the plan whose status is "pending" and whose incoming edges
  -- all start at the ID of some node with the status "done".
  pub ready_nodes-exact : (n : PlanNode) → Memᴰ n (ready_nodes p) ↔ IsReady p n
  ready_nodes-exact n = (sound n, complete n)
