-- ===== src/Plan/Marked.antt =====
-- MarkPlanNodeDone of acpd/internal/store/plan.go as readyNodes reads the plan afterwards.
pub mod Outcome
use agent_control_plane.Prelude.{
  ℕ, ◌+◌, String, ◌≡◌, ◌≢◌, refl, sym, ap, subst, ◌∙◌, Bool, true, false, Option, none, some, List,
  [], ◌∷◌, mapped, inl, inr, Bool-cases, Option-cases, eq_refl, eq_iff, test_of_ne, arith, ◌==◌,
  if◌then◌else◌,
}
use agent_control_plane.Json.Lookup.{get-set_same, get-set_other}
use agent_control_plane.Json.{
  Json, null, bool, int, str, arr, obj, Items, nil, cons, Members, end, member, get_member,
  set_member, as_string, as_object, as_array,
}
use agent_control_plane.Plan.{PlanNode, PlanEdge, Plan}
use agent_control_plane.Plan.Decode.{
  decode_string, empty_node, build_node, build_cons, decode_node, decode_edge, decode_items,
  decode_list, build_plan, decode_plan, decode_state,
}
use agent_control_plane.Plan.Mark.{names, mark_nodes, marked_nodes, marked_state, mark_state}

abbrev finished : PlanNode → PlanNode
finished n = record n { status = "done" }

-- The first node of that ID is done.
abbrev pub mark_first : String → List PlanNode → List PlanNode
mark_first id [] = []
mark_first id (n ∷ ns) =
    let rest = mark_first id ns in if n.id == id then finished n ∷ ns else n ∷ rest

abbrev pub marked_plan : String → Plan → Plan
marked_plan node_id p = record p { nodes = mark_first node_id p.nodes }

build_node-finished :
    (a b c d e f : Option String) (n : PlanNode)
    → build_node a b c d e f ≡ some n
    → build_node a b c (some "done") e f ≡ some (finished n)
build_node-finished (some a) (some b) (some c) (some d) (some e) (some f) n h =
    ap (mapped finished) h
build_node-finished none b c d e f n h = absurd (cc h)
build_node-finished (some a) none c d e f n h = absurd (cc h)
build_node-finished (some a) (some b) none d e f n h = absurd (cc h)
build_node-finished (some a) (some b) (some c) none e f n h = absurd (cc h)
build_node-finished (some a) (some b) (some c) (some d) none f n h = absurd (cc h)
build_node-finished (some a) (some b) (some c) (some d) (some e) none n h = absurd (cc h)

decode_node-finished :
    (ms : Members) (n : PlanNode)
    → decode_node (obj ms) ≡ some n
    → decode_node (obj (set_member "status" (str "done") ms)) ≡ some (finished n)
unfolding decode_node decode_string
decode_node-finished ms n h =
    rw
      (
        get-set_other "status" "id" (str "done") ms refl,
        get-set_other "status" "title" (str "done") ms refl,
        get-set_other "status" "agent" (str "done") ms refl,
        get-set_same "status" (str "done") ms,
        get-set_other "status" "risk" (str "done") ms refl,
        get-set_other "status" "output_schema" (str "done") ms refl,
      )
      (build_node-finished _ _ _ _ _ _ n h)

abbrev id_of : Option PlanNode → Option String
id_of none = none
id_of (some n) = some n.id

build_node-id :
    (a b c d e f : Option String) (n : PlanNode) → build_node a b c d e f ≡ some n → a ≡ some n.id
build_node-id (some a) (some b) (some c) (some d) (some e) (some f) n h = ap id_of h
build_node-id none b c d e f n h = absurd (cc h)
build_node-id (some a) none c d e f n h = absurd (cc h)
build_node-id (some a) (some b) none d e f n h = absurd (cc h)
build_node-id (some a) (some b) (some c) none e f n h = absurd (cc h)
build_node-id (some a) (some b) (some c) (some d) none f n h = absurd (cc h)
build_node-id (some a) (some b) (some c) (some d) (some e) none n h = absurd (cc h)

module _ (node_id : String) (ne : ("" == node_id) ≡ false) where
  -- The loop's test of a node's ID is that of the decoded node.
  names-decode :
      (o : Option Json) (id : String)
      → decode_string o ≡ some id
      → names node_id (as_string o) ≡ (id == node_id)
  unfolding decode_string
  names-decode none id h = let e : "" ≡ id = cc h in sym (subst (λ x. (x == node_id) ≡ false) e ne)
  names-decode (some null) id h =
      let e : "" ≡ id = cc h in sym (subst (λ x. (x == node_id) ≡ false) e ne)
  names-decode (some (str s)) id h = let e : s ≡ id = cc h in ap (λ x. x == node_id) e
  names-decode (some (bool x)) id h = absurd (cc h)
  names-decode (some (int x)) id h = absurd (cc h)
  names-decode (some (arr x)) id h = absurd (cc h)
  names-decode (some (obj x)) id h = absurd (cc h)

  mark_one :
      (ms : Members) (js : Items) (n : PlanNode) (ns : List PlanNode)
      → decode_node (obj ms) ≡ some n
      → decode_items decode_node js ≡ some ns
      → decode_items decode_node (mark_nodes node_id js) ≡ some (mark_first node_id ns)
      → decode_items decode_node (mark_nodes node_id (cons (obj ms) js))
        ≡ some (mark_first node_id (n ∷ ns))
  unfolding decode_items mark_nodes
  mark_one ms js n ns d ds ih =
      let t : names node_id (as_string (get_member "id" ms)) ≡ (n.id == node_id) =
        names-decode (get_member "id" ms) n.id
          (unfold decode_node in build_node-id _ _ _ _ _ _ n d) in
      elim (Bool-cases (n.id == node_id)) [
        | inl y ↦ rw (t, y, decode_node-finished ms n d, ds)
        | inr f ↦ rw (t, f, d, ih)
      ]

  build_cons-head :
      (a : Option PlanNode) (o : Option (List PlanNode)) (ns : List PlanNode)
      → build_cons a o ≡ some ns
      → (n : PlanNode) × ((rest : List PlanNode) × ((a ≡ some n)
            × ((o ≡ some rest) × (ns ≡ n ∷ rest))))
  build_cons-head (some n) (some rest) ns h = (n, (rest, (refl, (refl, cc h))))
  build_cons-head (some n) none ns h = absurd (cc h)
  build_cons-head none o ns h = absurd (cc h)

  mark_cons :
      (j : Json) (js : Items) (n : PlanNode) (ns : List PlanNode)
      → decode_node j ≡ some n
      → decode_items decode_node js ≡ some ns
      → decode_items decode_node (mark_nodes node_id js) ≡ some (mark_first node_id ns)
      → decode_items decode_node (mark_nodes node_id (cons j js))
        ≡ some (mark_first node_id (n ∷ ns))
  unfolding decode_node decode_items mark_nodes
  mark_cons (obj ms) js n ns d ds ih = mark_one ms js n ns d ds ih
  mark_cons null js n ns d ds ih =
      let same : empty_node ≡ n = cc d in
      let f : (n.id == node_id) ≡ false =
        subst (λ (m : PlanNode). (m.id == node_id) ≡ false) same ne in
      rw (ih, f) (ap (λ (m : PlanNode). some (m ∷ mark_first node_id ns)) same)
  mark_cons (bool x) js n ns d ds ih = absurd (cc d)
  mark_cons (int x) js n ns d ds ih = absurd (cc d)
  mark_cons (str x) js n ns d ds ih = absurd (cc d)
  mark_cons (arr x) js n ns d ds ih = absurd (cc d)

  no_nodes :
      (ns : List PlanNode)
      → ◌≡◌ {A = Option (List PlanNode)} (some []) (some ns)
      → ◌≡◌ {A = Option (List PlanNode)} (some []) (some (mark_first node_id ns))
  no_nodes ns h =
      let e : [] ≡ ns = cc h in
      subst (λ l. ◌≡◌ {A = Option (List PlanNode)} (some []) (some (mark_first node_id l))) e refl

  mark_nodes-decode :
      (js : Items) (ns : List PlanNode)
      → decode_items decode_node js ≡ some ns
      → decode_items decode_node (mark_nodes node_id js) ≡ some (mark_first node_id ns)
  unfolding decode_items mark_nodes
  mark_nodes-decode nil ns h = no_nodes ns h
  mark_nodes-decode (cons j js) ns h =
      let (n, (rest, (d, (ds, e)))) =
        build_cons-head (decode_node j) (decode_items decode_node js) ns h in
      subst
        (λ l.
          decode_items decode_node (mark_nodes node_id (cons j js)) ≡ some (mark_first node_id l))
        (sym e) (mark_cons j js n rest d ds (mark_nodes-decode js rest ds))

  marked-decode :
      (o : Option Json) (ns : List PlanNode)
      → decode_list decode_node o ≡ some ns
      → decode_list decode_node (some (marked_nodes node_id (as_array o)))
        ≡ some (mark_first node_id ns)
  unfolding decode_list
  marked-decode (some (arr js)) ns h = mark_nodes-decode js ns h
  marked-decode none ns h = no_nodes ns h
  marked-decode (some null) ns h = no_nodes ns h
  marked-decode (some (bool x)) ns h = absurd (cc h)
  marked-decode (some (int x)) ns h = absurd (cc h)
  marked-decode (some (str x)) ns h = absurd (cc h)
  marked-decode (some (obj x)) ns h = absurd (cc h)

  build_plan-parts :
      (ns : Option (List PlanNode)) (es : Option (List PlanEdge)) (p : Plan)
      → build_plan ns es ≡ some p
      → (ns ≡ some p.nodes) × (es ≡ some p.edges)
  build_plan-parts (some ns) (some es) p h =
      let e : record { nodes = ns; edges = es } ≡ p = cc h in
      (ap (λ (q : Plan). some q.nodes) e, ap (λ (q : Plan). some q.edges) e)
  build_plan-parts none es p h = absurd (cc h)
  build_plan-parts (some ns) none p h = absurd (cc h)

  abbrev marked_members : Members → Members
  marked_members plan =
      set_member "nodes" (marked_nodes node_id (as_array (get_member "nodes" plan))) plan

  decode_plan-marked :
      (plan : Members) (p : Plan)
      → decode_plan (some (obj plan)) ≡ some p
      → decode_plan (some (obj (marked_members plan))) ≡ some (marked_plan node_id p)
  unfolding decode_plan
  decode_plan-marked plan p h =
      let parts = build_plan-parts _ _ p h in
      let v = marked_nodes node_id (as_array (get_member "nodes" plan)) in
      rw (
        get-set_same "nodes" v plan,
        get-set_other "nodes" "edges" v plan refl,
        marked-decode (get_member "nodes" plan) p.nodes parts.0,
        parts.1,
      )

  mark_object :
      (o : Option Json) (state state' : Members) (p : Plan)
      → o ≡ get_member "plan" state
      → decode_plan o ≡ some p
      → mark_state node_id state ≡ some state'
      → decode_state (obj state') ≡ some (marked_plan node_id p)
  unfolding mark_state decode_state
  mark_object (some (obj plan)) state state' p k d h =
      let q : mark_state node_id state
          ≡ some (set_member "plan" (obj (marked_members plan)) state) =
        ap (λ x. marked_state node_id state (as_object x)) (sym k) in
      let e : state' ≡ set_member "plan" (obj (marked_members plan)) state = cc (h, q) in
      rw (e, get-set_same "plan" (obj (marked_members plan)) state) (decode_plan-marked plan p d)
  mark_object o state state' p k d h = absurd (
      let q : mark_state node_id state ≡ none =
        ap (λ x. marked_state node_id state (as_object x)) (sym k) in
      cc (h, q))

  -- Marking a node of a state document marks the first node of that ID in the plan that is decoded.
  pub mark_state-decode :
      (state state' : Members) (p : Plan)
      → decode_state (obj state) ≡ some p
      → mark_state node_id state ≡ some state'
      → decode_state (obj state') ≡ some (marked_plan node_id p)
  unfolding decode_state
  mark_state-decode state state' p d h =
      mark_object (get_member "plan" state) state state' p refl d h
