-- ===== src/Plan/Decode.antt =====
-- How encoding/json decodes a state document into the struct types of acpd/internal/store/plan.go: a
-- member that is missing or null leaves its field empty, and one of another type is an error.
use agent_control_plane.Prelude.{String, Option, none, some, List, [], ◌∷◌}
use agent_control_plane.Json.{Json, null, str, arr, obj, Items, nil, cons, get_member}
use agent_control_plane.Plan.{PlanNode, PlanEdge, Plan}

unfoldable pub decode_string : Option Json → Option String
decode_string none = some ""
decode_string (some null) = some ""
decode_string (some (str s)) = some s
decode_string (some _) = none

abbrev bind : {A B : Type 0} → Option A → (A → Option B) → Option B
bind none f = none
bind (some a) f = f a

abbrev pub empty_node : PlanNode
empty_node = record { id = ""; title = ""; agent = ""; status = ""; risk = ""; output_schema = "" }

abbrev pub build_node : (id title agent status risk output_schema : Option String) → Option PlanNode
build_node (some id) (some title) (some agent) (some status) (some risk) (some output_schema) =
    some (record {
      id = id;
      title = title;
      agent = agent;
      status = status;
      risk = risk;
      output_schema = output_schema;
    })
build_node _ _ _ _ _ _ = none

unfoldable pub decode_node : Json → Option PlanNode
unfolding decode_string
decode_node null = some empty_node
decode_node (obj ms) =
    build_node (decode_string (get_member "id" ms)) (decode_string (get_member "title" ms))
      (decode_string (get_member "agent" ms)) (decode_string (get_member "status" ms))
      (decode_string (get_member "risk" ms)) (decode_string (get_member "output_schema" ms))
decode_node _ = none

abbrev empty_edge : PlanEdge
empty_edge = record { from = ""; to = ""; reason = "" }

unfoldable pub decode_edge : Json → Option PlanEdge
unfolding decode_string
decode_edge null = some empty_edge
decode_edge (obj ms) = bind (decode_string (get_member "from" ms)) λ from.
    bind (decode_string (get_member "to" ms)) λ to.
      bind (decode_string (get_member "reason" ms))
        λ reason. some (record { from = from; to = to; reason = reason })
decode_edge _ = none

module _ {A : Type 0} where
  abbrev pub build_cons : Option A → Option (List A) → Option (List A)
  build_cons (some a) (some rest) = some (a ∷ rest)
  build_cons _ _ = none

  unfoldable pub decode_items : (Json → Option A) → Items → Option (List A)
  decode_items f nil = some []
  decode_items f (cons j js) = build_cons (f j) (decode_items f js)

  unfoldable pub decode_list : (Json → Option A) → Option Json → Option (List A)
  unfolding decode_items
  decode_list f none = some []
  decode_list f (some null) = some []
  decode_list f (some (arr js)) = decode_items f js
  decode_list f (some _) = none

abbrev pub build_plan : Option (List PlanNode) → Option (List PlanEdge) → Option Plan
build_plan (some nodes) (some edges) = some (record { nodes = nodes; edges = edges })
build_plan _ _ = none

unfoldable pub decode_plan : Option Json → Option Plan
unfolding decode_list decode_node decode_edge
decode_plan none = some (record { nodes = []; edges = [] })
decode_plan (some null) = some (record { nodes = []; edges = [] })
decode_plan (some (obj ms)) =
    build_plan (decode_list decode_node (get_member "nodes" ms))
      (decode_list decode_edge (get_member "edges" ms))
decode_plan (some _) = none

-- var state struct { Plan Plan `json:"plan"` }
unfoldable pub decode_state : Json → Option Plan
unfolding decode_plan
decode_state null = some (record { nodes = []; edges = [] })
decode_state (obj ms) = decode_plan (get_member "plan" ms)
decode_state _ = none
