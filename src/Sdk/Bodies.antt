-- ===== src/Sdk/Bodies.antt =====
-- sdk/go/acp/client.go: the bodies that the client sends, as JSON.
use agent_control_plane.Prelude.{String, Option, none, some, List, [], ◌∷◌, ◌==◌, if◌then◌else◌}
use agent_control_plane.Json.{Json, null, str, arr, obj, Items, nil, cons, Members, end, member}
use agent_control_plane.Plan.{PlanNode, PlanEdge, Plan, ModelRoute}

-- The JSON of a plan. An empty slice is nil, as it is where nothing was appended to it.
abbrev pub encode_node : PlanNode → Json
encode_node n = obj (
    member "id" (str n.id) (
      member "title" (str n.title) (
        member "agent" (str n.agent) (
          member "status" (str n.status)
            (member "risk" (str n.risk) (member "output_schema" (str n.output_schema) end))))))

-- The reason is left out where it is empty.
abbrev pub encode_edge : PlanEdge → Json
encode_edge e = obj (
    member "from" (str e.from)
      (member "to" (str e.to) (if e.reason == "" then end else member "reason" (str e.reason) end)))

module _ {A : Type 0} (encode : A → Json) where
  abbrev pub encode_items : List A → Items
  encode_items [] = nil
  encode_items (x ∷ xs) = cons (encode x) (encode_items xs)

  abbrev pub encode_list : List A → Json
  encode_list [] = null
  encode_list (x ∷ xs) = arr (encode_items (x ∷ xs))

unfoldable pub encode_plan : Plan → Json
encode_plan p = obj (
    member "nodes" (encode_list encode_node p.nodes)
      (member "edges" (encode_list encode_edge p.edges) end))

abbrev pub encode_route : ModelRoute → Json
encode_route r = obj (
    member "node_agent" (str r.node_agent)
      (member "agent_id" (str r.agent_id) (member "model" (str r.model) end)))

-- The body of CreateWorkflow.
abbrev with_plan : Option Plan → Members
with_plan none = end
with_plan (some p) = member "plan" (encode_plan p) end

unfoldable pub creation : String → String → Option Plan → Json
creation goal owner plan =
    obj (member "goal" (str goal) (member "owner" (str owner) (with_plan plan)))

-- One patch, and the body of EditState.
abbrev pub patch : String → Json → Json
patch path value = obj (member "path" (str path) (member "value" value end))

unfoldable pub edit_body : Items → Json
edit_body patches =
    obj (member "patches" (arr patches) (member "kind" (str "human_state_edit") end))

-- The bodies of the two reports of a task.
unfoldable pub completion : (output policy_result : String) → Json
completion output policy_result =
    obj (member "output" (str output) (member "policy_result" (str policy_result) end))

unfoldable pub failure : (reason : String) → Json
failure reason = obj (member "reason" (str reason) end)

unfoldable pub routes_body : List ModelRoute → Json
routes_body routes = obj (member "routes" (encode_list encode_route routes) end)
