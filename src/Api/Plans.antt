-- ===== src/Api/Plans.antt =====
-- acpd/internal/api/workflows.go: executePlan, markNodeDone and handleModelRoutes.
use agent_control_plane.Prelude.{
  ℕ, String, true, Option, none, some, List, [], ◌∷◌, length, pos, ◌==◌, if◌then◌else◌,
}
use agent_control_plane.Sql.{panicked, Result, ok, err}
use agent_control_plane.Json.{
  Json, null, bool, int, str, arr, obj, end, member, strings, get_member, Codec,
}
use agent_control_plane.Schema.{Tables}
use agent_control_plane.Plan.{ModelRoute}
use agent_control_plane.Plan.Decode.{decode_string, decode_list}
use agent_control_plane.Plan.Enqueue.{enqueue_plan_tasks}
use agent_control_plane.Plan.Mark.{mark_plan_node_done}
use agent_control_plane.Api.{Call, Reply, error_reply, no_reply}

abbrev pub build_route : (node_agent agent_id model : Option String) → Option ModelRoute
build_route (some node_agent) (some agent_id) (some model) =
    some (record { node_agent = node_agent; agent_id = agent_id; model = model })
build_route _ _ _ = none

unfoldable pub decode_route : Json → Option ModelRoute
unfolding decode_string get_member
decode_route null = build_route (some "") (some "") (some "")
decode_route (obj ms) =
    build_route (decode_string (get_member "node_agent" ms))
      (decode_string (get_member "agent_id" ms)) (decode_string (get_member "model" ms))
decode_route _ = none

abbrev pub routes_or_none : Option (List ModelRoute) → List ModelRoute
routes_or_none none = []
routes_or_none (some routes) = routes

-- The field `routes` of the body; where the body is not decoded, there are none.
unfoldable pub decode_routes : Option Json → List ModelRoute
unfolding decode_list decode_route get_member
decode_routes (some (obj ms)) = routes_or_none (decode_list decode_route (get_member "routes" ms))
decode_routes _ = []

-- The slice of the ids is nil where no task was added, and is printed as null.
abbrev ids_json : List String → Json
ids_json [] = null
ids_json (id ∷ ids) = arr (strings (id ∷ ids))

unfoldable pub execute_reply : List String → Reply
execute_reply ids = record {
  code = 200;
  body =
      member "ok" (bool true)
        (member "enqueued" (int (pos (length ids))) (member "task_ids" (ids_json ids) end));
}

unfoldable pub marked_reply : String → String → Reply
marked_reply id node_id = record {
  code = 200;
  body = member "ok" (bool true) (
      member "workflow_id" (str id)
        (member "node_id" (str node_id) (member "status" (str "done") end)));
}

module _ (c : Codec) (now : ℕ) (id : String) where
  abbrev pub execute_replied : Result (List String) × Tables → Reply × Tables
  execute_replied (ok ids, db) = (execute_reply ids, db)
  execute_replied (err e, db) = (error_reply 500 "enqueue", db)

  unfoldable pub execute_plan : Call → Tables → Reply × Tables
  unfolding decode_routes execute_reply error_reply
  execute_plan call db =
      if call.method == "POST"
      then execute_replied (enqueue_plan_tasks c now id (decode_routes call.body) db)
      else (error_reply 405 "method not allowed", db)

  abbrev pub mark_replied : String → Result (Unit {0}) × Tables → Reply × Tables
  mark_replied node_id (ok _, db) = (marked_reply id node_id, db)
  mark_replied node_id (err panicked, db) = (no_reply, db)
  mark_replied node_id (err e, db) = (error_reply 500 "mark", db)

  unfoldable pub mark_node_done : String → Call → Tables → Reply × Tables
  unfolding marked_reply error_reply
  mark_node_done node_id call db =
      if call.method == "POST"
      then mark_replied node_id (mark_plan_node_done c now id node_id db)
      else (error_reply 405 "method not allowed", db)

abbrev pub model_routes : List ModelRoute
model_routes =
    record {
      node_agent = "research_agent";
      agent_id = "agent:claude-opus";
      model = "claude-opus-4-6";
    }
    ∷ record {
      node_agent = "finance_agent";
      agent_id = "agent:claude-sonnet";
      model = "claude-sonnet-4-6";
    }
    ∷ record {
      node_agent = "legal_agent";
      agent_id = "agent:claude-opus";
      model = "claude-opus-4-6";
    }
    ∷ record {
      node_agent = "procurement_agent";
      agent_id = "agent:claude-sonnet";
      model = "claude-sonnet-4-6";
    }
    ∷ record { node_agent = "manager"; agent_id = "agent:operator"; model = "human" }
    ∷ []
