-- ===== src/Examples/Clients.antt =====
-- A client, a worker and an adapter of the Go SDK against small servers.
use agent_control_plane.Prelude.{pos, ℕ, suc, ◌≡◌, refl, none, some, [], ◌∷◌, ◌++◌, map}
use agent_control_plane.Json.{Json, null, str, obj, Members, end, member, Codec, get_member}
use agent_control_plane.Plan.{Plan, ModelRoute}
use agent_control_plane.Plan.Decode.{decode_string, decode_plan}
use agent_control_plane.Api.Forks.{decode_int}
use agent_control_plane.Api.Create.{decode_request}
use agent_control_plane.Api.Edits.{Patch, decode_patches}
use agent_control_plane.Api.Plans.{decode_routes}
use agent_control_plane.Sdk.{Http, Client, done, post_request, get_request, send, read_response}
use agent_control_plane.Sdk.Values.{
  decode_claim, decode_task, members_of, decode_any, decode_created, decode_bool,
}
use agent_control_plane.Sdk.Bodies.{creation, edit_body, routes_body, encode_items}
use agent_control_plane.Sdk.Calls.{create_workflow, edit_state, claim_task, claim_path}
use agent_control_plane.Sdk.Sent.{logging}
use agent_control_plane.Sdk.Plans.{to_json, decode-bodies}
use agent_control_plane.Sdk.Worker.{TaskHandler, beat, act, output, process_one}
use agent_control_plane.Sdk.Worker.Reports.{lifted, requests_after, process_one-sends}
use agent_control_plane.Sdk.Adapters.{
  LangGraphRun, CrewAiRun, TemporalRun, ingest, lang_graph_plan, lang_graph_goal, ingest_lang_graph,
  lang_graph_value, crew_ai_goal, crew_ai_plan, crew_ai_value, ingest_crew_ai, temporal_goal,
  temporal_plan, temporal_value, ingest_temporal,
}
use agent_control_plane.Sdk.Adapters.Sent.{advance_requests}
use agent_control_plane.Sdk.Adapters.Results.{HasSent, ingest_requests, adapters-HasSent}
use agent_control_plane.Sdk.Adapters.Succeeds.{Accepts, Ingested, ingest-completes}

abbrev client : Client
client = record { base_url = "http://localhost"; api_key = "k" }

abbrev small_plan : Plan
small_plan = record {
  nodes =
      record {
        id = "a";
        title = "tool";
        agent = "langgraph:a";
        status = "pending";
        risk = "medium";
        output_schema = "";
      }
      ∷ [];
  edges = record { from = "a"; to = "b"; reason = "" } ∷ [];
}

abbrev stage_patch : Patch
stage_patch = record { path = "stage"; value = str "review" }

abbrev route : ModelRoute
route = record { node_agent = "planner"; agent_id = "agent_1"; model = "m" }

decode-bodies_example :
    ((ms : Members) × ((decode_request (some (creation "ship" "ann" (some small_plan)))
          ≡ some (record { workflow_id = ""; goal = "ship"; owner = "ann"; plan = some ms }))
        × (decode_plan (some (obj ms)) ≡ some small_plan)))
    × ((decode_patches (some (edit_body (encode_items to_json (stage_patch ∷ []))))
          ≡ some (stage_patch ∷ []))
        × (decode_routes (some (routes_body (route ∷ []))) ≡ route ∷ []))
decode-bodies_example = decode-bodies "ship" "ann" small_plan (stage_patch ∷ []) (route ∷ [])

-- A server that counts the requests, and whose only reply has the fields of a creation and of a claim.
abbrev reply_body : Json
reply_body =
    obj (
      member "workflow_id" (str "wf_1") (member "task" (obj (member "task_id" (str "t1") end)) end))

abbrev counting : Http ℕ
counting r n = (some (record { code = 200; body = some reply_body }), suc n)

counting-Accepts : Accepts counting client
unfolding edit_state send read_response decode_any members_of
counting-Accepts id patches s = refl

counting-created :
    (create_workflow counting client "ship" "ann" (some small_plan) 0).0
    ≡ done (record {
      workflow_id = "wf_1";
      goal = "ship";
      owner = "ann";
      stage = "";
      state_hash = "";
      plan = some small_plan;
    })
unfolding create_workflow send read_response decode_created decode_string decode_bool get_member
    members_of
counting-created = refl

ingest-completes_example :
    Ingested "wf_1"
      (ingest
        (logging counting)
        client
        "ship"
        "ann"
        "var.lg_event_"
        small_plan
        (str "x" ∷ str "y" ∷ [])
        (0, [])).0
    × ((ingest
          (logging counting)
          client
          "ship"
          "ann"
          "var.lg_event_"
          small_plan
          (str "x" ∷ str "y" ∷ [])
          (0, [])).1.1
        ≡ []
          ++ post_request client "/workflows" (some (creation "ship" "ann" (some small_plan)))
            ∷ advance_requests client "var.lg_event_" "wf_1" (str "x" ∷ str "y" ∷ []))
ingest-completes_example =
    ingest-completes counting client "ship" "ann" "var.lg_event_" small_plan
      (str "x" ∷ str "y" ∷ []) 0 [] _ counting-created counting-Accepts

-- A handler that runs across two ticks of the heartbeat.
abbrev slow : TaskHandler ℕ
slow = record { turns = λ t. beat ∷ act (λ n. suc n) ∷ beat ∷ []; answer = λ t n. output t.task_id }

process_one-sends_example :
    process_one (logging counting) client "agent_1" (lifted slow) (0, []) ≡ (
      process_one counting client "agent_1" slow 0,
      []
          ++ get_request client (claim_path "agent_1")
            ∷ requests_after counting client "agent_1" slow
                (claim_task counting client "agent_1" 0),
    )
process_one-sends_example = process_one-sends counting client "agent_1" slow 0 []

abbrev codec : Codec
codec = record { marshal = λ j. "{}"; unmarshal = λ s. none; sha256_hex = λ s. s }

abbrev graph : LangGraphRun
graph = record {
  run_id = "r1";
  nodes = record { id = "a"; type = "tool"; metadata = none } ∷ [];
  edges = [];
  events = record { type = "end"; node_id = "a"; output = null; tool = "" } ∷ [];
}

abbrev crew : CrewAiRun
crew = record {
  crew_id = "c1";
  tasks = record { id = "t1"; description = "write"; agent_id = "ann" } ∷ [];
  events = record { type = "end"; task_id = "t1"; agent_id = "ann"; output = null } ∷ [];
}

abbrev temporal : TemporalRun
temporal = record {
  run_id = "r2";
  workflow = "order";
  activities = record { id = "a1"; name = "pay" } ∷ [];
  events = record { type = "end"; activity_id = "a1"; output = null } ∷ [];
}

adapters-HasSent_example :
    HasSent counting client
      (ingest_requests counting client
        (lang_graph_goal graph)
        "ann"
        "var.lg_event_"
        (lang_graph_plan graph)
        (map (lang_graph_value codec) graph.events))
      []
      (ingest_lang_graph (logging counting) client codec "ann" graph (0, []))
    × (HasSent counting client
          (ingest_requests counting client
            (crew_ai_goal crew)
            "ann"
            "var.crew_event_"
            (crew_ai_plan crew)
            (map (crew_ai_value codec) crew.events))
          []
          (ingest_crew_ai (logging counting) client codec "ann" crew (0, []))
        × HasSent counting client
            (ingest_requests counting client
              (temporal_goal temporal)
              "ann"
              "var.temporal_event_"
              (temporal_plan temporal)
              (map (temporal_value codec) temporal.events))
            []
            (ingest_temporal (logging counting) client codec "ann" temporal (0, [])))
adapters-HasSent_example = adapters-HasSent counting client codec "ann" graph crew temporal 0 []

-- The server prints a task under the names of the fields of store.Task, and the client finds no id.
printed_task :
    (decode_claim (obj (member "task" (obj (member "TaskID" (str "t1") end)) end)))
    ≡ some (
        some (record {
          task_id = "";
          workflow_id = "";
          node_id = "";
          agent = "";
          status = "";
          input_json = none;
          output_json = none;
          attempt_count = pos 0;
          max_attempts = pos 0;
          priority_lane = "";
        }))
unfolding decode_claim decode_task members_of decode_string decode_int get_member
printed_task = refl
