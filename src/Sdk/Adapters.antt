-- ===== src/Sdk/Adapters.antt =====
-- sdk/go/adapters/adapters.go: the ingestion of traces of LangGraph, CrewAI and Temporal. The three functions
-- of the source repeat the steps that `ingest` has once.
pub mod Sent
pub mod Results
pub mod Succeeds
use Prim.Native.String.{◌++◌}
use agent_control_plane.Prelude.{ℕ, suc, String, Option, some, List, [], ◌∷◌, map, length, decimal}
use agent_control_plane.Json.{Json, str, obj, Items, nil, cons, Members, end, member, Codec}
use agent_control_plane.Plan.{PlanNode, PlanEdge, Plan}
use agent_control_plane.Sdk.{Http, Client, Session, Answer, done, failed, pure, ◌>>=◌, ◌>>◌, wrap}
use agent_control_plane.Sdk.Values.{AcpWorkflow, AcpReceipt}
use agent_control_plane.Sdk.Bodies.{patch}
use agent_control_plane.Sdk.Calls.{create_workflow, edit_state, get_receipts}

pub record LangGraphNode : Type 0 where
  pub id : String
  pub type : String
  pub metadata : Option Members

pub record LangGraphEdge : Type 0 where
  pub from : String
  pub to : String

pub record LangGraphEvent : Type 0 where
  pub type : String
  pub node_id : String
  pub output : Json
  pub tool : String

pub record LangGraphRun : Type 0 where
  pub run_id : String
  pub nodes : List LangGraphNode
  pub edges : List LangGraphEdge
  pub events : List LangGraphEvent

pub record CrewAiTask : Type 0 where
  pub id : String
  pub description : String
  pub agent_id : String

pub record CrewAiEvent : Type 0 where
  pub type : String
  pub task_id : String
  pub agent_id : String
  pub output : Json

pub record CrewAiRun : Type 0 where
  pub crew_id : String
  pub tasks : List CrewAiTask
  pub events : List CrewAiEvent

pub record TemporalActivity : Type 0 where
  pub id : String
  pub name : String

pub record TemporalEvent : Type 0 where
  pub type : String
  pub activity_id : String
  pub output : Json

pub record TemporalRun : Type 0 where
  pub run_id : String
  pub workflow : String
  pub activities : List TemporalActivity
  pub events : List TemporalEvent

-- IngestResult, whose list of artifacts no adapter sets.
pub record IngestResult : Type 0 where
  pub workflow_id : String
  pub receipts : ℕ
  pub artifacts : List String
  pub stage : String

abbrev pending_node : (id title agent : String) → PlanNode
pending_node id title agent = record {
  id = id;
  title = title;
  agent = agent;
  status = "pending";
  risk = "medium";
  output_schema = "";
}

unfoldable pub lang_graph_plan : LangGraphRun → Plan
lang_graph_plan run = record {
  nodes = map (λ (n : LangGraphNode). pending_node n.id n.type ("langgraph:" ++ n.id)) run.nodes;
  edges =
      map (λ (e : LangGraphEdge). record { from = e.from; to = e.to; reason = "langgraph edge" })
        run.edges;
}

unfoldable pub crew_ai_plan : CrewAiRun → Plan
crew_ai_plan run = record {
  nodes =
      map (λ (t : CrewAiTask). pending_node t.id t.description ("crewai:" ++ t.agent_id)) run.tasks;
  edges = [];
}

unfoldable pub temporal_plan : TemporalRun → Plan
temporal_plan run = record {
  nodes =
      map (λ (a : TemporalActivity). pending_node a.id a.name ("temporal:" ++ a.id)) run.activities;
  edges = [];
}

-- The goals of the workflows.
abbrev pub lang_graph_goal : LangGraphRun → String
lang_graph_goal run = "LangGraph run: " ++ run.run_id

abbrev pub crew_ai_goal : CrewAiRun → String
crew_ai_goal run = "CrewAI run: " ++ run.crew_id

abbrev pub temporal_goal : TemporalRun → String
temporal_goal run = "Temporal run: " ++ run.run_id ++ " (" ++ run.workflow ++ ")"

-- The value that stands for an event.
unfoldable pub lang_graph_value : Codec → LangGraphEvent → Json
lang_graph_value codec e = obj (
    member "type" (str e.type)
      (member "node_id" (str e.node_id) (member "output" (str (codec.marshal e.output)) end)))

unfoldable pub crew_ai_value : Codec → CrewAiEvent → Json
crew_ai_value codec e = obj (
    member "type" (str e.type) (
      member "task_id" (str e.task_id)
        (member "agent_id" (str e.agent_id) (member "output" (str (codec.marshal e.output)) end))))

unfoldable pub temporal_value : Codec → TemporalEvent → Json
temporal_value codec e = obj (
    member "type" (str e.type) (
      member "activity_id" (str e.activity_id)
        (member "output" (str (codec.marshal e.output)) end)))

-- The patch of the event of a number, whose variable has that number behind `prefix`.
unfoldable pub event_patch : (prefix : String) → ℕ → Json → Items
unfolding decimal
event_patch prefix i value = cons (patch (prefix ++ decimal i) value) nil

abbrev pub complete_patch : Items
complete_patch = cons (patch "stage" (str "complete")) nil

abbrev pub count_receipts :
    {S : Type 0} → String → Answer (List AcpReceipt) × S → Answer IngestResult × S
count_receipts id (done rs, s) = (
  done (record { workflow_id = id; receipts = length rs; artifacts = []; stage = "complete" }),
  s,
)
count_receipts id (failed e, s) =
    (done (record { workflow_id = id; receipts = 0; artifacts = []; stage = "complete" }), s)

module _ {S : Type 0} (http : Http S) (c : Client) where
  -- The loop over the events, from the number `i` on.
  unfoldable pub ingest_events : (prefix id : String) → ℕ → List Json → Session S (Unit {0})
  unfolding edit_state event_patch decimal
  ingest_events prefix id i [] = pure tt
  ingest_events prefix id i (v ∷ vs) = do
    wrap ("ingest event " ++ decimal i) (edit_state http c id (event_patch prefix i v))
    ingest_events prefix id (suc i) vs

  -- An error of the last request is dropped, and no receipt is counted.
  unfoldable pub count_at : String → Session S IngestResult
  unfolding get_receipts
  count_at id s = count_receipts id (get_receipts http c id s)

  unfoldable pub advance : (prefix id : String) → List Json → Session S IngestResult
  unfolding ingest_events edit_state count_at
  advance prefix id values = do
    ingest_events prefix id 0 values
    wrap "mark complete" (edit_state http c id complete_patch)
    count_at id

  unfoldable pub ingest : (goal owner prefix : String) → Plan → List Json → Session S IngestResult
  unfolding create_workflow advance
  ingest goal owner prefix plan values = do
    wf ← wrap "create workflow" (create_workflow http c goal owner (some plan))
    advance prefix wf.workflow_id values

  unfoldable pub ingest_lang_graph : Codec → String → LangGraphRun → Session S IngestResult
  unfolding ingest lang_graph_plan lang_graph_value
  ingest_lang_graph codec owner run =
      ingest (lang_graph_goal run) owner "var.lg_event_" (lang_graph_plan run)
        (map (lang_graph_value codec) run.events)

  unfoldable pub ingest_crew_ai : Codec → String → CrewAiRun → Session S IngestResult
  unfolding ingest crew_ai_plan crew_ai_value
  ingest_crew_ai codec owner run =
      ingest (crew_ai_goal run) owner "var.crew_event_" (crew_ai_plan run)
        (map (crew_ai_value codec) run.events)

  unfoldable pub ingest_temporal : Codec → String → TemporalRun → Session S IngestResult
  unfolding ingest temporal_plan temporal_value
  ingest_temporal codec owner run =
      ingest (temporal_goal run) owner "var.temporal_event_" (temporal_plan run)
        (map (temporal_value codec) run.events)
