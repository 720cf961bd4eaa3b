-- ===== src/Sdk/Adapters/Results.antt =====
-- What an ingestion by sdk/go/adapters has sent where it returns a result, and where it returns an error.
use agent_control_plane.Prelude.{String, ◌≡◌, refl, sym, ap, ◌∙◌, some, List, [], ◌∷◌, ◌++◌, map}
use mathlib.Core.List.{append-nil, append_assoc}
use agent_control_plane.Json.{Json, Codec}
use agent_control_plane.Plan.{Plan}
use agent_control_plane.Sdk.{
  Http, Client, Request, Answer, done, failed, pure, wrap, wrap_answer, continue, post_request,
  send,
}
use agent_control_plane.Sdk.Values.{AcpReceipt, AcpWorkflow, decode_created}
use agent_control_plane.Sdk.Bodies.{creation}
use agent_control_plane.Sdk.Calls.{create_workflow, edit_state, get_receipts}
use agent_control_plane.Sdk.Adapters.{
  LangGraphRun, CrewAiRun, TemporalRun, lang_graph_goal, crew_ai_goal, temporal_goal,
  lang_graph_plan, crew_ai_plan, temporal_plan, lang_graph_value, crew_ai_value, temporal_value,
  ingest_lang_graph, ingest_crew_ai, ingest_temporal, IngestResult, ingest, advance, ingest_events,
  count_at, count_receipts, complete_patch,
}
use agent_control_plane.Sdk.Sent.{logging, IsSent, send-sent}
use agent_control_plane.Sdk.Adapters.Sent.{advance_requests, advance-IsSent}

module _ {S : Type 0} (http : Http S) (c : Client) where
  -- A result is that of the workflow, and complete.
  unfoldable pub IsResult : String → Answer IngestResult × (S × List Request) → Type 0
  IsResult id x = (r : IngestResult) → x.0 ≡ done r → (r.workflow_id ≡ id) × (r.stage ≡ "complete")

  count-IsResult :
      (id : String) (x : Answer (List AcpReceipt) × (S × List Request))
      → IsResult id (count_receipts id x)
  unfolding IsResult
  count-IsResult id (done rs, s) r e = (cc e, cc e)
  count-IsResult id (failed f, s) r e = (cc e, cc e)

  continue-IsResult :
      {A : Type 0} (id : String)
      (f : A → S × List Request → Answer IngestResult × (S × List Request))
      (x : Answer A × (S × List Request))
      → ((a : A) (y : S × List Request) → IsResult id (f a y))
      → IsResult id (continue f x)
  unfolding IsResult
  continue-IsResult id f (done a, y) h = h a y
  continue-IsResult id f (failed e, y) h = λ r p. absurd (cc p)

  advance-IsResult :
      (prefix id : String) (values : List Json) (s : S × List Request)
      → IsResult id (advance (logging http) c prefix id values s)
  unfolding advance count_at
  advance-IsResult prefix id values s =
      continue-IsResult {A = Unit {0}} id _ (ingest_events (logging http) c prefix id 0 values s)
        λ _ y.
          continue-IsResult {A = Unit {0}} id _
            (wrap "mark complete" (edit_state (logging http) c id complete_patch) y)
            λ _ z. count-IsResult id (get_receipts (logging http) c id z)

  -- The creation, then the events in their order, the completion and the question for the receipts.
  unfoldable pub IsIngestion :
      (goal owner prefix : String)
      → Plan
      → List Json
      → List Request
      → Answer IngestResult × (S × List Request)
      → Type 0
  IsIngestion goal owner prefix plan values log x =
      (id : String) × (IsSent x log (
          post_request c "/workflows" (some (creation goal owner (some plan)))
          ∷ advance_requests c prefix id values)
        × IsResult id x)

  moved :
      (r : Request) (log sent after : List Request)
      → sent ≡ log ++ r ∷ []
      → sent ++ after ≡ log ++ r ∷ after
  moved r log sent after q = ap (λ l. l ++ after) q ∙ append_assoc log (r ∷ []) after

  created-IsIngestion :
      (goal owner prefix : String) (plan : Plan) (values : List Json) (log : List Request)
      (x : Answer AcpWorkflow × (S × List Request))
      → x.1.1 ≡ log ++ post_request c "/workflows" (some (creation goal owner (some plan))) ∷ []
      → IsIngestion goal owner prefix plan values log (
          continue
            (λ (wf : AcpWorkflow). advance (logging http) c prefix wf.workflow_id values)
            (wrap_answer "create workflow" x))
  unfolding IsIngestion IsSent IsResult
  created-IsIngestion goal owner prefix plan values log (failed e, s) q = (
    "",
    (
      (advance_requests c prefix "" values, (moved _ log s.1 _ q, λ a p. absurd (cc p))),
      λ r p. absurd (cc p),
    ),
  )
  created-IsIngestion goal owner prefix plan values log (done wf, s) q =
      let (rest, (p, k)) = advance-IsSent http c prefix wf.workflow_id values s in
      (
        wf.workflow_id,
        ((rest, (p ∙ moved _ log s.1 _ q, k)), advance-IsResult prefix wf.workflow_id values s),
      )

  map-sent :
      {A B : Type 0} (f : A → B) (x : Answer A × (S × List Request))
      → (continue (λ a. pure (f a)) x).1 ≡ x.1
  map-sent f (done a, s) = refl
  map-sent f (failed e, s) = refl

  create_workflow-sent :
      (goal owner : String) (plan : Plan) (s : S) (log : List Request)
      → (create_workflow (logging http) c goal owner (some plan) (s, log)).1.1
        ≡ log ++ post_request c "/workflows" (some (creation goal owner (some plan))) ∷ []
  unfolding create_workflow
  create_workflow-sent goal owner plan s log =
      let req = post_request c "/workflows" (some (creation goal owner (some plan))) in
      ap (λ y. y.1) (map-sent _ (send (logging http) decode_created req (s, log)))
      ∙ send-sent log http decode_created req s

  pub ingest-IsIngestion :
      (goal owner prefix : String) (plan : Plan) (values : List Json) (s : S) (log : List Request)
      → IsIngestion goal owner prefix plan values log
          (ingest (logging http) c goal owner prefix plan values (s, log))
  unfolding ingest
  ingest-IsIngestion goal owner prefix plan values s log =
      created-IsIngestion goal owner prefix plan values log
        (create_workflow (logging http) c goal owner (some plan) (s, log))
        (create_workflow-sent goal owner plan s log)

  -- The requests of an ingestion under an id.
  abbrev pub ingest_requests :
      (goal owner prefix : String) → Plan → List Json → (id : String) → List Request
  ingest_requests goal owner prefix plan values id =
      post_request c "/workflows" (some (creation goal owner (some plan)))
      ∷ advance_requests c prefix id values

  -- Where there is a result, all of the requests went out, and where there is none a beginning of them.
  unfoldable pub HasSent :
      (requests : String → List Request)
      → List Request
      → Answer IngestResult × (S × List Request)
      → Type 0
  HasSent requests log (done r, s) = (s.1 ≡ log ++ requests r.workflow_id) × (r.stage ≡ "complete")
  HasSent requests log (failed e, s) =
      (id : String) × (rest : List Request) × (s.1 ++ rest ≡ log ++ requests id)

  has_sent :
      (goal owner prefix : String) (plan : Plan) (values : List Json) (log : List Request)
      (x : Answer IngestResult × (S × List Request))
      → IsIngestion goal owner prefix plan values log x
      → HasSent (ingest_requests goal owner prefix plan values) log x
  unfolding IsIngestion IsSent IsResult HasSent
  has_sent goal owner prefix plan values log (done r, s) (id, ((rest, (q, h)), k)) =
      let requests = ingest_requests goal owner prefix plan values in
      (
        sym (append-nil s.1)
            ∙ ap (λ l. s.1 ++ l) (sym (h r refl))
            ∙ q
            ∙ ap (λ i. log ++ requests i) (sym (k r refl).0),
        (k r refl).1,
      )
  has_sent goal owner prefix plan values log (failed e, s) (id, ((rest, (q, h)), k)) = (id, rest, q)

  ingest-HasSent :
      (goal owner prefix : String) (plan : Plan) (values : List Json) (s : S) (log : List Request)
      → HasSent
          (ingest_requests goal owner prefix plan values)
          log
          (ingest (logging http) c goal owner prefix plan values (s, log))
  ingest-HasSent goal owner prefix plan values s log =
      has_sent goal owner prefix plan values log _
        (ingest-IsIngestion goal owner prefix plan values s log)

  -- Whatever the server replies, each adapter sends a beginning of: the creation with the trace's plan, an
  -- edit for each event in their order, the completion, the question for the receipts. Where it returns a
  -- result, it has sent all of them, and the result is complete and names the workflow of the edits.
  pub adapters-HasSent :
      (codec : Codec) (owner : String) (g : LangGraphRun) (w : CrewAiRun) (t : TemporalRun) (s : S)
      (log : List Request)
      → HasSent
          (ingest_requests
            (lang_graph_goal g)
            owner
            "var.lg_event_"
            (lang_graph_plan g)
            (map (lang_graph_value codec) g.events))
          log
          (ingest_lang_graph (logging http) c codec owner g (s, log))
        × (HasSent
              (ingest_requests
                (crew_ai_goal w)
                owner
                "var.crew_event_"
                (crew_ai_plan w)
                (map (crew_ai_value codec) w.events))
              log
              (ingest_crew_ai (logging http) c codec owner w (s, log))
            × HasSent
                (ingest_requests
                  (temporal_goal t)
                  owner
                  "var.temporal_event_"
                  (temporal_plan t)
                  (map (temporal_value codec) t.events))
                log
                (ingest_temporal (logging http) c codec owner t (s, log)))
  unfolding ingest_lang_graph ingest_crew_ai ingest_temporal
  adapters-HasSent codec owner g w t s log = (
    ingest-HasSent _ owner _ _ _ s log,
    (ingest-HasSent _ owner _ _ _ s log, ingest-HasSent _ owner _ _ _ s log),
  )
