-- ===== src/Sdk/Adapters/Succeeds.antt =====
-- The ingestion of a trace by sdk/go/adapters where the server accepts what it is sent.
use mathlib.Core.List.{append-nil}
use agent_control_plane.Prelude.{ℕ, suc, String, ◌≡◌, refl, ap, ◌∙◌, sym, some, List, [], ◌∷◌, ◌++◌}
use agent_control_plane.Json.{Json, Items}
use agent_control_plane.Plan.{Plan}
use agent_control_plane.Sdk.{
  Http, Client, Request, Answer, done, failed, wrap_answer, continue, pure, send, post_request,
}
use agent_control_plane.Sdk.Values.{AcpReceipt, AcpWorkflow, decode_created, decode_any}
use agent_control_plane.Sdk.Bodies.{creation}
use agent_control_plane.Sdk.Calls.{create_workflow, created_workflow, edit_state, get_receipts}
use agent_control_plane.Sdk.Adapters.{
  IngestResult, ingest, advance, ingest_events, count_at, count_receipts, complete_patch,
}
use agent_control_plane.Sdk.Adapters.Sent.{advance_requests}
use agent_control_plane.Sdk.Adapters.Results.{IsIngestion, IsResult, ingest-IsIngestion}
use agent_control_plane.Sdk.Sent.{logging, IsSent, with_log, send-with_log}

module _ {S A B : Type 0} (x : Answer A × S) (a : A) (e : x.0 ≡ done a) where
  -- What follows an answer, and what follows one of a call whose error is wrapped.
  continue_done : (f : A → S → Answer B × S) → continue f x ≡ f a x.1
  continue_done f = ap (λ y. continue f (y, x.1)) e

  continue_wrapped :
      (message : String) (f : A → S → Answer B × S) → continue f (wrap_answer message x) ≡ f a x.1
  continue_wrapped message f = ap (λ y. continue f (wrap_answer message (y, x.1))) e

-- A result for the workflow of the id.
abbrev pub Ingested : String → Answer IngestResult → Type 0
Ingested id a = (r : IngestResult) × ((a ≡ done r) × (r.workflow_id ≡ id))

module _ {S A B : Type 0} (f : A → B) where
  map-with_log :
      (log : List Request) (x : Answer A × S)
      → (continue (λ a. pure (f a)) (with_log log x)).0 ≡ (continue (λ a. pure (f a)) x).0
  map-with_log log (done a, s) = refl
  map-with_log log (failed e, s) = refl

module _ {S : Type 0} (http : Http S) (c : Client) where
  abbrev pub Accepts : Type 0
  Accepts = (id : String) (patches : Items) (s : S) → (edit_state http c id patches s).0 ≡ done tt

  ingest_events_done :
      (prefix id : String) (i : ℕ) (values : List Json) (s : S)
      → Accepts
      → (ingest_events http c prefix id i values s).0 ≡ done tt
  unfolding ingest_events
  ingest_events_done prefix id i [] s h = refl
  ingest_events_done prefix id i (v ∷ vs) s h =
      ap (λ x. x.0) (continue_wrapped (edit_state http c id _ s) tt (h id _ s) _ _)
      ∙ ingest_events_done prefix id (suc i) vs _ h

  count_receipts_done :
      (id : String) (x : Answer (List AcpReceipt) × S) → Ingested id (count_receipts id x).0
  count_receipts_done id (done rs, s) = (_, (refl, refl))
  count_receipts_done id (failed e, s) = (_, (refl, refl))

  advance_done :
      (prefix id : String) (values : List Json) (s : S)
      → Accepts
      → Ingested id (advance http c prefix id values s).0
  unfolding advance count_at
  advance_done prefix id values s h =
      let x = ingest_events http c prefix id 0 values s in
      let y = edit_state http c id complete_patch x.1 in
      let (r, (p, q)) = count_receipts_done id (get_receipts http c id y.1) in
      (
        r,
        (
          ap (λ z. z.0)
                (continue_done x tt (ingest_events_done prefix id 0 values s h) _
                  ∙ continue_wrapped y tt (h id complete_patch x.1) _ _)
              ∙ p,
          q,
        ),
      )

  ingest_done :
      (goal owner prefix : String) (plan : Plan) (values : List Json) (s : S) (wf : AcpWorkflow)
      → (create_workflow http c goal owner (some plan) s).0 ≡ done wf
      → Accepts
      → Ingested wf.workflow_id (ingest http c goal owner prefix plan values s).0
  unfolding ingest
  ingest_done goal owner prefix plan values s wf e h =
      let x = create_workflow http c goal owner (some plan) s in
      let (r, (p, q)) = advance_done prefix wf.workflow_id values x.1 h in
      (r, (ap (λ z. z.0) (continue_wrapped x wf e _ _) ∙ p, q))

module _ {S : Type 0} (http : Http S) (c : Client) where
  logging-Accepts : Accepts http c → Accepts (logging http) c
  unfolding edit_state
  logging-Accepts h id patches (s, log) =
      ap (λ x. x.0) (send-with_log http decode_any _ s log) ∙ h id patches s

  logging-created :
      (goal owner : String) (plan : Plan) (s : S) (log : List Request)
      → (create_workflow (logging http) c goal owner (some plan) (s, log)).0
        ≡ (create_workflow http c goal owner (some plan) s).0
  unfolding create_workflow
  logging-created goal owner plan s log =
      let req = post_request c "/workflows" (some (creation goal owner (some plan))) in
      let make = created_workflow goal owner (some plan) in
      ap (λ x. (continue (λ a. pure (make a)) x).0) (send-with_log http decode_created req s log)
      ∙ map-with_log make (log ++ req ∷ []) (send http decode_created req s)

  -- Where the server creates the workflow and accepts every edit, the ingestion of a trace succeeds with the
  -- id of that workflow, and has sent the creation, an edit for each event in their order, the edit that
  -- completes the workflow, and the question for its receipts.
  pub ingest-completes :
      (goal owner prefix : String) (plan : Plan) (values : List Json) (s : S) (log : List Request)
      (wf : AcpWorkflow)
      → (create_workflow http c goal owner (some plan) s).0 ≡ done wf
      → Accepts http c
      → Ingested wf.workflow_id (ingest (logging http) c goal owner prefix plan values (s, log)).0
        × ((ingest (logging http) c goal owner prefix plan values (s, log)).1.1
            ≡ log
              ++ post_request c "/workflows" (some (creation goal owner (some plan)))
                ∷ advance_requests c prefix wf.workflow_id values)
  unfolding IsIngestion IsSent IsResult
  ingest-completes goal owner prefix plan values s log wf e h =
      let (r, (p, q)) =
        ingest_done (logging http) c goal owner prefix plan values (s, log) wf
          (logging-created goal owner plan s log ∙ e) (logging-Accepts h) in
      let (id, ((rest, (sent, whole)), is)) =
        ingest-IsIngestion http c goal owner prefix plan values s log in
      let sent_all =
        sent
        ∙ ap
            (λ i.
              log
              ++ post_request c "/workflows" (some (creation goal owner (some plan)))
                ∷ advance_requests c prefix i values)
            (sym (is r p).0 ∙ q) in
      let out = (ingest (logging http) c goal owner prefix plan values (s, log)).1.1 in
      ((r, (p, q)), sym (append-nil out) ∙ ap (λ l. out ++ l) (sym (whole r p)) ∙ sent_all)
