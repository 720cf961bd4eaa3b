-- ===== src/Sdk/Adapters/Sent.antt =====
-- What the adapters of sdk/go/adapters send, whatever the server replies.
use agent_control_plane.Prelude.{ℕ, suc, String, ◌≡◌, refl, ap, ◌∙◌, some, List, [], ◌∷◌, ◌++◌}
use mathlib.Core.List.{append-nil}
use agent_control_plane.Json.{Json, Items}
use agent_control_plane.Sdk.{
  Http, Client, Request, Answer, done, failed, wrap, post_request, get_request,
}
use agent_control_plane.Sdk.Values.{AcpReceipt}
use agent_control_plane.Sdk.Bodies.{edit_body}
use agent_control_plane.Sdk.Calls.{edit_state, get_receipts, edit_path, receipts_path}
use agent_control_plane.Sdk.Values.{decode_any}
use agent_control_plane.Sdk.Adapters.{
  advance, ingest_events, count_at, count_receipts, event_patch, complete_patch,
}
use agent_control_plane.Sdk.Sent.{
  logging, IsSent, wrap-IsSent, pure-IsSent, send-IsSent, send-sent, continue-IsSent,
}

abbrev pub edit_request : Client → String → Items → Request
unfolding post_request edit_body
edit_request c id patches = post_request c (edit_path id) (some (edit_body patches))

-- The requests for events, numbered from `i` on.
unfoldable event_requests : Client → (prefix id : String) → ℕ → List Json → List Request
unfolding event_patch
event_requests c prefix id i [] = []
event_requests c prefix id i (v ∷ vs) =
    edit_request c id (event_patch prefix i v) ∷ event_requests c prefix id (suc i) vs

-- What an ingestion sends after the workflow was created under the id.
unfoldable pub advance_requests : Client → (prefix id : String) → List Json → List Request
unfolding event_requests get_request
advance_requests c prefix id values =
    event_requests c prefix id 0 values
    ++ edit_request c id complete_patch ∷ get_request c (receipts_path id) ∷ []

module _ {S : Type 0} (http : Http S) (c : Client) where
  edit_state-IsSent :
      (message id : String) (patches : Items) (s : S × List Request)
      → IsSent
          (wrap message (edit_state (logging http) c id patches) s)
          s.1
          (edit_request c id patches ∷ [])
  unfolding edit_state post_request edit_request
  edit_state-IsSent message id patches (s, log) =
      wrap-IsSent log message _ _ (send-IsSent log http decode_any (edit_request c id patches) s)

  ingest_events-IsSent :
      (prefix id : String) (i : ℕ) (values : List Json) (s : S × List Request)
      → IsSent
          (ingest_events (logging http) c prefix id i values s)
          s.1
          (event_requests c prefix id i values)
  unfolding ingest_events event_requests
  ingest_events-IsSent prefix id i [] (s, log) = pure-IsSent log tt s
  ingest_events-IsSent prefix id i (v ∷ vs) (s, log) =
      continue-IsSent log (λ _. ingest_events (logging http) c prefix id (suc i) vs) _
        (edit_request c id (event_patch prefix i v) ∷ []) (event_requests c prefix id (suc i) vs)
        (edit_state-IsSent _ id (event_patch prefix i v) (s, log))
        (λ _ y. ingest_events-IsSent prefix id (suc i) vs y)

  count-sent :
      (id : String) (x : Answer (List AcpReceipt) × (S × List Request))
      → (count_receipts id x).1 ≡ x.1
  count-sent id (done rs, s) = refl
  count-sent id (failed e, s) = refl

  count_at-IsSent :
      (id : String) (s : S × List Request)
      → IsSent (count_at (logging http) c id s) s.1 (get_request c (receipts_path id) ∷ [])
  unfolding count_at get_receipts IsSent
  count_at-IsSent id (s, log) =
      ([], (append-nil _ ∙ ap (λ y. y.1) (count-sent id _) ∙ send-sent log http _ _ s, λ a p. refl))

  pub advance-IsSent :
      (prefix id : String) (values : List Json) (s : S × List Request)
      → IsSent
          (advance (logging http) c prefix id values s)
          s.1
          (advance_requests c prefix id values)
  unfolding advance advance_requests
  advance-IsSent prefix id values (s, log) =
      continue-IsSent log _ _ (event_requests c prefix id 0 values) _
        (ingest_events-IsSent prefix id 0 values (s, log))
        λ _ y.
          continue-IsSent y.1 _ _ (edit_request c id complete_patch ∷ []) _
            (edit_state-IsSent "mark complete" id complete_patch y) λ _ z. count_at-IsSent id z
