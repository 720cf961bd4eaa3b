-- ===== src/Sdk/Worker/Reports.antt =====
-- What a worker of sdk/go/acp sends for a task, and how many tasks it works on at once.
use mathlib.Core.List.{append-nil, append_assoc}
use agent_control_plane.Prelude.{
  ℕ, suc, ◌-◌, ◌≤◌, String, ◌≡◌, ap, ◌∙◌, sym, Option, none, some, List, [], ◌∷◌, ◌++◌, map, arith,
  ltb, Bool-cases, inl, inr,
}
use agent_control_plane.Sdk.{Http, Client, Request, Answer, done, failed, post_request, get_request}
use agent_control_plane.Sdk.Values.{AcpTask, decode_claim, decode_any}
use agent_control_plane.Sdk.Bodies.{completion, failure}
use agent_control_plane.Sdk.Calls.{
  claim_task, heartbeat, complete_task, fail_task, claim_path, task_path,
}
use agent_control_plane.Sdk.Sent.{logging, with_log, send-with_log}
use agent_control_plane.Sdk.Worker.{
  WorkerConfig, Moment, tick, end_of_one, on_moment, run, Handled, output, error, Turn, beat, act,
  TaskHandler, on_turn, take_turns, report, handle, on_claim, process_one,
}

-- No more goroutines run at once than the configuration allows.
run-le :
    (cfg : WorkerConfig) (ms : List Moment) (busy : ℕ)
    → busy ≤ cfg.max_concurrent
    → run cfg ms busy ≤ cfg.max_concurrent
unfolding run on_moment
run-le cfg [] busy h = h
run-le cfg (tick ∷ ms) busy h = elim (Bool-cases (ltb busy cfg.max_concurrent)) [
  | inl t ↦ rw t (run-le cfg ms (suc busy) (ground (arith, t)))
  | inr f ↦ rw f (run-le cfg ms busy h)
]
run-le cfg (end_of_one ∷ ms) busy h = run-le cfg ms (busy - 1) (omega (arith, h))

module _ {S : Type 0} where
  -- The handler does not touch the list.
  abbrev lift_turn : Turn S → Turn (S × List Request)
  lift_turn beat = beat
  lift_turn (act f) = act (λ x. (f x.0, x.1))

  abbrev pub lifted : TaskHandler S → TaskHandler (S × List Request)
  lifted h = record { turns = λ t. map lift_turn (h.turns t); answer = λ t x. h.answer t x.0 }

abbrev beat_request : Client → AcpTask → Request
beat_request c t = post_request c (task_path t.task_id "heartbeat") none

unfoldable beat_requests : {S : Type 0} → Client → AcpTask → List (Turn S) → List Request
beat_requests c t [] = []
beat_requests c t (beat ∷ xs) = beat_request c t ∷ beat_requests c t xs
beat_requests c t (act f ∷ xs) = beat_requests c t xs

-- The report says "complete" with the output and the result "pass", or "fail" with the error.
unfoldable report_request : Client → AcpTask → Handled → Request
report_request c t (output text) =
    post_request c (task_path t.task_id "complete") (some (completion text "pass"))
report_request c t (error reason) =
    post_request c (task_path t.task_id "fail") (some (failure reason))

module _ {S : Type 0} (http : Http S) (c : Client) (agent : String) where
  -- What is sent after the answer to the claim.
  unfoldable pub requests_after : TaskHandler S → Answer (Option AcpTask) × S → List Request
  unfolding report_request beat_requests
  requests_after h (done (some t), s) =
      beat_requests c t (h.turns t)
      ++ report_request c t (h.answer t (take_turns http c agent t (h.turns t) s)) ∷ []
  requests_after h (done none, s) = []
  requests_after h (failed e, s) = []

  heartbeat-logged :
      (t : AcpTask) (s : S) (log : List Request)
      → (heartbeat (logging http) c t.task_id agent (s, log)).1
        ≡ ((heartbeat http c t.task_id agent s).1, log ++ beat_request c t ∷ [])
  unfolding heartbeat
  heartbeat-logged t s log = ap (λ x. x.1) (send-with_log http decode_any (beat_request c t) s log)

  claim_task-logged :
      (s : S) (log : List Request)
      → claim_task (logging http) c agent (s, log)
        ≡ with_log (log ++ get_request c (claim_path agent) ∷ []) (claim_task http c agent s)
  unfolding claim_task
  claim_task-logged s log = send-with_log http decode_claim _ s log

  take_turns-logged :
      (t : AcpTask) (xs : List (Turn S)) (s : S) (log : List Request)
      → take_turns (logging http) c agent t (map lift_turn xs) (s, log)
        ≡ (take_turns http c agent t xs s, log ++ beat_requests c t xs)
  unfolding take_turns on_turn beat_requests
  take_turns-logged t [] s log = ap (λ l. (s, l)) (sym (append-nil log))
  take_turns-logged t (act f ∷ xs) s log = take_turns-logged t xs (f s) log
  take_turns-logged t (beat ∷ xs) s log =
      let s' = (heartbeat http c t.task_id agent s).1 in
      let r = beat_request c t in
      ap (take_turns (logging http) c agent t (map lift_turn xs)) (heartbeat-logged t s log)
      ∙ take_turns-logged t xs s' (log ++ r ∷ [])
      ∙ ap (λ l. (take_turns http c agent t xs s', l))
          (append_assoc log (r ∷ []) (beat_requests c t xs))

  report-logged :
      (t : AcpTask) (x : Handled) (s : S) (log : List Request)
      → report (logging http) c agent t x (s, log)
        ≡ (report http c agent t x s, log ++ report_request c t x ∷ [])
  unfolding report complete_task fail_task report_request
  report-logged t (output text) s log = ap (λ x. x.1) (send-with_log http decode_any _ s log)
  report-logged t (error reason) s log = ap (λ x. x.1) (send-with_log http decode_any _ s log)

  on_claim-logged :
      (h : TaskHandler S) (x : Answer (Option AcpTask) × S) (log : List Request)
      → on_claim (logging http) c agent (lifted h) (with_log log x)
        ≡ (on_claim http c agent h x, log ++ requests_after h x)
  unfolding handle requests_after
  on_claim-logged h (failed e, s) log = ap (λ l. (s, l)) (sym (append-nil log))
  on_claim-logged h (done none, s) log = ap (λ l. (s, l)) (sym (append-nil log))
  on_claim-logged h (done (some t), s) log =
      let s' = take_turns http c agent t (h.turns t) s in
      let a = h.answer t s' in
      let bs = beat_requests c t (h.turns t) in
      ap (λ y. report (logging http) c agent t (h.answer t y.0) y)
        (take_turns-logged t (h.turns t) s log)
      ∙ report-logged t a s' (log ++ bs)
      ∙ ap (λ l. (report http c agent t a s', l)) (append_assoc log bs (report_request c t a ∷ []))

  -- One round of a worker sends the claim and, where that hands out a task, the heartbeats of the ticks while
  -- the handler runs and then exactly one report, of the output or of the error that the handler returned;
  -- where it hands out none or fails, nothing else is sent. The handler does not see the list of requests.
  pub process_one-sends :
      (h : TaskHandler S) (s : S) (log : List Request)
      → process_one (logging http) c agent (lifted h) (s, log) ≡ (
        process_one http c agent h s,
        log ++ get_request c (claim_path agent) ∷ requests_after h (claim_task http c agent s),
      )
  unfolding process_one
  process_one-sends h s log =
      let r = get_request c (claim_path agent) in
      let claim = claim_task http c agent s in
      ap (on_claim (logging http) c agent (lifted h)) (claim_task-logged s log)
      ∙ on_claim-logged h claim (log ++ r ∷ [])
      ∙ ap (λ l. (process_one http c agent h s, l))
          (append_assoc log (r ∷ []) (requests_after h claim))
