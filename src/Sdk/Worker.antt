-- ===== src/Sdk/Worker.antt =====
-- sdk/go/acp/worker.go: TaskWorker. What its loop does is an explicit sequence of the ticks of its ticker and
-- of the ends of the goroutines that it starts, and what a goroutine does while the handler runs is one of
-- the turns of the handler and of the ticks of the heartbeat.
pub mod Reports
use agent_control_plane.Prelude.{
  ℕ, suc, ◌-◌, String, Option, none, some, List, [], ◌∷◌, ltb, ◌==◌, nat_eq, if◌then◌else◌,
}
use agent_control_plane.Sdk.{Http, Client, Session, Answer, done, failed, continue}
use agent_control_plane.Sdk.Values.{AcpTask}
use agent_control_plane.Sdk.Calls.{claim_task, heartbeat, complete_task, fail_task}

-- Durations are in nanoseconds. A configuration with a negative number, for which the Go program panics, is
-- left out.
pub record WorkerConfig : Type 0 where
  pub agent_id : String
  pub poll_interval : ℕ
  pub heartbeat_interval : ℕ
  pub max_concurrent : ℕ

abbrev or_default : ℕ → ℕ → ℕ
or_default default n = if nat_eq n 0 then default else n

-- NewTaskWorker
unfoldable new_task_worker : WorkerConfig → WorkerConfig
new_task_worker cfg = record cfg {
  poll_interval = or_default 2000000000 cfg.poll_interval;
  heartbeat_interval = or_default 30000000000 cfg.heartbeat_interval;
  max_concurrent = or_default 1 cfg.max_concurrent;
}

-- Run: at a tick a goroutine is started where a slot is free, and the end of one frees its slot.
pub data Moment : Type 0 where
  tick end_of_one : Moment

unfoldable pub on_moment : WorkerConfig → Moment → ℕ → ℕ
on_moment cfg tick busy = if ltb busy cfg.max_concurrent then suc busy else busy
on_moment cfg end_of_one busy = busy - 1

unfoldable pub run : WorkerConfig → List Moment → ℕ → ℕ
unfolding on_moment
run cfg [] busy = busy
run cfg (m ∷ ms) busy = run cfg ms (on_moment cfg m busy)

pub data Handled : Type 0 where
  output : String → Handled
  error : String → Handled

pub data Turn (S : Type 0) : Type 0 where
  beat : Turn S
  act : (S → S) → Turn S

-- A TaskHandler: the turns that it and the heartbeat's ticker take, and what it returns.
pub record TaskHandler (S : Type 0) : Type 0 where
  pub turns : AcpTask → List (Turn S)
  pub answer : AcpTask → S → Handled

module _ {S : Type 0} (http : Http S) (c : Client) (agent : String) where
  -- An error of a heartbeat is only logged.
  unfoldable pub on_turn : AcpTask → Turn S → S → S
  unfolding heartbeat
  on_turn t beat s = (heartbeat http c t.task_id agent s).1
  on_turn t (act f) s = f s

  unfoldable pub take_turns : AcpTask → List (Turn S) → S → S
  unfolding on_turn
  take_turns t [] s = s
  take_turns t (x ∷ xs) s = take_turns t xs (on_turn t x s)

  -- So are the errors of the two reports.
  unfoldable pub report : AcpTask → Handled → S → S
  unfolding complete_task fail_task
  report t (output text) s = (complete_task http c t.task_id text "pass" s).1
  report t (error reason) s = (fail_task http c t.task_id reason s).1

  unfoldable pub handle : TaskHandler S → AcpTask → S → S
  unfolding take_turns report
  handle h t s = let s' = take_turns t (h.turns t) s in report t (h.answer t s') s'

  abbrev pub on_claim : TaskHandler S → Answer (Option AcpTask) × S → S
  on_claim h (failed e, s) = s
  on_claim h (done none, s) = s
  on_claim h (done (some t), s) = handle h t s

  unfoldable pub process_one : TaskHandler S → S → S
  unfolding claim_task handle
  process_one h s = on_claim h (claim_task http c agent s)
