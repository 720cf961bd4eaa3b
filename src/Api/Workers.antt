-- ===== src/Api/Workers.antt =====
-- acpd/internal/api/tasks.go: claimNextTask and heartbeatTask.
use agent_control_plane.Prelude.{
  ℕ, String, ◌≡◌, ◌≢◌, refl, ap, ◌∙◌, false, Option, none, some, All, All-of, All-update, update,
  inl, inr, Bool-cases, test_of_ne, arith, ◌==◌, if◌then◌else◌,
}
use agent_control_plane.Sql.{Result, ok, err}
use agent_control_plane.Schema.{TaskRow, Tables}
use agent_control_plane.Tasks.{Task, scan_task, has_id}
use agent_control_plane.Tasks.Ids.{HasUniqueIds}
use agent_control_plane.Tasks.Claim.{claim_row, claim_next, beats_for, heartbeat}
use agent_control_plane.Tasks.Claim.Effect.{claim_next-takes_best}
use agent_control_plane.Tasks.Claim.Beat.{heartbeat_stranger}

-- The replies of the two handlers: the status code, and the task that a claim hands out.
pub record WorkerReply : Type 0 where
  pub code : ℕ
  pub task : Option Task

abbrev pub claim_reply : Result (Option Task) × Tables → WorkerReply × Tables
claim_reply (ok t, db) = (record { code = 200; task = t }, db)
claim_reply (err e, db) = (record { code = 500; task = none }, db)

unfoldable pub claim_next_task : String → ℕ → Tables → WorkerReply × Tables
claim_next_task agent now db =
    let claim = claim_reply (claim_next agent now db) in
    if agent == "" then (record { code = 400; task = none }, db) else claim

abbrev pub beat_reply : Result (Unit {0}) × Tables → WorkerReply × Tables
beat_reply (ok u, db) = (record { code = 200; task = none }, db)
beat_reply (err e, db) = (record { code = 500; task = none }, db)

-- The worker is the actor of the request.
unfoldable pub heartbeat_task : String → String → String → ℕ → Tables → WorkerReply × Tables
heartbeat_task method actor task_id now db =
    let beat = beat_reply (heartbeat task_id actor now db) in
    if method == "POST" then beat else (record { code = 405; task = none }, db)

claim_next_task-row :
    (agent : String) (now : ℕ) (db : Tables) (t : Task)
    → HasUniqueIds db.tasks
    → (claim_next_task agent now db).0.task ≡ some t
    → (r : TaskRow) × ((t ≡ scan_task (claim_row agent now r))
        × ((claim_next_task agent now db).1.tasks
            ≡ update (has_id r.task_id) (claim_row agent now) db.tasks))
unfolding claim_next_task
claim_next_task-row agent now db t u h = elim (Bool-cases (agent == "")) [
  | inl y ↦ absurd (let e : (claim_next_task agent now db).0.task ≡ none = rw y in cc (h, e))
  | inr n ↦ elim (claim_next-takes_best agent now db u) [
    | inl (e, _) ↦
        absurd (let k : (claim_next_task agent now db).0.task ≡ none = rw (n, e) in cc (h, k))
    | inr (r, m, f, a, e) ↦
        let k : (claim_next_task agent now db).0.task ≡ some (scan_task (claim_row agent now r)) =
          rw (n, e) in
        (r, (cc (h, k), rw (n, e)))
  ]
]

-- The heartbeat of an actor that is not called like the agent under whose name a task was claimed replies
-- 200 and changes nothing, so it does not keep the task. The ids must be unique.
pub heartbeat_task_ignored :
    (agent actor : String) (now later : ℕ) (db : Tables) (t : Task)
    → HasUniqueIds db.tasks
    → (claim_next_task agent now db).0.task ≡ some t
    → agent ≢ actor
    → let db' = (claim_next_task agent now db).1 in
      ((heartbeat_task "POST" actor t.task_id later db').0.code ≡ 200)
      × ((heartbeat_task "POST" actor t.task_id later db').1 ≡ db')
unfolding heartbeat_task
heartbeat_task_ignored agent actor now later db t u h ne =
    let db' = (claim_next_task agent now db).1 in
    let (r, (same, rows)) = claim_next_task-row agent now db t u h in
    let id : t.task_id ≡ r.task_id =
      ap (λ (x : Task). x.task_id) same ∙ unfold scan_task claim_row in refl in
    let misses : All (λ s. beats_for t.task_id actor s ≡ false) db'.tasks =
      rw (id, rows)
        (All-update (λ s. Unit {0}) (λ s. beats_for r.task_id actor s ≡ false) (has_id r.task_id)
          (claim_row agent now)
          (λ x p y. unfold beats_for claim_row in ground (arith, test_of_ne agent actor ne, y))
          (λ x p f. unfold beats_for in rw f) db.tasks
          (All-of (λ s. Unit {0}) db.tasks (λ x m. tt))) in
    (
      unfold heartbeat in refl,
      unfold heartbeat in heartbeat_stranger t.task_id actor later db' misses,
    )
