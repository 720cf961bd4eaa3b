-- ===== src/Tasks/Life/Refines.antt =====
-- The operations on the queue of acpd/internal/store/tasks.go refine the abstract machine.
use agent_control_plane.Prelude.{
  ℕ, String, ◌≡◌, refl, sym, ap, subst, ◌∙◌, Bool, true, false, Option, none, some, List, [], ◌∷◌,
  ◌++◌, Memᴰ, find, find-mem, find-update, update, any, Bool-cases, Option-cases, inl, inr, eq_iff,
  arith, ◌==◌,
}
use agent_control_plane.Schema.{TaskRow, Tables, has_workflow}
use agent_control_plane.Tasks.{Task, has_id, find_task}
use agent_control_plane.Tasks.Ids.{HasUniqueIds, eq_of_has_id}
use agent_control_plane.Tasks.Claim.{
  new_row, enqueue_task, attempts_or_default, claimable, claim_row, claim_next, beats_for, beat_row,
  heartbeat,
}
use agent_control_plane.Tasks.Claim.Effect.{claim_next-takes_best}
use agent_control_plane.Tasks.Finish.{
  complete_row, complete_task, fail_task, exhausted, fail_row, bury_row, dead_letter_task,
}
use agent_control_plane.Tasks.Finish.Cases.{
  dead_letter_task-cases, fail_task-exhausted, fail_task_open,
}
use agent_control_plane.Tasks.Requeue.{
  retryable, requeue_row, requeue_expired, requeue_expired_with_dead_letter,
}
use agent_control_plane.Tasks.Requeue.Settle.{settle_row}
use agent_control_plane.Tasks.Requeue.Effect.{requeue_expired-map, settle_row-task_id}
use agent_control_plane.Tasks.Invariant.{
  QueueStep, enqueues, claims, beats, completes, fails, requeues, sweeps, queue_step, queue_steps,
  IsSound,
}
use agent_control_plane.Tasks.Invariant.Sweep.{update_all, queue_step-IsSound}
use agent_control_plane.Tasks.Life.{
  Life, Move, stays, comes, Moves, rests, goes, life, life_of, view,
}
use agent_control_plane.Tasks.Life.Rows.{
  beat_row-Move, complete_row-Move, claim_row-Move, fail_row-Move, bury_row-Move, requeue_row-Move,
  settle_row-Move,
}

find-append_one :
    (q : TaskRow → Bool) (x : TaskRow) (xs : List TaskRow)
    → life_of (find q (xs ++ x ∷ []))
      ≡ (elim (find q xs) [ none ↦ life_of (find q (x ∷ [])) | some y ↦ some (life y) ])
find-append_one q x [] = refl
find-append_one q x (y ∷ ys) = elim (Bool-cases (q y)) [
  | inl t ↦ rw t refl
  | inr f ↦ rw f (find-append_one q x ys)
]

module _ (id : String) where
  abbrev found : List TaskRow → Option Life
  found rs = life_of (find (has_id id) rs)

  -- An update that moves each row moves the task of the id.
  update-Move :
      (p : TaskRow → Bool) (f : TaskRow → TaskRow) (rs : List TaskRow)
      → ((x : TaskRow) → (f x).task_id ≡ x.task_id)
      → ((x : TaskRow) → Memᴰ x rs → p x ≡ true → Move (some (life x)) (some (life (f x))))
      → Move (found rs) (found (update p f rs))
  update-Move p f rs same moves =
      let e = find-update (has_id id) p f (λ x. ap (λ i. i == id) (same x)) rs in
      elim (Option-cases (find (has_id id) rs)) [
        | inl n ↦ rw (e, n) stays
        | inr (x, k) ↦ elim (Bool-cases (p x)) [
          | inr m ↦ rw (e, k, m) stays
          | inl t ↦ rw (e, k, t) (moves x (find-mem (has_id id) rs x k).0 t)
        ]
      ]

  added-Move :
      (now : ℕ) (t : Task) (rs : List TaskRow) → Move (found rs) (found (rs ++ new_row now t ∷ []))
  unfolding new_row
  added-Move now t rs =
      let e = find-append_one (has_id id) (new_row now t) rs in
      elim (Option-cases (find (has_id id) rs)) [
        | inr (x, k) ↦ rw (e, k) stays
        | inl n ↦ elim (Bool-cases (has_id id (new_row now t))) [
          | inr f ↦ rw (e, n, f) stays
          | inl y ↦ rw (e, n, y) (comes (attempts_or_default t.max_attempts))
        ]
      ]

  module _ (db : Tables) (unique : HasUniqueIds db.tasks) where
    enqueue-Move :
        (now : ℕ) (t : Task) → Move (found db.tasks) (found (enqueue_task now t db).1.tasks)
    unfolding enqueue_task
    enqueue-Move now t = elim (Bool-cases (any (has_id t.task_id) db.tasks)) [
      | inl y ↦ rw y stays
      | inr n ↦ elim (Bool-cases (has_workflow db t.workflow_id)) [
        | inl y ↦ rw (n, y) (added-Move now t db.tasks)
        | inr m ↦ rw (n, m) stays
      ]
    ]

    claim-Move :
        (agent : String) (now : ℕ) → Move (found db.tasks) (found (claim_next agent now db).1.tasks)
    claim-Move agent now = elim (claim_next-takes_best agent now db unique) [
      | inl (e, _) ↦ rw e stays
      | inr (r, m, fit, _, e) ↦ rw e (
          update-Move (has_id r.task_id) (claim_row agent now) db.tasks
            (λ x. unfold claim_row in refl)
            (λ x n t.
              let same : x ≡ r = eq_of_has_id r x db.tasks unique m n t in
              claim_row-Move agent now x (subst (λ y. claimable agent y ≡ true) (sym same) fit)))
    ]

    sweep-Move :
        (now : ℕ) → Move (found db.tasks) (found (requeue_expired_with_dead_letter now db).1.tasks)
    sweep-Move now =
        rw ((requeue_expired-map now db unique).0, ← update_all (settle_row now) db.tasks)
          (update-Move (λ _. true) (settle_row now) db.tasks (settle_row-task_id now)
            (λ x n t. settle_row-Move now x))

    row_of :
        (other : String) (r x : TaskRow)
        → find_task other db ≡ some r
        → Memᴰ x db.tasks
        → has_id other x ≡ true
        → x ≡ r
    unfolding find_task
    row_of other r x h n t =
        let (m, own) = find-mem (has_id other) db.tasks r h in
        let same : r.task_id ≡ other = (eq_iff r.task_id other).0 own in
        eq_of_has_id r x db.tasks unique m n (rw same t)

    bury-Move :
        (other reason : String) (now : ℕ) (r : TaskRow)
        → find_task other db ≡ some r
        → exhausted (find_task other db) ≡ true
        → Move (found db.tasks) (found (update (has_id other) (bury_row reason now) db.tasks))
    bury-Move other reason now r h spent =
        update-Move (has_id other) (bury_row reason now) db.tasks (λ x. unfold bury_row in refl)
          (λ x n t.
            let same : x ≡ r = row_of other r x h n t in
            let k : exhausted (some r) ≡ true = sym (ap exhausted h) ∙ spent in
            bury_row-Move reason now x (rw same (unfold exhausted in ground arith)))

    dead_letter-Move :
        (other reason : String) (now : ℕ)
        → exhausted (find_task other db) ≡ true
        → Move (found db.tasks) (found (dead_letter_task other reason now db).1.tasks)
    dead_letter-Move other reason now spent = elim (dead_letter_task-cases other reason now db) [
      | inl (_, e) ↦ rw e stays
      | inr (r, h, inl (_, e)) ↦ rw e stays
      | inr (r, h, inr (_, e)) ↦ rw e (bury-Move other reason now r h spent)
    ]

    fail_open-Move :
        (other reason : String) (now : ℕ)
        → exhausted (find_task other db) ≡ false
        → Move (found db.tasks) (found (update (has_id other) (fail_row reason now) db.tasks))
    fail_open-Move other reason now left = elim (Option-cases (find_task other db)) [
      | inl none_there ↦ absurd (
          let k : exhausted (find_task other db) ≡ true =
            ap exhausted none_there ∙ unfold exhausted in refl in
          cc (k, left))
      | inr (r, h) ↦
          update-Move (has_id other) (fail_row reason now) db.tasks (λ x. unfold fail_row in refl)
            (λ x n t.
              let same : x ≡ r = row_of other r x h n t in
              let k : exhausted (some r) ≡ false = sym (ap exhausted h) ∙ left in
              fail_row-Move reason now x (rw same (unfold exhausted in ground arith)))
    ]

    fail-Move :
        (other reason : String) (now : ℕ)
        → Move (found db.tasks) (found (fail_task other reason now db).1.tasks)
    fail-Move other reason now = elim (Bool-cases (exhausted (find_task other db))) [
      | inl t ↦ rw (fail_task-exhausted other reason now db t) (dead_letter-Move other reason now t)
      | inr f ↦ rw (fail_task_open other reason now db f) (fail_open-Move other reason now f)
    ]

    -- Each operation moves the task of every id by at most one move of the machine.
    pub queue_step-Move : (s : QueueStep) → Move (view db id) (view (queue_step s db) id)
    unfolding queue_step find_task
    queue_step-Move (enqueues t now) = enqueue-Move now t
    queue_step-Move (claims agent now) = claim-Move agent now
    queue_step-Move (beats other worker now) =
        unfold heartbeat in
        update-Move (beats_for other worker) (beat_row now) db.tasks (λ x. unfold beat_row in refl)
          (λ x n t. beat_row-Move now x)
    queue_step-Move (completes other output policy now) =
        unfold complete_task in
        update-Move (has_id other) (complete_row output policy now) db.tasks
          (λ x. unfold complete_row in refl) (λ x n t. complete_row-Move output policy now x)
    queue_step-Move (fails other reason now) = fail-Move other reason now
    queue_step-Move (requeues now) =
        unfold requeue_expired in
        update-Move (retryable now) (requeue_row now) db.tasks (λ x. unfold requeue_row in refl)
          (λ x n t.
            requeue_row-Move now x (unfold retryable in ground arith)
              (unfold retryable in ground arith))
    queue_step-Move (sweeps now) = sweep-Move now

-- From a sound state on, every history of the queue is, for each id, a run of the abstract machine: the task of
-- that id, if there is one, goes from the life that it had to the life that it has by moves of the machine
-- alone.
pub queue_steps-Moves :
    (ss : List QueueStep) (db : Tables) (id : String)
    → IsSound db
    → Moves (view db id) (view (queue_steps ss db) id)
unfolding queue_steps
queue_steps-Moves [] db id h = rests
queue_steps-Moves (s ∷ ss) db id h =
    goes (queue_step-Move id db h.unique s)
      (queue_steps-Moves ss (queue_step s db) id (queue_step-IsSound s db h))
