-- ===== src/Tasks/Invariant/Steps.antt =====
-- Every operation on the queue keeps the invariant.
use agent_control_plane.Prelude.{
  ℕ, String, ◌≡◌, refl, Bool, true, false, some, [], ◌∷◌, ◌++◌, Memᴰ, All, All-of, All-at,
  All-append, All-update, update, find-mem, any, arith, Bool-cases, inl, inr, eq_iff,
}
use agent_control_plane.Schema.{TaskRow, Tables, has_workflow}
use agent_control_plane.Tasks.{Task, has_id, find_task}
use agent_control_plane.Tasks.Ids.{eq_of_has_id, update-HasUniqueIds, append-HasUniqueIds}
use agent_control_plane.Tasks.Claim.{
  new_row, enqueue_task, claimable, claim_row, claim_next, beats_for, beat_row, heartbeat,
}
use agent_control_plane.Tasks.Claim.Effect.{claim_next-takes_best}
use agent_control_plane.Tasks.Finish.{
  complete_row, complete_task, fail_task, exhausted, fail_row, bury_row, dead_letter_of,
  dead_letter_task,
}
use agent_control_plane.Tasks.Finish.Cases.{
  buried, dead_letter_task-cases, fail_task-exhausted, fail_task_open,
}
use agent_control_plane.Tasks.Requeue.{retryable, requeue_row, requeue_expired}
use agent_control_plane.Tasks.Requeue.Letters.{has_letter, has_letter-append, has_letter_last}
use agent_control_plane.Tasks.Invariant.{IsRowSound, IsSound}

-- An UPDATE that keeps the ids, the marks of the buried and the soundness of a row keeps the invariant.
module _ (p : TaskRow → Bool) (f : TaskRow → TaskRow) (db : Tables) (h : IsSound db) where
  update-IsSound :
      ((x : TaskRow) → (f x).task_id ≡ x.task_id)
      → ((x : TaskRow) → (f x).dead_lettered ≡ x.dead_lettered)
      → ((x : TaskRow) → Memᴰ x db.tasks → IsRowSound x → p x ≡ true → IsRowSound (f x))
      → IsSound (record db { tasks = update p f db.tasks })
  update-IsSound same_id same_mark keep = record {
    unique = update-HasUniqueIds p f same_id db.tasks h.unique;
    rows =
        All-update (λ x. Memᴰ x db.tasks × IsRowSound x) IsRowSound p f (λ x k t. keep x k.0 k.1 t)
          (λ x k _. k.1) db.tasks
          (All-of _ db.tasks (λ x m. (m, All-at IsRowSound db.tasks h.rows m)));
    letters =
        All-update (λ r. r.dead_lettered ≡ true → has_letter r.task_id db.dead_letters ≡ true)
          (λ r. r.dead_lettered ≡ true → has_letter r.task_id db.dead_letters ≡ true) p f
          (λ x k _ d. rw (same_id x) (k (ground (arith, same_mark x, d)))) (λ x k _. k) db.tasks
          h.letters;
  }

module _ (db : Tables) (h : IsSound db) where
  insert-IsSound :
      (now : ℕ) (t : Task)
      → any (has_id t.task_id) db.tasks ≡ false
      → IsSound (record db { tasks = db.tasks ++ new_row now t ∷ [] })
  unfolding new_row
  insert-IsSound now t n = record {
    unique = append-HasUniqueIds (new_row now t) db.tasks n h.unique;
    rows =
        All-append IsRowSound db.tasks (new_row now t ∷ []) h.rows
          (record { attempts = omega arith; alive = λ _. refl }, tt);
    letters =
        All-append (λ r. r.dead_lettered ≡ true → has_letter r.task_id db.dead_letters ≡ true)
          db.tasks (new_row now t ∷ []) h.letters (λ d. absurd (cc), tt);
  }

  pub enqueue-IsSound : (now : ℕ) (t : Task) → IsSound (enqueue_task now t db).1
  unfolding enqueue_task
  enqueue-IsSound now t = elim (Bool-cases (any (has_id t.task_id) db.tasks)) [
    | inl y ↦ rw y h
    | inr n ↦ elim (Bool-cases (has_workflow db t.workflow_id)) [
      | inl y ↦ rw (n, y) (insert-IsSound now t n)
      | inr m ↦ rw (n, m) h
    ]
  ]

  pub claim-IsSound : (agent : String) (now : ℕ) → IsSound (claim_next agent now db).1
  unfolding claimable claim_row
  claim-IsSound agent now = elim (claim_next-takes_best agent now db h.unique) [
    | inl (e, _) ↦ rw e h
    | inr (r, m, fit, _, e) ↦ rw e (
        update-IsSound _ (claim_row agent now) db h (λ x. unfold claim_row in refl)
          (λ x. unfold claim_row in refl)
          (λ x n k t.
            let same : x ≡ r = eq_of_has_id r x db.tasks h.unique m n t in
            ground (arith, same, fit, k.attempts, k.alive)))
  ]

  pub heartbeat-IsSound : (id worker : String) (now : ℕ) → IsSound (heartbeat id worker now db).1
  unfolding heartbeat
  heartbeat-IsSound id worker now =
      update-IsSound (beats_for id worker) (beat_row now) db h (λ x. refl) (λ x. refl)
        (λ x _ k t. ground (arith, k.attempts, k.alive))

  pub complete-IsSound :
      (id output policy : String) (now : ℕ) → IsSound (complete_task id output policy now db).1
  unfolding complete_task
  complete-IsSound id output policy now =
      update-IsSound (has_id id) (complete_row output policy now) db h (λ x. refl) (λ x. refl)
        (λ x _ k t. ground (arith, k.attempts))

  pub requeue-IsSound : (now : ℕ) → IsSound (requeue_expired now db).1
  unfolding requeue_expired
  requeue-IsSound now =
      update-IsSound (retryable now) (requeue_row now) db h (λ x. refl) (λ x. refl)
        (λ x _ k t. ground (arith, k.attempts, k.alive))

  fail_open-IsSound :
      (id reason : String) (now : ℕ)
      → IsSound (record db { tasks = update (has_id id) (fail_row reason now) db.tasks })
  unfolding fail_row
  fail_open-IsSound id reason now =
      update-IsSound (has_id id) (fail_row reason now) db h (λ x. refl) (λ x. refl)
        (λ x _ k t. ground (arith, k.attempts))

  -- The letters that the marks of buried tasks ask for, when one more letter is written.
  module _ (id reason : String) (now : ℕ) (r : TaskRow) (found : find_task id db ≡ some r) where
    bury-letters :
        All
          (λ x.
            x.dead_lettered ≡ true
            → has_letter x.task_id (db.dead_letters ++ dead_letter_of reason now r ∷ []) ≡ true)
          (update (has_id id) (bury_row reason now) db.tasks)
    unfolding bury_row dead_letter_of find_task
    bury-letters =
        let e : r.task_id ≡ id =
          (eq_iff r.task_id id).0 (find-mem (has_id id) db.tasks r found).1 in
        let letter = dead_letter_of reason now r in
        All-update (λ r. r.dead_lettered ≡ true → has_letter r.task_id db.dead_letters ≡ true)
          (λ x.
            x.dead_lettered ≡ true → has_letter x.task_id (db.dead_letters ++ letter ∷ []) ≡ true)
          (has_id id) (bury_row reason now)
          (λ x k t d. rw ((eq_iff x.task_id id).0 t, ← e) (has_letter_last letter db.dead_letters))
          (λ x k t d. has_letter-append x.task_id db.dead_letters (letter ∷ []) (k d)) db.tasks
          h.letters

    bury-IsSound : IsSound (buried id reason now r db)
    unfolding bury_row
    bury-IsSound = record {
      unique = update-HasUniqueIds (has_id id) (bury_row reason now) (λ x. refl) db.tasks h.unique;
      rows =
          All-update IsRowSound IsRowSound (has_id id) (bury_row reason now)
            (λ x k t. ground (arith, k.attempts)) (λ x k _. k) db.tasks h.rows;
      letters = bury-letters;
    }

  dead_letter-IsSound :
      (id reason : String) (now : ℕ) → IsSound (dead_letter_task id reason now db).1
  dead_letter-IsSound id reason now = elim (dead_letter_task-cases id reason now db) [
    | inl (_, e) ↦ rw e h
    | inr (r, _, inl (_, e)) ↦ rw e h
    | inr (r, found, inr (_, e)) ↦ rw e (bury-IsSound id reason now r found)
  ]

  pub fail-IsSound : (id reason : String) (now : ℕ) → IsSound (fail_task id reason now db).1
  fail-IsSound id reason now = elim (Bool-cases (exhausted (find_task id db))) [
    | inl t ↦ rw (fail_task-exhausted id reason now db t) (dead_letter-IsSound id reason now)
    | inr f ↦ rw (fail_task_open id reason now db f) (fail_open-IsSound id reason now)
  ]
