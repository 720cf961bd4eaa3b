-- ===== src/Tasks/Finish/Cases.antt =====
-- The outcomes of deadLetterTask and FailTask.
use agent_control_plane.Prelude.{
  ℕ, String, ◌≡◌, true, false, none, some, [], ◌∷◌, ◌++◌, update, ◌⊎◌, inl, inr, Option-cases,
  Bool-cases, find,
}
use agent_control_plane.Sql.{no_rows, unique_violation, wrapped, ok, err}
use agent_control_plane.Schema.{TaskRow, Tables}
use agent_control_plane.Tasks.{has_id, find_task}
use agent_control_plane.Tasks.Finish.{
  has_dead_letter, dead_letter_of, bury_row, dead_letter_task, exhausted, fail_row, fail_task,
}

abbrev pub buried : String → String → ℕ → TaskRow → Tables → Tables
buried id reason now r db = record db {
  dead_letters = db.dead_letters ++ dead_letter_of reason now r ∷ [];
  tasks = update (has_id id) (bury_row reason now) db.tasks;
}

module _ (id reason : String) (now : ℕ) (db : Tables) where
  -- deadLetterTask ends in an error and changes nothing where there is no such task or where the task has
  -- a dead letter already; in every other case it writes both the letter and the mark on the task.
  pub dead_letter_task-cases :
      ((find_task id db ≡ none)
        × (dead_letter_task id reason now db
            ≡ (err (wrapped "read task for dead letter" no_rows), db)))
      ⊎ ((r : TaskRow) × (find_task id db ≡ some r)
          × (((has_dead_letter r.task_id db ≡ true)
                × (dead_letter_task id reason now db
                    ≡ (err (wrapped "insert dead letter" unique_violation), db)))
              ⊎ ((has_dead_letter r.task_id db ≡ false)
                  × (dead_letter_task id reason now db ≡ (ok tt, buried id reason now r db)))))
  unfolding dead_letter_task
  dead_letter_task-cases = elim (Option-cases (find (has_id id) db.tasks)) [
    | inl e ↦ inl (e, rw e)
    | inr (r, e) ↦ inr (
      r,
      e,
      elim (Bool-cases (has_dead_letter r.task_id db)) [
        | inl t ↦ inl (t, rw (e, t))
        | inr f ↦ inr (f, rw (e, f))
      ],
    )
  ]

  pub fail_task-exhausted :
      exhausted (find_task id db) ≡ true
      → fail_task id reason now db ≡ dead_letter_task id reason now db
  unfolding fail_task
  fail_task-exhausted e = rw e

  pub fail_task_open :
      exhausted (find_task id db) ≡ false
      → fail_task id reason now db
        ≡ (ok tt, record db { tasks = update (has_id id) (fail_row reason now) db.tasks })
  unfolding fail_task
  fail_task_open e = rw e
