-- ===== src/Tasks/Finish.antt =====
-- acpd/internal/store/tasks.go: CompleteTask, FailTask and deadLetterTask. FailTask reads the attempts outside
-- of the transaction that it is given, and waits where that holds the only connection; here it reads on.
pub mod Cases
use agent_control_plane.Prelude.{
  ℕ, String, Bool, true, Option, none, some, [], ◌∷◌, ◌++◌, leb, any, update, ◌==◌, if◌then◌else◌,
}
use agent_control_plane.Sql.{
  no_rows, unique_violation, Stmt, pure, raise, gets, write, wrap, ◌>>=◌, ◌>>◌,
}
use agent_control_plane.Schema.{completed, failed, TaskRow, DeadLetter, Tables}
use agent_control_plane.Tasks.{has_id, find_task}

unfoldable pub complete_row : String → String → ℕ → TaskRow → TaskRow
complete_row output policy_result now r = record r {
  status = completed;
  output_json = some output;
  policy_result_json = some policy_result;
  completed_at = some now;
  updated_at = now;
}

unfoldable pub complete_task : String → String → String → ℕ → Stmt Tables (Unit {0})
unfolding complete_row
complete_task id output policy_result now = write (λ db. record db {
  tasks = update (has_id id) (complete_row output policy_result now) db.tasks;
})

abbrev pub has_dead_letter : String → Tables → Bool
has_dead_letter id db = any (λ (d : DeadLetter). d.task_id == id) db.dead_letters

-- The row of dead_letter_tasks that is made of a task.
unfoldable pub dead_letter_of : String → ℕ → TaskRow → DeadLetter
dead_letter_of reason now r = record {
  task_id = r.task_id;
  workflow_id = r.workflow_id;
  node_id = r.node_id;
  agent = r.agent;
  input_json = r.input_json;
  failed_reason = reason;
  attempt_count = r.attempt_count;
  original_created = r.created_at;
  dead_lettered_at = now;
}

unfoldable pub bury_row : String → ℕ → TaskRow → TaskRow
bury_row reason now r = record r {
  status = failed;
  failed_reason = some reason;
  dead_lettered = true;
  updated_at = now;
}

-- INSERT INTO dead_letter_tasks: the primary key is checked.
unfoldable pub insert_dead_letter : DeadLetter → Stmt Tables (Unit {0})
insert_dead_letter d db =
    if has_dead_letter d.task_id db
    then raise unique_violation db
    else write (λ db. record db { dead_letters = db.dead_letters ++ d ∷ [] }) db

abbrev pub required : Option TaskRow → Stmt Tables TaskRow
required none = raise no_rows
required (some r) = pure r

unfoldable pub dead_letter_task : String → String → ℕ → Stmt Tables (Unit {0})
unfolding find_task dead_letter_of bury_row insert_dead_letter
dead_letter_task id reason now = do
  found ← gets (find_task id)
  r ← wrap "read task for dead letter" (required found)
  wrap "insert dead letter" (insert_dead_letter (dead_letter_of reason now r))
  write (λ db. record db { tasks = update (has_id id) (bury_row reason now) db.tasks })

-- A row that is not there leaves both counters at 0, since the error of the Scan is dropped.
unfoldable pub exhausted : Option TaskRow → Bool
exhausted none = true
exhausted (some r) = leb r.max_attempts r.attempt_count

unfoldable pub fail_row : String → ℕ → TaskRow → TaskRow
fail_row reason now r = record r { status = failed; failed_reason = some reason; updated_at = now }

unfoldable pub fail_task : String → String → ℕ → Stmt Tables (Unit {0})
unfolding exhausted fail_row dead_letter_task
fail_task id reason now db =
    if exhausted (find_task id db)
    then dead_letter_task id reason now db
    else write (λ db. record db { tasks = update (has_id id) (fail_row reason now) db.tasks }) db
