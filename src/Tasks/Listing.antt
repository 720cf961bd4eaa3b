-- ===== src/Tasks/Listing.antt =====
-- acpd/internal/store/tasks.go: ListTasks and ListDeadLetterTasks.
use agent_control_plane.Prelude.{String, Bool, List, map, select, sort_by, ◌&&◌, ◌||◌, ◌==◌}
use agent_control_plane.Schema.{
  TaskStatus, pending, claimed, completed, failed, cancelled, TaskRow, DeadLetter, Tables,
}
use agent_control_plane.Tasks.{Task, scan_task, parse_time, rfc3339_nano}

abbrev pub status_text : TaskStatus → String
status_text pending = "pending"
status_text claimed = "claimed"
status_text completed = "completed"
status_text failed = "failed"
status_text cancelled = "cancelled"

-- WHERE workflow_id=?, and AND status=? unless the status is ""
unfoldable pub listed : String → String → TaskRow → Bool
listed workflow_id status r =
    r.workflow_id == workflow_id && (status == "" || status_text r.status == status)

unfoldable pub list_tasks : String → String → Tables → List Task
unfolding listed
list_tasks workflow_id status db =
    map scan_task (sort_by (λ r. r.created_at) (select (listed workflow_id status) db.tasks))

-- The row as ListDeadLetterTasks scans it; the columns that the query makes up are left out.
unfoldable pub scan_dead_letter : DeadLetter → DeadLetter
scan_dead_letter d = record d {
  original_created = parse_time rfc3339_nano d.original_created;
  dead_lettered_at = parse_time rfc3339_nano d.dead_lettered_at;
}

-- WHERE workflow_id=? unless it is ""
unfoldable pub list_dead_letter_tasks : String → Tables → List DeadLetter
unfolding scan_dead_letter
list_dead_letter_tasks workflow_id db =
    map scan_dead_letter (
      select (λ (d : DeadLetter). workflow_id == "" || d.workflow_id == workflow_id)
        db.dead_letters)
