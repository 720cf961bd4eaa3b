-- ===== src/Tasks/Life.antt =====
-- The life of a task, as an abstract machine that knows nothing of rows: a queue is a function from ids to the
-- lives of tasks, and a life goes on by moves.
pub mod Rows
pub mod Refines
pub mod Facts
use agent_control_plane.Prelude.{
  ℕ, suc, ◌+◌, ◌≤◌, ◌<◌, String, ◌≡◌, Bool, true, false, Option, none, some,
}
use agent_control_plane.Schema.{TaskStatus, pending, claimed, completed, failed, TaskRow, Tables}
use agent_control_plane.Tasks.{find_task}

pub record Life : Type 0 where
  pub status : TaskStatus
  pub owner : Option String
  pub attempts : ℕ
  pub bound : ℕ
  pub is_buried : Bool

abbrev pub fresh_life : ℕ → Life
fresh_life bound = record {
  status = pending;
  owner = none;
  attempts = 0;
  bound = bound;
  is_buried = false;
}

-- What may become of a task, none standing for one that is not there.
pub data Move : Option Life → Option Life → Type 0 where
  stays : {o : Option Life} → Move o o
  comes : (bound : ℕ) → Move none (some (fresh_life bound))
  is_taken :
      (l : Life) (worker : String)
      → l.status ≡ pending
      → l.is_buried ≡ false
      → l.attempts < l.bound
      → Move
          (some l)
          (some (record l { status = claimed; owner = some worker; attempts = l.attempts + 1 }))
  returns :
      (l : Life)
      → l.status ≡ claimed
      → l.is_buried ≡ false
      → l.attempts < l.bound
      → Move (some l) (some (record l { status = pending; owner = none }))
  is_finished : (l : Life) → Move (some l) (some (record l { status = completed }))
  gives_up : (l : Life) → l.attempts < l.bound → Move (some l) (some (record l { status = failed }))
  is_put_away :
      (l : Life)
      → l.bound ≤ l.attempts
      → Move (some l) (some (record l { status = failed; is_buried = true }))

-- One move after another.
pub data Moves : Option Life → Option Life → Type 0 where
  rests : {o : Option Life} → Moves o o
  goes : {a b d : Option Life} → Move a b → Moves b d → Moves a d

-- The abstract view of the tables.
abbrev pub life : TaskRow → Life
life r = record {
  status = r.status;
  owner = r.claimed_by;
  attempts = r.attempt_count;
  bound = r.max_attempts;
  is_buried = r.dead_lettered;
}

abbrev pub life_of : Option TaskRow → Option Life
life_of none = none
life_of (some r) = some (life r)

abbrev pub view : Tables → String → Option Life
view db id = life_of (find_task id db)
