-- ===== src/Tasks/Life/Rows.antt =====
-- The moves of a life that the changes of a row by acpd/internal/store/tasks.go make.
use agent_control_plane.Prelude.{
  ℕ, String, ◌≡◌, refl, true, false, some, Bool-cases, inl, inr, arith, ◌<◌, ◌≤◌,
}
use agent_control_plane.Schema.{TaskStatus, pending, claimed, completed, failed, cancelled, TaskRow}
use agent_control_plane.Tasks.{is_pending, is_claimed, is_expired}
use agent_control_plane.Tasks.Claim.{claimable, claim_row, beat_row}
use agent_control_plane.Tasks.Finish.{complete_row, fail_row, bury_row}
use agent_control_plane.Tasks.Requeue.{requeue_row}
use agent_control_plane.Tasks.Requeue.Settle.{settle_row, is_spent}
use agent_control_plane.Tasks.Life.{
  Move, stays, is_taken, returns, is_finished, gives_up, is_put_away, life,
}

pending_of : (s : TaskStatus) → is_pending s ≡ true → s ≡ pending
pending_of pending h = refl
pending_of claimed h = absurd (cc h)
pending_of completed h = absurd (cc h)
pending_of failed h = absurd (cc h)
pending_of cancelled h = absurd (cc h)

claimed_of : (s : TaskStatus) → is_claimed s ≡ true → s ≡ claimed
claimed_of claimed h = refl
claimed_of pending h = absurd (cc h)
claimed_of completed h = absurd (cc h)
claimed_of failed h = absurd (cc h)
claimed_of cancelled h = absurd (cc h)

-- What the statements do to a row.
pub beat_row-Move : (now : ℕ) (x : TaskRow) → Move (some (life x)) (some (life (beat_row now x)))
unfolding beat_row
beat_row-Move now x = stays

pub complete_row-Move :
    (output policy : String) (now : ℕ) (x : TaskRow)
    → Move (some (life x)) (some (life (complete_row output policy now x)))
unfolding complete_row
complete_row-Move output policy now x = is_finished (life x)

pub claim_row-Move :
    (agent : String) (now : ℕ) (x : TaskRow)
    → claimable agent x ≡ true
    → Move (some (life x)) (some (life (claim_row agent now x)))
unfolding claimable claim_row
claim_row-Move agent now x h =
    let p : is_pending x.status ≡ true = ground arith in
    let fits : x.attempt_count < x.max_attempts = ground arith in
    let kept : x.dead_lettered ≡ false = ground arith in
    is_taken (life x) agent (pending_of x.status p) kept fits

pub fail_row-Move :
    (reason : String) (now : ℕ) (x : TaskRow)
    → x.attempt_count < x.max_attempts
    → Move (some (life x)) (some (life (fail_row reason now x)))
unfolding fail_row
fail_row-Move reason now x h = gives_up (life x) h

pub bury_row-Move :
    (reason : String) (now : ℕ) (x : TaskRow)
    → x.max_attempts ≤ x.attempt_count
    → Move (some (life x)) (some (life (bury_row reason now x)))
unfolding bury_row
bury_row-Move reason now x h = is_put_away (life x) h

pub requeue_row-Move :
    (now : ℕ) (x : TaskRow)
    → is_expired now x ≡ true
    → x.attempt_count < x.max_attempts
    → Move (some (life x)) (some (life (requeue_row now x)))
unfolding requeue_row is_expired
requeue_row-Move now x h fits =
    let c : is_claimed x.status ≡ true = ground arith in
    let kept : x.dead_lettered ≡ false = ground arith in
    returns (life x) (claimed_of x.status c) kept fits

pub settle_row-Move :
    (now : ℕ) (x : TaskRow) → Move (some (life x)) (some (life (settle_row now x)))
unfolding settle_row
settle_row-Move now x = elim (Bool-cases (is_expired now x)) [
  | inr f ↦ rw f stays
  | inl t ↦ elim (Bool-cases (is_spent x)) [
    | inl s ↦ rw (t, s) (bury_row-Move "max_attempts_exceeded" now x (ground arith))
    | inr n ↦ rw (t, n) (requeue_row-Move now x t (ground arith))
  ]
]
