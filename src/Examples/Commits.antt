-- ===== src/Examples/Commits.antt =====
-- Commits on the tables of one workflow.
use agent_control_plane.Prelude.{◌≡◌, refl, sym, ◌∙◌, ap, true, false, arith, inl, inr}
use agent_control_plane.Sql.{Error, Result, ok, err}
use agent_control_plane.Schema.{Tables, has_workflow}
use agent_control_plane.Workflows.{find_workflow}
use agent_control_plane.Receipts.{latest_receipt, latest_delta}
use agent_control_plane.Commit.Records.{RecordsOrKeeps, is_fresh}
use agent_control_plane.Commit.Chain.{IsChained, IsNext}
use agent_control_plane.Commit.Calls.{
  CommitCall, transition, gate, run_commit, call_body, call_more, commit-outcome, commit-IsChained,
}
use agent_control_plane.Commit.After.{
  IsCurrent, commit-IsCurrent, commit_repeat, IsRejected, commit_gate-IsRejected,
}
use agent_control_plane.Examples.{plain, one_workflow, gated, result_at, params_at}

abbrev pub first : CommitCall
first = transition (params_at 1 "r1")

abbrev second : CommitCall
second = transition (params_at 1 "r2")

commit-outcome_example :
    RecordsOrKeeps plain "w"
      (result_at 1 true "r1")
      (call_body plain first)
      (call_more plain first)
      5
      (run_commit plain first 5)
      one_workflow
      one_workflow
commit-outcome_example = commit-outcome plain 5 first one_workflow refl

first_fresh :
    is_fresh plain "w"
      (result_at 1 true "r1")
      (call_body plain first)
      (call_more plain first)
      5
      one_workflow
    ≡ true
unfolding has_workflow
first_fresh = refl

-- The tables after the first commit.
abbrev pub after : Tables
after = (run_commit plain first 5 one_workflow).1

pub first_ok : run_commit plain first 5 one_workflow ≡ (ok tt, after)
first_ok = elim (commit-outcome plain 5 first one_workflow refl) [
  | inl (f, e) ↦ e ∙ ap {A = Result (Unit {0}) × Tables} (λ m. (ok tt, m.1)) (sym e)
  | inr (f, x) ↦ absurd (cc (f, first_fresh))
]

next : IsNext "w" 1 one_workflow
unfolding latest_receipt latest_delta
next = record { receipt = tt; delta = tt }

commit-IsChained_example : IsChained "w" after
commit-IsChained_example =
    commit-IsChained plain 5 first "w" one_workflow after next
      (record { receipts = tt; deltas = tt }) first_ok

commit-IsCurrent_example :
    IsCurrent plain "w" (result_at 1 true "r1") 5 (find_workflow "w" one_workflow) after
commit-IsCurrent_example =
    commit-IsCurrent plain 5 first one_workflow after refl ((λ own. omega arith), tt) first_ok

commit_repeat_example : (e : Error) × (run_commit plain second 9 after ≡ (err e, after))
commit_repeat_example =
    commit_repeat plain 5 first second 9 one_workflow after refl refl refl refl first_ok

abbrev refused : CommitCall
refused = gate "w" "t1" "approved" "ann" (result_at 1 false "r1")

commit_gate-IsRejected_example :
    ((run_commit plain refused 5 gated).0 ≡ ok tt)
    × IsRejected plain 5 "w" "t1" "approved" "ann"
        (result_at 1 false "r1")
        gated
        (run_commit plain refused 5 gated).1
commit_gate-IsRejected_example =
    commit_gate-IsRejected plain 5 "w" "t1" "approved" "ann" (result_at 1 false "r1") gated refl
