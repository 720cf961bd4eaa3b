-- ===== src/Sdk/Builder.antt =====
-- sdk/go/acp/builder.go: a workflow that is created and advanced by a chain of calls. The client of the
-- source's builder is the argument of the operations here.
use Prim.Native.String.{◌++◌}
use agent_control_plane.Prelude.{ℤ, String, Option, none, some, List}
use agent_control_plane.Json.{Json, str, nil, cons}
use agent_control_plane.Plan.{Plan}
use agent_control_plane.Api.Forks.{decimal_ℤ}
use agent_control_plane.Sdk.{Http, Client, Session, pure, ◌>>=◌, ◌>>◌, wrap}
use agent_control_plane.Sdk.Values.{AcpReceipt}
use agent_control_plane.Sdk.Bodies.{patch}
use agent_control_plane.Sdk.Calls.{create_workflow, edit_state, fork, get_receipts}

pub record WorkflowBuilder : Type 0 where
  pub workflow_id : String
  pub goal : String
  pub owner : String
  pub plan : Option Plan

unfoldable new_workflow : String → String → WorkflowBuilder
new_workflow goal owner = record { workflow_id = ""; goal = goal; owner = owner; plan = none }

unfoldable with_plan : Plan → WorkflowBuilder → WorkflowBuilder
with_plan p b = record b { plan = some p }

module _ {S : Type 0} (http : Http S) (c : Client) where
  unfoldable create : WorkflowBuilder → Session S WorkflowBuilder
  unfolding create_workflow
  create b = do
    wf ← wrap "create workflow" (create_workflow http c b.goal b.owner b.plan)
    pure (record b { workflow_id = wf.workflow_id })

  unfoldable set_stage : String → WorkflowBuilder → Session S WorkflowBuilder
  unfolding edit_state
  set_stage stage b = do
    wrap ("set stage " ++ stage)
        (edit_state http c b.workflow_id (cons (patch "stage" (str stage)) nil))
    pure b

  unfoldable set_variable : String → Json → WorkflowBuilder → Session S WorkflowBuilder
  unfolding edit_state
  set_variable key value b = do
    wrap ("set var " ++ key)
        (edit_state http c b.workflow_id (cons (patch ("var." ++ key) value) nil))
    pure b

  unfoldable fork_builder : ℤ → String → WorkflowBuilder → Session S WorkflowBuilder
  unfolding fork
  fork_builder seq reason b = do
    branch ← wrap ("fork at seq " ++ decimal_ℤ seq) (fork http c b.workflow_id seq reason)
    pure (record {
      workflow_id = branch.branch_id;
      goal = b.goal ++ " [fork]";
      owner = b.owner;
      plan = none;
    })

  unfoldable receipts : WorkflowBuilder → Session S (List AcpReceipt)
  unfolding get_receipts
  receipts b = get_receipts http c b.workflow_id
