-- ===== src/Api/Routes.antt =====
-- acpd/internal/api/api.go: the paths that the handlers are registered under, and the choice of the handler.
-- http.ServeMux chooses a pattern that is equal to the path, or else the longest one that ends in "/" and that
-- the path begins with. A path that is not clean it redirects, unless the method is CONNECT.
pub mod Clean
pub mod Reach
use Prim.Native.Char.{Char, code}
use Prim.Native.String.{slice, len}
use text.Mathlib.Text.{starts_with}
use agent_control_plane.Prelude.{
  ℕ, String, Bool, true, false, nat_eq, is_slash, ◌||◌, Option, none, some, trim_prefix, has_suffix,
  trim_suffix, trim, cut, ◌&&◌, ◌==◌, if◌then◌else◌,
}

abbrev pub cut_pair : String × Option String → String × String
cut_pair (id, none) = (id, "")
cut_pair (id, some sub) = (id, sub)

-- pathSegment: the first part of the path behind the prefix, and what is behind it.
unfoldable pub path_segment : (path after : String) → String × String
unfolding trim cut
path_segment path after = cut_pair (cut (trim (trim_prefix path after)))

-- What handleWorkflow does: it calls a handler, with the id of the path, or replies with an error, or, for
-- "tasks", returns without a reply. For "branches" two handlers reply, one after the other.
pub data WorkflowRoute : Type 0 where
  get_workflow edit_state commit_artifact get_dashboard get_receipts replay execute_plan :
      WorkflowRoute
  no_answer fork anchor anchor_log anchor_verify branches_and_tasks : WorkflowRoute
  node_done : (node_id : String) → WorkflowRoute
  resume : (token : String) → WorkflowRoute
  refused : (code : ℕ) → WorkflowRoute

-- strings.Split(sub, "/") has the parts "gates", the token and "resume" exactly where what is behind "gates/"
-- is cut into the token and "resume".
abbrev pub resume_parts : String × Option String → WorkflowRoute
resume_parts (token, none) = refused 404
resume_parts (token, some rest) = if rest == "resume" then resume token else refused 404

-- The default case of the switch.
abbrev pub other_route : String → WorkflowRoute
other_route sub =
    if starts_with sub "plan/nodes/" && has_suffix sub "/done"
    then node_done (trim_suffix (trim_prefix sub "plan/nodes/") "/done")
    else if starts_with sub "gates/"
    then resume_parts (cut (trim_prefix sub "gates/"))
    else refused 404

unfoldable pub workflow_route : (method sub : String) → WorkflowRoute
workflow_route method sub =
    if sub == ""
    then if method == "GET" then get_workflow else refused 405
    else if sub == "state/edit"
    then edit_state
    else if sub == "artifacts"
    then commit_artifact
    else if sub == "dashboard"
    then get_dashboard
    else if sub == "receipts"
    then get_receipts
    else if sub == "replay"
    then replay
    else if sub == "plan/execute"
    then execute_plan
    else if sub == "tasks"
    then no_answer
    else if sub == "fork"
    then fork
    else if sub == "anchor"
    then anchor
    else if sub == "anchor/log"
    then anchor_log
    else if sub == "anchor/verify"
    then anchor_verify
    else if sub == "branches"
    then branches_and_tasks
    else other_route sub

-- What handleTask does.
pub data TaskRoute : Type 0 where
  complete fail heartbeat get_task : TaskRoute
  not_found : TaskRoute

unfoldable pub task_route : (method sub : String) → TaskRoute
task_route method sub =
    if sub == "complete"
    then complete
    else if sub == "fail"
    then fail
    else if sub == "heartbeat"
    then heartbeat
    else if method == "GET"
    then get_task
    else not_found

-- What a part of a path, between two slashes, is so far.
pub data Part : Type 0 where
  blank one_dot two_dots plain : Part

abbrev dotted : Part → Part
dotted blank = one_dot
dotted one_dot = two_dots
dotted two_dots = plain
dotted plain = plain

abbrev pub next_part : Part → Char → Part
next_part part c = if nat_eq (code c) 46 then dotted part else plain

abbrev pub is_plain : Part → Bool
is_plain plain = true
is_plain _ = false

-- The last part may be empty: the slash at the end of a path is kept.
abbrev may_end : Part → Bool
may_end plain = true
may_end blank = true
may_end _ = false

-- The rest of a path is clean behind what its present part is so far.
unfoldable pub is_clean_from : Part → String → Bool
is_clean_from part String.[] = may_end part
is_clean_from part (String.◌∷◌ c s) =
    let next = is_clean_from blank s in
    let same = is_clean_from (next_part part c) s in
    if is_slash c then is_plain part && next else same

-- net/http's cleanPath leaves the path as it is: it begins with a slash, and no part of it but the last is empty,
-- "." or "..", nor is the last "." or "..".
unfoldable pub is_clean : String → Bool
unfolding is_clean_from
is_clean String.[] = false
is_clean (String.◌∷◌ c s) = is_slash c && is_clean_from blank s

-- What the server does with a request behind the middleware.
pub data Endpoint : Type 0 where
  list_workflows create_workflow model_routes claim_next_task inbox dead_letters : Endpoint
  on_workflow : (id : String) → WorkflowRoute → Endpoint
  on_task : (id : String) → TaskRoute → Endpoint
  rejected : (code : ℕ) → Endpoint
  redirected : Endpoint

abbrev pub on_workflow_path : String → String × String → Endpoint
on_workflow_path method (id, sub) =
    if id == "" then rejected 400 else on_workflow id (workflow_route method sub)

abbrev pub on_task_path : String → String × String → Endpoint
on_task_path method (id, sub) = on_task id (task_route method sub)

abbrev pub get_only : String → Endpoint → Endpoint
get_only method e = if method == "GET" then e else rejected 405

-- handleWorkflows
abbrev pub workflows_route : String → Endpoint
workflows_route method =
    if method == "GET"
    then list_workflows
    else if method == "POST"
    then create_workflow
    else rejected 405

-- The handler of a path, by the patterns of Register.
unfoldable pub registered : (method path : String) → Endpoint
registered method path =
    if path == "/workflows"
    then workflows_route method
    else if path == "/model-routes"
    then model_routes
    else if path == "/tasks/next"
    then get_only method claim_next_task
    else if path == "/operator/inbox"
    then get_only method inbox
    else if path == "/operator/dead-letter"
    then get_only method dead_letters
    else if starts_with path "/workflows/"
    then on_workflow_path method (path_segment path "/workflows/")
    else if starts_with path "/tasks/"
    then on_task_path method (path_segment path "/tasks/")
    else rejected 404

unfoldable pub serve : (method path : String) → Endpoint
unfolding is_clean registered
serve method path =
    let handled = registered method path in
    if method == "CONNECT" || is_clean path then handled else redirected
