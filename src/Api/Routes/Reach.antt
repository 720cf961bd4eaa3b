-- ===== src/Api/Routes/Reach.antt =====
-- Which paths reach the handlers of acpd/internal/api that a path's part names a thing for.
use Prim.Native.String.{◌++◌}
use text.Mathlib.Text.{starts_with}
use text.Mathlib.TextEquality.{starts_with_iff}
use text.Mathlib.TextLemmas.{
  append_assoc, cons-append, head-eq_of_cons-eq, append-ne-nil_of_right_ne-nil,
}
use Prim.Native.Char.{Char, code}
use text.Mathlib.TextPositions.{starts_with-append}
use agent_control_plane.Prelude.{
  has_suffix, trim_suffix, String, ◌≡◌, ◌≢◌, refl, ap, ◌∙◌, true, false, some, trim_prefix,
  trim_prefix-append, has_suffix-append, trim_suffix-append, cut-append, trim-append,
  trim_right-append, arith, sym, trim_right, cut, has_slash, ◌==◌, Bool-cases, inl, inr, test_of_ne,
}
use agent_control_plane.Api.Routes.Clean.{is_name, is_name-ne, is_name-has_slash, clean-resume_path}
use agent_control_plane.Api.Routes.{
  path_segment, workflow_route, node_done, resume, registered, serve, is_clean, on_workflow,
  other_route,
}

-- A path is read back as the id and the rest that it is made of.
pub path_segment-append :
    (after id sub : String)
    → id ≢ ""
    → has_slash id ≡ false
    → sub ≢ ""
    → trim_right sub ≡ sub
    → path_segment (after ++ id ++ "/" ++ sub) after ≡ (id, sub)
unfolding path_segment
path_segment-append after id sub ne h ns r =
    rw
      (
        trim_prefix-append after (id ++ "/" ++ sub),
        trim-append id sub ne h r ns,
        cut-append id sub h,
      )
      refl

literal_missed :
    (path prefix literal : String)
    → starts_with path prefix ≡ true
    → starts_with literal prefix ≡ false
    → (path == literal) ≡ false
literal_missed path prefix literal h f =
    test_of_ne path literal (λ e. absurd (cc (ap (λ s. starts_with s prefix) e, h, f)))

-- Behind "/workflows/" and an id, the rest of the path chooses the handler.
registered-workflow_route :
    (method id sub : String)
    → id ≢ ""
    → has_slash id ≡ false
    → sub ≢ ""
    → trim_right sub ≡ sub
    → registered method ("/workflows/" ++ id ++ "/" ++ sub)
      ≡ on_workflow id (workflow_route method sub)
unfolding registered
registered-workflow_route method id sub ne h ns r =
    let path = "/workflows/" ++ id ++ "/" ++ sub in
    let begins : starts_with path "/workflows/" ≡ true =
      starts_with-append "/workflows/" (id ++ "/" ++ sub) in
    rw
      (
        literal_missed path "/workflows/" "/workflows" begins refl,
        literal_missed path "/workflows/" "/model-routes" begins refl,
        literal_missed path "/workflows/" "/tasks/next" begins refl,
        literal_missed path "/workflows/" "/operator/inbox" begins refl,
        literal_missed path "/workflows/" "/operator/dead-letter" begins refl,
        begins,
        path_segment-append "/workflows/" id sub ne h ns r,
        test_of_ne id "" ne,
      )
      refl

-- The rest of a path that begins like the paths of gates or of nodes is none of the fixed ones.
fixed_missed :
    (method sub prefix : String)
    → starts_with sub prefix ≡ true
    → starts_with "" prefix ≡ false
    → starts_with "state/edit" prefix ≡ false
    → starts_with "artifacts" prefix ≡ false
    → starts_with "dashboard" prefix ≡ false
    → starts_with "receipts" prefix ≡ false
    → starts_with "replay" prefix ≡ false
    → starts_with "plan/execute" prefix ≡ false
    → starts_with "tasks" prefix ≡ false
    → starts_with "fork" prefix ≡ false
    → starts_with "anchor" prefix ≡ false
    → starts_with "anchor/log" prefix ≡ false
    → starts_with "anchor/verify" prefix ≡ false
    → starts_with "branches" prefix ≡ false
    → workflow_route method sub ≡ other_route sub
unfolding workflow_route
fixed_missed method sub prefix h f0 f1 f2 f3 f4 f5 f6 f7 f8 f9 f10 f11 f12 =
    rw
      (
        literal_missed sub prefix "" h f0,
        literal_missed sub prefix "state/edit" h f1,
        literal_missed sub prefix "artifacts" h f2,
        literal_missed sub prefix "dashboard" h f3,
        literal_missed sub prefix "receipts" h f4,
        literal_missed sub prefix "replay" h f5,
        literal_missed sub prefix "plan/execute" h f6,
        literal_missed sub prefix "tasks" h f7,
        literal_missed sub prefix "fork" h f8,
        literal_missed sub prefix "anchor" h f9,
        literal_missed sub prefix "anchor/log" h f10,
        literal_missed sub prefix "anchor/verify" h f11,
        literal_missed sub prefix "branches" h f12,
      )
      refl

gates_not_nodes : (rest : String) → starts_with ("gates/" ++ rest) "plan/nodes/" ≡ false
gates_not_nodes rest = elim (Bool-cases (starts_with ("gates/" ++ rest) "plan/nodes/")) [
  | inr f ↦ f
  | inl t ↦ absurd (
      let (r, e) = (starts_with_iff ("gates/" ++ rest) "plan/nodes/").0 t in
      let head : Path Char "p" "g" =
        head-eq_of_cons-eq
          (sym (cons-append "p" "lan/nodes/" r) ∙ e ∙ cons-append "g" "ates/" rest) in
      omega (arith, ap code head))
]

registered-resume_path :
    (method id token : String)
    → id ≢ ""
    → has_slash id ≡ false
    → has_slash token ≡ false
    → registered method ("/workflows/" ++ id ++ "/" ++ "gates/" ++ token ++ "/resume")
      ≡ on_workflow id (resume token)
unfolding trim_right
registered-resume_path method id token ne h th =
    let sub = "gates/" ++ token ++ "/resume" in
    let begins : starts_with sub "gates/" ≡ true =
      starts_with-append "gates/" (token ++ "/resume") in
    let other : workflow_route method sub ≡ other_route sub =
      fixed_missed method sub "gates/" begins refl refl refl refl refl refl refl refl refl refl refl
        refl refl in
    let parts : cut (trim_prefix sub "gates/") ≡ (token, some "resume") =
      ap cut (trim_prefix-append "gates/" (token ++ "/resume")) ∙ cut-append token "resume" th in
    let chosen : other_route sub ≡ resume token =
      rw (gates_not_nodes (token ++ "/resume"), parts, begins) refl in
    let behind : token ++ "/resume" ≢ "" = append-ne-nil_of_right_ne-nil token (cc) in
    registered-workflow_route method id sub ne h (append-ne-nil_of_right_ne-nil "gates/" behind) (
      trim_right-append "gates/" (token ++ "/resume") (trim_right-append token "/resume" refl (cc))
        behind)
    ∙ ap (on_workflow id) (other ∙ chosen)

-- What is registered for a clean path serves it.
serve-clean :
    (method path : String) → is_clean path ≡ true → serve method path ≡ registered method path
unfolding serve
serve-clean method path h = elim (Bool-cases (method == "CONNECT")) [
  | inl y ↦ rw y refl
  | inr n ↦ rw (n, h) refl
]

-- The path of a gate's resumption calls resumeGate with the workflow and the token, whatever the method, where
-- each of the two is neither empty nor "." nor "..", and has no slash.
pub serve-resume_path :
    (method id token : String)
    → is_name id ≡ true
    → is_name token ≡ true
    → serve method ("/workflows/" ++ id ++ "/" ++ "gates/" ++ token ++ "/resume")
      ≡ on_workflow id (resume token)
serve-resume_path method id token n t =
    serve-clean method _ (clean-resume_path id token n t)
    ∙ registered-resume_path method id token (is_name-ne id n) (is_name-has_slash id n)
        (is_name-has_slash token t)

-- The path of a node's mark, where it is clean, calls markNodeDone with what stands between "plan/nodes/" and
-- "/done", slashes included, whatever the method.
pub serve-node_done :
    (method id node_id : String)
    → id ≢ ""
    → has_slash id ≡ false
    → is_clean ("/workflows/" ++ id ++ "/" ++ "plan/nodes/" ++ node_id ++ "/done") ≡ true
    → serve method ("/workflows/" ++ id ++ "/" ++ "plan/nodes/" ++ node_id ++ "/done")
      ≡ on_workflow id (node_done node_id)
unfolding trim_right
serve-node_done method id node_id ne h clean =
    let sub = "plan/nodes/" ++ node_id ++ "/done" in
    let begins : starts_with sub "plan/nodes/" ≡ true =
      starts_with-append "plan/nodes/" (node_id ++ "/done") in
    let ends : has_suffix sub "/done" ≡ true =
      ap (λ s. has_suffix s "/done") (sym (append_assoc "plan/nodes/" node_id "/done"))
      ∙ has_suffix-append ("plan/nodes/" ++ node_id) "/done" in
    let node : trim_suffix (trim_prefix sub "plan/nodes/") "/done" ≡ node_id =
      ap (λ s. trim_suffix s "/done") (trim_prefix-append "plan/nodes/" (node_id ++ "/done"))
      ∙ trim_suffix-append node_id "/done" in
    let other : workflow_route method sub ≡ other_route sub =
      fixed_missed method sub "plan/nodes/" begins refl refl refl refl refl refl refl refl refl refl
        refl refl refl in
    let chosen : other_route sub ≡ node_done node_id = rw (node, ends, begins) refl in
    let behind : node_id ++ "/done" ≢ "" = append-ne-nil_of_right_ne-nil node_id (cc) in
    serve-clean method _ clean
    ∙ registered-workflow_route method id sub ne h
        (append-ne-nil_of_right_ne-nil "plan/nodes/" behind)
        (trim_right-append "plan/nodes/" (node_id ++ "/done")
          (trim_right-append node_id "/done" refl (cc)) behind)
    ∙ ap (on_workflow id) (other ∙ chosen)
