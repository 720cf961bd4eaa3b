-- ===== src/Sdk/Plans.antt =====
-- The bodies that sdk/go/acp/client.go sends, as the handlers of acpd/internal/api and the functions of
-- acpd/internal/store/plan.go read them.
use agent_control_plane.Prelude.{
  String, ◌≡◌, refl, ap, Option, some, List, [], ◌∷◌, Bool-cases, inl, inr, eq_iff, ◌==◌, sym,
}
use agent_control_plane.Json.{Json, obj, Members, end, member, get_member}
use agent_control_plane.Plan.{PlanNode, PlanEdge, Plan, ModelRoute}
use agent_control_plane.Plan.Decode.{
  decode_string, decode_node, decode_edge, decode_items, decode_list, decode_plan,
}
use agent_control_plane.Api.Create.{decode_request}
use agent_control_plane.Api.Edits.{Patch, decode_patch, decode_patches}
use agent_control_plane.Api.Plans.{decode_route, decode_routes, routes_or_none}
use agent_control_plane.Sdk.Bodies.{
  encode_node, encode_edge, encode_items, encode_list, encode_route, encode_plan, creation, patch,
  edit_body, routes_body,
}

module _ {A : Type 0} (encode : A → Json) (decode : Json → Option A) where
  decode-encode_items :
      ((a : A) → decode (encode a) ≡ some a)
      → (xs : List A) → decode_items decode (encode_items encode xs) ≡ some xs
  unfolding decode_items
  decode-encode_items h [] = refl
  decode-encode_items h (x ∷ xs) = rw (h x, decode-encode_items h xs)

  decode-encode_list :
      ((a : A) → decode (encode a) ≡ some a)
      → (xs : List A) → decode_list decode (some (encode_list encode xs)) ≡ some xs
  unfolding decode_list
  decode-encode_list h [] = refl
  decode-encode_list h (x ∷ xs) = decode-encode_items h (x ∷ xs)

decode-encode_node : (n : PlanNode) → decode_node (encode_node n) ≡ some n
unfolding decode_node decode_string get_member
decode-encode_node n = refl

decode-encode_edge : (e : PlanEdge) → decode_edge (encode_edge e) ≡ some e
unfolding decode_edge decode_string get_member
decode-encode_edge e = elim (Bool-cases (e.reason == "")) [
  | inl t ↦ rw t (
      ap (λ r. some (record { from = e.from; to = e.to; reason = r }))
        (sym ((eq_iff e.reason "").0 t)))
  | inr f ↦ rw f refl
]

decode-encode_plan : (p : Plan) → decode_plan (some (encode_plan p)) ≡ some p
unfolding decode_plan encode_plan get_member
decode-encode_plan p = rw (
  decode-encode_list encode_node decode_node decode-encode_node p.nodes,
  decode-encode_list encode_edge decode_edge decode-encode_edge p.edges,
)

-- The members of a plan's JSON.
abbrev plan_members : Plan → Members
plan_members p =
    member "nodes" (encode_list encode_node p.nodes)
      (member "edges" (encode_list encode_edge p.edges) end)

decode-creation :
    (goal owner : String) (p : Plan)
    → (ms : Members) × ((decode_request (some (creation goal owner (some p)))
          ≡ some (record { workflow_id = ""; goal = goal; owner = owner; plan = some ms }))
        × (decode_plan (some (obj ms)) ≡ some p))
unfolding decode_request creation encode_plan decode_string get_member
decode-creation goal owner p = (plan_members p, (refl, decode-encode_plan p))

-- A patch of EditState, from its path and its value.
abbrev pub to_json : Patch → Json
to_json p = patch p.path p.value

decode-to_json : (p : Patch) → decode_patch (to_json p) ≡ some p
unfolding decode_patch decode_string get_member
decode-to_json p = refl

decode-edit_body :
    (ps : List Patch) → decode_patches (some (edit_body (encode_items to_json ps))) ≡ some ps
unfolding decode_patches edit_body decode_list get_member
decode-edit_body ps = decode-encode_items to_json decode_patch decode-to_json ps

decode-encode_route : (r : ModelRoute) → decode_route (encode_route r) ≡ some r
unfolding decode_route decode_string get_member
decode-encode_route r = refl

decode-routes_body : (rs : List ModelRoute) → decode_routes (some (routes_body rs)) ≡ rs
unfolding decode_routes routes_body get_member
decode-routes_body rs =
    ap routes_or_none (decode-encode_list encode_route decode_route decode-encode_route rs)

-- From the client's bodies the server's handlers read what was encoded: createWorkflow the goal, the owner and
-- a plan that the store decodes to the client's, editState the patches, and executePlan the routes.
pub decode-bodies :
    (goal owner : String) (p : Plan) (ps : List Patch) (rs : List ModelRoute)
    → ((ms : Members) × ((decode_request (some (creation goal owner (some p)))
            ≡ some (record { workflow_id = ""; goal = goal; owner = owner; plan = some ms }))
          × (decode_plan (some (obj ms)) ≡ some p)))
      × ((decode_patches (some (edit_body (encode_items to_json ps))) ≡ some ps)
          × (decode_routes (some (routes_body rs)) ≡ rs))
decode-bodies goal owner p ps rs =
    (decode-creation goal owner p, (decode-edit_body ps, decode-routes_body rs))
