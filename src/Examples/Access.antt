-- ===== src/Examples/Access.antt =====
-- Tokens, API keys and requests.
use agent_control_plane.Prelude.{
  String, ◌≡◌, refl, true, none, some, [], ◌∷◌, ◌↔◌, ◌==◌, if◌then◌else◌,
}
use agent_control_plane.Sql.{ok}
use agent_control_plane.Json.{Json, null, str, arr, nil, cons, Codec, hash_bytes}
use agent_control_plane.Schema.{Tables, no_tables}
use agent_control_plane.Tasks.{parse_time}
use agent_control_plane.Keys.{Mac, local, sign_gate_token, verify_gate_token, hash_api_key}
use agent_control_plane.Keys.Tokens.{verify_gate_token-exact}
use agent_control_plane.Actors.{
  Actor, create_actor, resolve_api_key, actor_row, scan_actor, decode_strings, item_strings,
  null_bytes,
}
use agent_control_plane.Actors.Lookup.{resolved}
use agent_control_plane.Auth.{
  Request, admitted, middleware, Presents, middleware-Presents, extract_key,
}

abbrev mac : Mac
mac = record { hmac_hex = λ key text. "00" }

verify_gate_token-exact_example :
    (verify_gate_token mac (some (local "k")) "g1" "hmac:00" ≡ true)
    ↔ (sign_gate_token mac (some (local "k")) "g1" ≡ ok "hmac:00")
verify_gate_token-exact_example = verify_gate_token-exact mac (some (local "k")) "g1" "hmac:00"

abbrev text_of : Json → String
text_of null = "null"
text_of _ = "[\"admin\"]"

-- Slices are nil or hold the one role.
abbrev roles_only : Codec
roles_only = record {
  marshal = text_of;
  unmarshal = λ s. if s == "null" then some null else some (arr (cons (str "admin") nil));
  sha256_hex = λ s. s;
}

abbrev ann : Actor
ann = record {
  actor_id = "ann";
  api_key_hash = "";
  roles = some ("admin" ∷ []);
  allowed_agents = none;
  allowed_workflows = none;
  created_at = 0;
  updated_at = 0;
}

abbrev after : Tables
after = (create_actor roles_only mac none 5 ann "secret" no_tables).1

abbrev request : Request
request = record { path = "/v1/tasks"; authorization = "Bearer secret" }

abbrev found : Actor
found = resolved roles_only mac none ann "secret"

passes : middleware roles_only mac none request after ≡ admitted found
unfolding middleware extract_key resolve_api_key create_actor actor_row scan_actor hash_api_key
    hash_bytes decode_strings item_strings null_bytes parse_time
passes = refl

middleware-Presents_example : Presents roles_only mac none request after found
middleware-Presents_example = middleware-Presents roles_only mac none request after found passes
