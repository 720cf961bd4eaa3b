-- ===== src/Actors.antt =====
-- acpd/internal/store/actors.go: actors and their API keys.
pub mod Lookup
use agent_control_plane.Prelude.{
  ℕ, String, Bool, Option, none, some, List, [], ◌∷◌, ◌++◌, any, find, ◌||◌, ◌==◌, if◌then◌else◌,
}
use agent_control_plane.Sql.{unique_violation, Stmt, raise, write}
use agent_control_plane.Json.{Json, null, str, arr, Items, nil, cons, strings, Codec}
use agent_control_plane.Schema.{ActorRow, Tables}
use agent_control_plane.Tasks.{parse_time, rfc3339_nano}
use agent_control_plane.Keys.{Mac, KeyProvider, hash_api_key}

-- Go's Actor: a nil slice is `none`.
pub record Actor : Type 0 where
  pub actor_id : String
  pub api_key_hash : String
  pub roles : Option (List String)
  pub allowed_agents : Option (List String)
  pub allowed_workflows : Option (List String)
  pub created_at : ℕ
  pub updated_at : ℕ

-- json.Marshal of a []string: a nil slice is null.
abbrev pub slice_json : Option (List String) → Json
slice_json none = null
slice_json (some ss) = arr (strings ss)

-- json.Unmarshal into a []string: an item of another type leaves "", and a document that is no array
-- leaves the slice nil.
unfoldable pub item_strings : Items → List String
item_strings nil = []
item_strings (cons (str s) js) = s ∷ item_strings js
item_strings (cons _ js) = "" ∷ item_strings js

unfoldable pub decode_strings : Option Json → Option (List String)
unfolding item_strings
decode_strings (some (arr js)) = some (item_strings js)
decode_strings _ = none

-- nullBytes
unfoldable pub null_bytes : String → Option String
null_bytes text = if text == "null" then none else some text

abbrev pub clashes_with : ActorRow → ActorRow → Bool
clashes_with new r = r.actor_id == new.actor_id || r.api_key_hash == new.api_key_hash

abbrev pub has_hash : String → ActorRow → Bool
has_hash hash r = r.api_key_hash == hash

module _ (c : Codec) (m : Mac) (keys : Option KeyProvider) where
  unfoldable pub actor_row : ℕ → Actor → String → ActorRow
  unfolding hash_api_key null_bytes
  actor_row now a api_key = record {
    actor_id = a.actor_id;
    api_key_hash = hash_api_key m c keys api_key;
    roles_json = c.marshal (slice_json a.roles);
    allowed_agents_json = null_bytes (c.marshal (slice_json a.allowed_agents));
    allowed_workflows_json = null_bytes (c.marshal (slice_json a.allowed_workflows));
    created_at = now;
    updated_at = now;
  }

  -- INSERT INTO actors: the primary key and the unique column are checked.
  unfoldable pub create_actor : ℕ → Actor → String → Stmt Tables (Unit {0})
  unfolding actor_row
  create_actor now a api_key db =
      if any (clashes_with (actor_row now a api_key)) db.actors
      then raise unique_violation db
      else write (λ db. record db { actors = db.actors ++ actor_row now a api_key ∷ [] }) db

  abbrev read_slice : Option String → Option (List String)
  read_slice none = none
  read_slice (some text) = decode_strings (c.unmarshal text)

  unfoldable pub scan_actor : ActorRow → Actor
  unfolding decode_strings parse_time
  scan_actor r = record {
    actor_id = r.actor_id;
    api_key_hash = r.api_key_hash;
    roles = read_slice (some r.roles_json);
    allowed_agents = read_slice r.allowed_agents_json;
    allowed_workflows = read_slice r.allowed_workflows_json;
    created_at = parse_time rfc3339_nano r.created_at;
    updated_at = parse_time rfc3339_nano r.updated_at;
  }

  abbrev pub scanned_actor : Option ActorRow → Option Actor
  scanned_actor none = none
  scanned_actor (some r) = some (scan_actor r)

  unfoldable pub resolve_api_key : String → Tables → Option Actor
  unfolding hash_api_key scan_actor
  resolve_api_key api_key db =
      scanned_actor (find (has_hash (hash_api_key m c keys api_key)) db.actors)
