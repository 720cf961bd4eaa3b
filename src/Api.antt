-- ===== src/Api.antt =====
-- acpd/internal/api: the replies of the HTTP handlers. The handlers run behind the middleware of
-- acpd/internal/auth, so that each has an actor.
pub mod Create
pub mod Views
pub mod Plans
pub mod Forks
pub mod Routes
pub mod Tasks
pub mod Anchors
pub mod Edits
pub mod Resume
pub mod Workers
use agent_control_plane.Prelude.{ℕ, String, Bool, false, Option, none, some}
use agent_control_plane.Json.{Json, null, bool, str, obj, Members, end, member, get_member}
use agent_control_plane.Plan.Decode.{decode_string}

-- The method, the body if it is a JSON document, and the text of that document, as a json.RawMessage.
pub record Call : Type 0 where
  pub method : String
  pub body : Option Json
  pub text : String

-- writeJSON: the status code and the members of the body.
pub record Reply : Type 0 where
  pub code : ℕ
  pub body : Members

-- A handler that panics: net/http closes the connection without a reply.
abbrev pub no_reply : Reply
no_reply = record { code = 0; body = end }

-- writeErr
unfoldable pub error_reply : ℕ → String → Reply
error_reply code message = record {
  code = code;
  body = member "ok" (bool false) (member "error" (str message) end);
}

-- A body that is decoded into a struct with one string: `none` is an error of the decoder.
unfoldable pub string_field : String → Option Json → Option String
unfolding decode_string get_member
string_field key (some null) = some ""
string_field key (some (obj ms)) = decode_string (get_member key ms)
string_field key _ = none
