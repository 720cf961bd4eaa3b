-- ===== src/Sdk.antt =====
-- sdk/go/acp/client.go: the requests of the client and how it reads the replies. The server and the network
-- in between are a function from a request and a state to a reply, where there is one, and a state.
pub mod Values
pub mod Bodies
pub mod Calls
pub mod Builder
pub mod Worker
pub mod Adapters
pub mod Sent
pub mod Plans
use Prim.Native.String.{◌++◌}
use agent_control_plane.Prelude.{ℕ, String, Option, none, some, List, [], ◌∷◌, ltb, if◌then◌else◌}
use agent_control_plane.Json.{Json, obj, get_member}
use agent_control_plane.Plan.Decode.{decode_string}

pub record Request : Type 0 where
  pub method : String
  pub url : String
  pub authorization : String
  pub content_type : Option String
  pub body : Option Json

-- The status code, and the body if it is a JSON document.
pub record Response : Type 0 where
  pub code : ℕ
  pub body : Option Json

-- http.Client's Do: `none` is an error of it.
abbrev pub Http : Type 0 → Type 0
Http S = Request → S → Option Response × S

-- The errors of the client, as what they were made of.
pub data Failure : Type 0 where
  unreachable : Failure
  rejected : (code : ℕ) → (message : String) → Failure
  undecodable : Failure
  wrapped : String → Failure → Failure

pub data Answer (A : Type 0) : Type 0 where
  done : A → Answer A
  failed : Failure → Answer A

abbrev pub Session : Type 0 → Type 0 → Type 0
Session S A = S → Answer A × S

module _ {S A : Type 0} where
  abbrev pub pure : A → Session S A
  pure a s = (done a, s)

  abbrev pub wrap_answer : String → Answer A × S → Answer A × S
  wrap_answer message (done a, s) = (done a, s)
  wrap_answer message (failed e, s) = (failed (wrapped message e), s)

  -- fmt.Errorf("message: %w", err)
  abbrev pub wrap : String → Session S A → Session S A
  wrap message m s = wrap_answer message (m s)

module _ {S A B : Type 0} where
  abbrev pub continue : (A → Session S B) → Answer A × S → Answer B × S
  continue f (done a, s) = f a s
  continue f (failed e, s) = (failed e, s)

  infixl 5 ◌>>=◌ ◌>>◌
  abbrev pub ◌>>=◌ : Session S A → (A → Session S B) → Session S B
  ◌>>=◌ m f s = continue f (m s)

  abbrev pub ◌>>◌ : Session S A → Session S B → Session S B
  m >> n = m >>= λ _. n

-- The field `error` of an error's body, whose decoding may fail.
abbrev or_empty : Option String → String
or_empty none = ""
or_empty (some message) = message

unfoldable error_message : Option Json → String
unfolding decode_string get_member
error_message (some (obj ms)) = or_empty (decode_string (get_member "error" ms))
error_message _ = ""

abbrev decoded : {A : Type 0} → Option A → Answer A
decoded none = failed undecodable
decoded (some a) = done a

abbrev decoded_body : {A : Type 0} → (Json → Option A) → Option Json → Answer A
decoded_body decode none = failed undecodable
decoded_body decode (some j) = decoded (decode j)

-- What `do` makes of a reply.
unfoldable pub read_response : {A : Type 0} → (Json → Option A) → Response → Answer A
unfolding error_message
read_response decode r =
    if ltb r.code 400
    then decoded_body decode r.body
    else failed (rejected r.code (error_message r.body))

module _ {S A : Type 0} where
  abbrev pub read_reply : (Json → Option A) → Option Response × S → Answer A × S
  read_reply decode (none, s) = (failed unreachable, s)
  read_reply decode (some r, s) = (read_response decode r, s)

-- The address of the server and the key.
pub record Client : Type 0 where
  pub base_url : String
  pub api_key : String

unfoldable pub post_request : Client → (path : String) → (body : Option Json) → Request
post_request c path body = record {
  method = "POST";
  url = c.base_url ++ path;
  authorization = "Bearer " ++ c.api_key;
  content_type = some "application/json";
  body = body;
}

unfoldable pub get_request : Client → (path : String) → Request
get_request c path = record {
  method = "GET";
  url = c.base_url ++ path;
  authorization = "Bearer " ++ c.api_key;
  content_type = none;
  body = none;
}

-- `do`
unfoldable pub send : {S A : Type 0} → Http S → (Json → Option A) → Request → Session S A
unfolding read_response
send http decode req s = read_reply decode (http req s)

-- A transport that keeps a list of the requests that it is given.
abbrev pub record_answer :
    {S : Type 0} → List Request → Option Response × S → Option Response × (S × List Request)
record_answer log (answer, s) = (answer, (s, log))
