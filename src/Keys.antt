-- ===== src/Keys.antt =====
-- acpd/internal/security/keys.go, and the methods of store.DB that ask its key provider.
pub mod Tokens
use Prim.Native.String.{◌++◌}
use agent_control_plane.Prelude.{String, Bool, true, false, Option, none, some, ◌==◌}
use agent_control_plane.Sql.{Result, ok, err, not_implemented}
use agent_control_plane.Json.{Codec, hash_bytes}

-- crypto/hmac with SHA-256 and encoding/hex: the code of a text under a key, in hexadecimal digits.
pub record Mac : Type 0 where
  pub hmac_hex : (key text : String) → String

-- The implementations of KeyProvider.
pub data KeyProvider : Type 0 where
  local : (master_key : String) → KeyProvider
  kms : (key_id : String) → KeyProvider

module _ (m : Mac) where
  unfoldable pub sign : String → String → String
  sign master_key text = "hmac:" ++ m.hmac_hex master_key text

  -- The KMS provider is a stub.
  unfoldable pub sign_token : KeyProvider → String → Result String
  unfolding sign
  sign_token (local key) token = ok (sign key ("gate:" ++ token))
  sign_token (kms id) token = err not_implemented

  -- hmac.Equal is equality.
  unfoldable pub verify_token : KeyProvider → String → String → Bool
  unfolding sign
  verify_token (local key) token sig = sign key ("gate:" ++ token) == sig
  verify_token (kms id) token sig = false

  unfoldable pub provider_hash : KeyProvider → String → String
  unfolding sign
  provider_hash (local key) api_key = sign key ("apikey:" ++ api_key)
  provider_hash (kms id) api_key = "kms:not-implemented"

  -- DB.SignGateToken: d.keys may be nil.
  unfoldable pub sign_gate_token : Option KeyProvider → String → Result String
  unfolding sign_token
  sign_gate_token none digest = ok digest
  sign_gate_token (some k) digest = sign_token k digest

  unfoldable pub verify_gate_token : Option KeyProvider → String → String → Bool
  unfolding verify_token
  verify_gate_token none presented stored = presented == stored
  verify_gate_token (some k) presented stored = verify_token k presented stored

  -- DB.hashAPIKey, and HashAPIKey where there is no provider.
  unfoldable pub hash_api_key : Codec → Option KeyProvider → String → String
  unfolding provider_hash hash_bytes
  hash_api_key c none api_key = hash_bytes c api_key
  hash_api_key c (some k) api_key = provider_hash k api_key
