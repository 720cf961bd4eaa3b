-- ===== src/Anchors/Backend.antt =====
-- acpd/internal/anchor/backend.go: the backends that an anchor is submitted to.
use Prim.Native.String.{◌++◌, slice}
use agent_control_plane.Prelude.{ℕ, pos, String, decimal, nat_eq, ◌==◌, if◌then◌else◌}
use agent_control_plane.Sql.{Result, ok, err, not_implemented}
use agent_control_plane.Json.{Json, int, str, obj, Members, end, member, Codec}

pub record ExternalRef : Type 0 where
  pub kind : String
  pub tx_hash : String
  pub block : ℕ
  pub network : String
  pub tsa : String
  pub token_digest : String
  pub log_id : String
  pub leaf_index : ℕ
  pub tree_size : ℕ
  pub local_ref : String
  pub anchored_at : String

pub data Backend : Type 0 where
  local : Backend
  rfc3161 : (tsa_url : String) → Backend
  ethereum : (rpc_url contract_address network : String) → Backend
  ct_log : (log_url : String) → Backend

abbrev pub backend_name : Backend → String
backend_name local = "local"
backend_name (rfc3161 _) = "rfc3161"
backend_name (ethereum _ _ _) = "ethereum"
backend_name (ct_log _) = "ct_log"

abbrev pub anchor_text : (payload_digest workflow_id : String) → (seq_from seq_to : ℕ) → String
anchor_text payload_digest workflow_id seq_from seq_to =
    workflow_id ++ ":" ++ decimal seq_from ++ ":" ++ decimal seq_to ++ ":" ++ payload_digest

-- The reference has the first eight bytes of the hash, which are sixteen digits. `at` is the time, printed.
unfoldable pub local_anchor :
    Codec → String → (payload_digest workflow_id : String) → (seq_from seq_to : ℕ) → ExternalRef
local_anchor c at payload_digest workflow_id seq_from seq_to = record {
  kind = "local";
  tx_hash = "";
  block = 0;
  network = "";
  tsa = "";
  token_digest = "";
  log_id = "";
  leaf_index = 0;
  tree_size = 0;
  local_ref =
      "local:"
      ++ slice (c.sha256_hex (anchor_text payload_digest workflow_id seq_from seq_to)) 0 16;
  anchored_at = at;
}

-- The method Anchor of each backend: all but the local one are stubs.
unfoldable pub submit :
    Codec
    → String
    → Backend
    → (payload_digest workflow_id : String) → (seq_from seq_to : ℕ) → Result ExternalRef
unfolding local_anchor
submit c at local payload_digest workflow_id seq_from seq_to =
    ok (local_anchor c at payload_digest workflow_id seq_from seq_to)
submit c at (rfc3161 _) _ _ _ _ = err not_implemented
submit c at (ethereum _ _ _) _ _ _ _ = err not_implemented
submit c at (ct_log _) _ _ _ _ = err not_implemented

abbrev pub default_backend : Backend
default_backend = local

-- omitempty
abbrev pub text_member : String → String → Members → Members
text_member key value rest = if value == "" then rest else member key (str value) rest

abbrev pub number_member : String → ℕ → Members → Members
number_member key value rest = if nat_eq value 0 then rest else member key (int (pos value)) rest

unfoldable pub ref_json : ExternalRef → Json
ref_json r = obj (
    member "kind" (str r.kind) (
      text_member "tx_hash" r.tx_hash (
        number_member "block" r.block (
          text_member "network" r.network (
            text_member "tsa" r.tsa (
              text_member "token_digest" r.token_digest (
                text_member "log_id" r.log_id (
                  number_member "leaf_index" r.leaf_index (
                    number_member "tree_size" r.tree_size (
                      text_member "local_ref" r.local_ref
                        (text_member "anchored_at" r.anchored_at end)))))))))))

unfoldable pub marshal_external_ref : Codec → ExternalRef → String
unfolding ref_json
marshal_external_ref c r = c.marshal (ref_json r)
