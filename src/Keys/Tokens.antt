-- ===== src/Keys/Tokens.antt =====
-- The signatures of acpd/internal/security/keys.go that verify.
use agent_control_plane.Prelude.{String, ◌≡◌, ap, true, Option, none, some, ◌↔◌, eq_iff, ◌==◌}
use agent_control_plane.Sql.{ok}
use agent_control_plane.Keys.{
  Mac, KeyProvider, local, kms, sign_token, verify_token, sign_gate_token, verify_gate_token,
}

same-ok : (x y : String) → ((x == y) ≡ true) ↔ (ok x ≡ ok y)
same-ok x y = ((λ h. ap ok ((eq_iff x y).0 h)), (λ h. (eq_iff x y).1 (cc h)))

module _ (m : Mac) where
  -- A stored token verifies a presented digest exactly if it is what the same provider signs the digest
  -- with; under the KMS stub nothing is signed and nothing verifies.
  pub verify_gate_token-exact :
      (keys : Option KeyProvider) (presented stored : String)
      → (verify_gate_token m keys presented stored ≡ true)
        ↔ (sign_gate_token m keys presented ≡ ok stored)
  unfolding verify_gate_token sign_gate_token verify_token sign_token
  verify_gate_token-exact none presented stored = same-ok presented stored
  verify_gate_token-exact (some (local key)) presented stored = same-ok _ stored
  verify_gate_token-exact (some (kms id)) presented stored =
      ((λ h. absurd (cc h)), (λ h. absurd (cc h)))
