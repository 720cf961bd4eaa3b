-- ===== src/Tasks/Claim/Order.antt =====
-- The order in which ClaimNextTask takes tasks is a total preorder.
use agent_control_plane.Prelude.{◌≡◌, true, false, arith}
use agent_control_plane.Schema.{TaskRow}
use agent_control_plane.Tasks.Claim.{before}

module _ (r s t : TaskRow) where
  pub before_trans : before s r ≡ false → before t s ≡ false → before t r ≡ false
  unfolding before
  before_trans p q = ground arith

module _ (r s : TaskRow) where
  pub before_asym : before r s ≡ true → before s r ≡ false
  unfolding before
  before_asym p = ground arith

pub before_irrefl : (r : TaskRow) → before r r ≡ false
unfolding before
before_irrefl r = ground arith
