-- ===== src/Anchors/Summary.antt =====
-- acpd/internal/store/anchors.go: AnchorSummary.
use agent_control_plane.Prelude.{
  ℕ, ◌+◌, ◌-◌, String, ◌≡◌, refl, Bool, true, false, Option, none, some, List, [], ◌∷◌, leb, ltb,
  nat_eq, length, any, ℤ, pos, negsuc, ◌&&◌, arith, ◌↔◌, if◌then◌else◌,
}
use agent_control_plane.Json.{Json, int, obj, get_member, Codec}
use agent_control_plane.Schema.{Anchor, WorkflowSnapshot, Tables}
use agent_control_plane.Workflows.{latest_snapshot}
use agent_control_plane.Anchors.{list_anchors, Gap, get_anchor_gaps}
use agent_control_plane.Anchors.Gaps.{in_gap, Separated}
use agent_control_plane.Anchors.Coverage.{anchored, gaps-exact, gaps-Separated}

pub record AnchorSummary : Type 0 where
  pub workflow_id : String
  pub proof_count : ℕ
  pub max_seq : ℤ
  pub covered_seqs : ℤ
  pub gap_count : ℕ
  pub gaps : List Gap
  pub is_fully_anchored : Bool

-- var state struct{ Seq int `json:"seq"` }; on an error maxSeq stays 0
abbrev seq_value : Option Json → ℤ
seq_value (some (int n)) = n
seq_value _ = pos 0

abbrev seq_of : Option Json → ℤ
seq_of (some (obj ms)) = seq_value (get_member "seq" ms)
seq_of _ = pos 0

-- A loop up to a negative bound has no round.
abbrev pub rounds_to : ℤ → ℕ
rounds_to (pos n) = n
rounds_to (negsuc n) = 0

abbrev pub is_positive : ℤ → Bool
is_positive (pos n) = ltb 0 n
is_positive (negsuc n) = false

-- a - b
abbrev difference : ℕ → ℕ → ℤ
difference a b = if leb b a then pos (a - b) else negsuc (b - a - 1)

abbrev sum_ends : List Anchor → ℕ
sum_ends [] = 0
sum_ends (a ∷ rest) = a.seq_to + 1 + sum_ends rest

abbrev sum_starts : List Anchor → ℕ
sum_starts [] = 0
sum_starts (a ∷ rest) = a.seq_from + sum_starts rest

-- The sum of SeqTo - SeqFrom + 1 over the anchors.
unfoldable pub covered_seqs : List Anchor → ℤ
covered_seqs anchors = difference (sum_ends anchors) (sum_starts anchors)

module _ (c : Codec) where
  abbrev pub state_seq : Option WorkflowSnapshot → ℤ
  state_seq none = pos 0
  state_seq (some snap) = seq_of (c.unmarshal snap.state_json)

  unfoldable pub anchor_summary : String → Tables → AnchorSummary
  unfolding covered_seqs list_anchors get_anchor_gaps
  anchor_summary id db =
      let max_seq = state_seq (latest_snapshot id db) in
      let gaps = get_anchor_gaps id (rounds_to max_seq) db in
      let anchors = list_anchors id db in
      record {
        workflow_id = id;
        proof_count = length anchors;
        max_seq = max_seq;
        covered_seqs = covered_seqs anchors;
        gap_count = length gaps;
        gaps = gaps;
        is_fully_anchored = nat_eq (length gaps) 0 && is_positive max_seq;
      }

-- Every number from 1 to the last one lies in an anchor of the workflow.
abbrev pub AllAnchored : String → ℕ → Tables → Type 0
AllAnchored id last db = (q : ℕ) → leb 1 q ≡ true → leb q last ≡ true → anchored id q db ≡ true

empty : (gaps : List Gap) → nat_eq (length gaps) 0 ≡ true → gaps ≡ []
empty [] h = refl
empty (g ∷ gs) h = absurd (ground arith)

no_gaps :
    (id : String) (last : ℕ) (db : Tables)
    → get_anchor_gaps id last db ≡ []
    → AllAnchored id last db
no_gaps id last db e q lo hi =
    let out : any (in_gap q) (get_anchor_gaps id last db) ≡ false = rw e in
    ground (arith, gaps-exact id last q db, out)

pub some_gap :
    (id : String) (last : ℕ) (db : Tables) (gaps : List Gap)
    → get_anchor_gaps id last db ≡ gaps
    → Separated last 1 gaps
    → AllAnchored id last db
    → gaps ≡ []
some_gap id last db [] e s f = refl
some_gap id last db (g ∷ gs) e s f =
    let inside : any (in_gap g.from) (get_anchor_gaps id last db) ≡ true = rw e (ground arith) in
    let lo : leb 1 g.from ≡ true = ground arith in
    let hi : leb g.from last ≡ true = ground arith in
    absurd (ground (arith, inside, gaps-exact id last g.from db, f g.from lo hi))

-- AnchorSummary says that a workflow is fully anchored exactly if the number in its latest state is
-- positive and every number from 1 to it lies in an anchor of the workflow.
pub is_fully_anchored-exact :
    (c : Codec) (id : String) (db : Tables)
    → ((anchor_summary c id db).is_fully_anchored ≡ true) ↔ (
        (is_positive (state_seq c (latest_snapshot id db)) ≡ true)
        × AllAnchored id (rounds_to (state_seq c (latest_snapshot id db))) db)
unfolding anchor_summary
is_fully_anchored-exact c id db =
    let last = rounds_to (state_seq c (latest_snapshot id db)) in
    (
      (λ h. (ground arith, no_gaps id last db (empty _ (ground arith)))),
      (λ h. rw (
        some_gap id last db (get_anchor_gaps id last db) refl (gaps-Separated id last db) h.1,
        h.0,
      )),
    )
