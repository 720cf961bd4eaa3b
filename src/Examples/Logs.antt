-- ===== src/Examples/Logs.antt =====
-- Anchors of the workflow "w".
use agent_control_plane.Prelude.{ℕ, String, ◌≡◌, true, [], ◌∷◌, any, leb, ◌&&◌, not, ◌↔◌}
use agent_control_plane.Schema.{Anchor, Tables}
use agent_control_plane.Workflows.{latest_snapshot}
use agent_control_plane.Anchors.{get_anchor_gaps}
use agent_control_plane.Anchors.Gaps.{in_gap, Separated}
use agent_control_plane.Anchors.Coverage.{anchored, gaps-exact, gaps-Separated}
use agent_control_plane.Anchors.Summary.{
  is_positive, rounds_to, state_seq, anchor_summary, AllAnchored, is_fully_anchored-exact,
}
use agent_control_plane.Examples.{plain, one_workflow}

abbrev anchor_of : String → ℕ → ℕ → Anchor
anchor_of id from to = record {
  proof_id = id;
  workflow_id = "w";
  seq_from = from;
  seq_to = to;
  chain_root = "";
  payload_digest = "";
  proof_digest = "";
  external_kind = "git";
  external_ref = "";
  anchored_by = "ann";
  payload_json = "{}";
  proof_json = "{}";
  created_at = 1;
}

abbrev anchored_tables : Tables
anchored_tables = record one_workflow { anchors = anchor_of "p1" 2 3 ∷ anchor_of "p2" 5 6 ∷ [] }

gaps-exact_example :
    any (in_gap 4) (get_anchor_gaps "w" 8 anchored_tables)
    ≡ (leb 1 4 && leb 4 8 && not (anchored "w" 4 anchored_tables))
gaps-exact_example = gaps-exact "w" 8 4 anchored_tables

gaps-Separated_example : Separated 8 1 (get_anchor_gaps "w" 8 anchored_tables)
gaps-Separated_example = gaps-Separated "w" 8 anchored_tables

is_fully_anchored-exact_example :
    ((anchor_summary plain "w" anchored_tables).is_fully_anchored ≡ true) ↔ (
      (is_positive (state_seq plain (latest_snapshot "w" anchored_tables)) ≡ true)
      × AllAnchored "w"
          (rounds_to (state_seq plain (latest_snapshot "w" anchored_tables)))
          anchored_tables)
is_fully_anchored-exact_example = is_fully_anchored-exact plain "w" anchored_tables
