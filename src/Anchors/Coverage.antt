-- ===== src/Anchors/Coverage.antt =====
-- GetAnchorGaps against the anchors of the log.
use agent_control_plane.Prelude.{
  ℕ, zero, suc, ◌+◌, ◌-◌, String, ◌≡◌, Bool, none, List, [], ◌∷◌, leb, ltb, any, any-select,
  any-sort_by, ◌&&◌, ◌||◌, not, arith, ap, ◌∙◌, ◌==◌,
}
use agent_control_plane.Schema.{Anchor, Tables}
use agent_control_plane.Anchors.{
  Marks, is_marked, mark_range, mark_anchors, list_anchors, get_anchor_gaps,
}
use agent_control_plane.Anchors.Gaps.{in_gap, gap_loop-any, Separated, gap_loop-Separated}

is_marked-mark_range :
    (q rounds seq : ℕ) (marks : Marks)
    → is_marked (mark_range rounds seq marks) q
      ≡ (is_marked marks q || leb seq q && ltb q (seq + rounds))
unfolding mark_range
is_marked-mark_range q zero seq marks = ground arith
is_marked-mark_range q (suc rounds) seq marks =
    is_marked-mark_range q rounds (seq + 1) (seq ∷ marks) ∙ ground arith

-- seq_from <= q && q <= seq_to
abbrev pub covers : ℕ → Anchor → Bool
covers q a = leb a.seq_from q && leb q a.seq_to

range-covers :
    (q : ℕ) (a : Anchor)
    → (leb a.seq_from q && ltb q (a.seq_from + (a.seq_to + 1 - a.seq_from))) ≡ covers q a
range-covers q a = ground arith

is_marked-mark_anchors :
    (q : ℕ) (anchors : List Anchor) (marks : Marks)
    → is_marked (mark_anchors anchors marks) q ≡ (is_marked marks q || any (covers q) anchors)
unfolding mark_anchors
is_marked-mark_anchors q [] marks = ground arith
is_marked-mark_anchors q (a ∷ rest) marks =
    let range = mark_range (a.seq_to + 1 - a.seq_from) a.seq_from marks in
    ground (
      arith,
      is_marked-mark_anchors q rest range,
      is_marked-mark_range q (a.seq_to + 1 - a.seq_from) a.seq_from marks,
      range-covers q a,
    )

abbrev pub anchored : String → ℕ → Tables → Bool
anchored id q db = any (λ (a : Anchor). a.workflow_id == id && covers q a) db.anchors

is_marked-anchored :
    (id : String) (q : ℕ) (db : Tables)
    → is_marked (mark_anchors (list_anchors id db) []) q ≡ anchored id q db
unfolding list_anchors
is_marked-anchored id q db =
    is_marked-mark_anchors q (list_anchors id db) []
    ∙ any-sort_by (λ (a : Anchor). a.seq_from) (covers q) _
    ∙ any-select _ (covers q) db.anchors

-- A sequence number lies in one of the gaps exactly when it is between 1 and the last one and no anchor
-- of the workflow covers it.
pub gaps-exact :
    (id : String) (max_seq q : ℕ) (db : Tables)
    → any (in_gap q) (get_anchor_gaps id max_seq db)
      ≡ (leb 1 q && leb q max_seq && not (anchored id q db))
unfolding get_anchor_gaps
gaps-exact id max_seq q db =
    gap_loop-any (mark_anchors (list_anchors id db) []) max_seq q max_seq 1 none (omega arith)
      (omega arith) tt
    ∙ ap (λ b. leb 1 q && leb q max_seq && not b) (is_marked-anchored id q db)

-- The gaps are non-empty ranges within 1 and the last number, in rising order, and between two of them
-- stands a number that is in neither, so none can be joined with another.
pub gaps-Separated :
    (id : String) (max_seq : ℕ) (db : Tables) → Separated max_seq 1 (get_anchor_gaps id max_seq db)
unfolding get_anchor_gaps
gaps-Separated id max_seq db =
    gap_loop-Separated (mark_anchors (list_anchors id db) []) max_seq max_seq 1 none (omega arith)
      tt
