-- ===== src/Anchors.antt =====
-- acpd/internal/store/anchors.go: the log of external anchors, and the gaps in what it covers.
-- A sequence number is a natural number.
pub mod Gaps
pub mod Coverage
pub mod Summary
pub mod Backend
use agent_control_plane.Prelude.{
  ℕ, zero, suc, ◌+◌, ◌-◌, String, Bool, true, false, Option, none, some, List, [], ◌∷◌, ◌++◌, leb,
  ltb, nat_eq, select, any, length, sort_by, ◌&&◌, ◌==◌, if◌then◌else◌,
}
use agent_control_plane.Sql.{unique_violation, Stmt, raise, write}
use agent_control_plane.Schema.{Anchor, Tables}

-- INSERT INTO anchors: the primary key is checked.
unfoldable pub create_anchor : Anchor → Stmt Tables (Unit {0})
create_anchor a db =
    if any (λ (b : Anchor). b.proof_id == a.proof_id) db.anchors
    then raise unique_violation db
    else write (λ db. record db { anchors = db.anchors ++ a ∷ [] }) db

unfoldable pub list_anchors : String → Tables → List Anchor
list_anchors id db =
    sort_by (λ a. a.seq_from) (select (λ (a : Anchor). a.workflow_id == id) db.anchors)

-- The map `covered`: the keys that are set, newest first.
abbrev pub Marks : Type 0
Marks = List ℕ

abbrev pub is_marked : Marks → ℕ → Bool
is_marked marks seq = any (λ m. nat_eq m seq) marks

-- for seq := a.SeqFrom; seq <= a.SeqTo; seq++, by the rounds that are left
unfoldable pub mark_range : ℕ → ℕ → Marks → Marks
mark_range zero seq marks = marks
mark_range (suc rounds) seq marks = mark_range rounds (seq + 1) (seq ∷ marks)

unfoldable pub mark_anchors : List Anchor → Marks → Marks
unfolding mark_range
mark_anchors [] marks = marks
mark_anchors (a ∷ rest) marks =
    mark_anchors rest (mark_range (a.seq_to + 1 - a.seq_from) a.seq_from marks)

pub record Gap : Type 0 where
  pub from : ℕ
  pub to : ℕ

abbrev pub last_gap : ℕ → Option ℕ → List Gap
last_gap max_seq none = []
last_gap max_seq (some start) = record { from = start; to = max_seq } ∷ []

abbrev pub opened : ℕ → Option ℕ → Option ℕ
opened seq none = some seq
opened seq (some start) = some start

abbrev pub closed : ℕ → Option ℕ → List Gap → List Gap
closed seq none gaps = gaps
closed seq (some start) gaps = record { from = start; to = seq - 1 } ∷ gaps

-- for seq := 1; seq <= maxSeq; seq++, by the rounds that are left. gapStart is `none` where the code
-- has -1, and the result is what is appended to `gaps` from here on.
unfoldable pub gap_loop : Marks → ℕ → ℕ → ℕ → Option ℕ → List Gap
gap_loop marks max_seq zero seq start = last_gap max_seq start
gap_loop marks max_seq (suc rounds) seq start = elim (is_marked marks seq) [
  | false ↦ gap_loop marks max_seq rounds (seq + 1) (opened seq start)
  | true ↦ closed seq start (gap_loop marks max_seq rounds (seq + 1) none)
]

unfoldable pub get_anchor_gaps : String → ℕ → Tables → List Gap
unfolding gap_loop mark_anchors
get_anchor_gaps id max_seq db =
    gap_loop (mark_anchors (list_anchors id db) []) max_seq max_seq 1 none
