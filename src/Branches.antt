-- ===== src/Branches.antt =====
-- acpd/internal/store/branches.go: the records of workflows forked from an earlier state of another.
pub mod Fork
use agent_control_plane.Prelude.{
  ℕ, String, Bool, Option, none, some, List, [], ◌∷◌, ◌++◌, map, select, any, find, sort_with,
  count, ltb, nat_eq, ◌||◌, ◌&&◌, ◌==◌, if◌then◌else◌,
}
use agent_control_plane.Sql.{unique_violation, Stmt, raise, write}
use agent_control_plane.Json.{Json, null, obj, Members, end, delete_member, Codec}
use agent_control_plane.Schema.{Branch, Tables}
use agent_control_plane.Tasks.{parse_time, sql_datetime}

abbrev pub kind_or_fork : String → String
kind_or_fork kind = if kind == "" then "fork" else kind

-- INSERT INTO branches: the primary key is checked.
unfoldable pub create_branch : ℕ → Branch → Stmt Tables (Unit {0})
create_branch now b db =
    if any (λ (r : Branch). r.branch_id == b.branch_id) db.branches
    then raise unique_violation db
    else write
        (λ db. record db {
          branches = db.branches ++ record b { kind = kind_or_fork b.kind; created_at = now } ∷ [];
        })
        db

-- The scan parses the time with the layout that it was written in.
unfoldable pub scan_branch : Branch → Branch
unfolding parse_time
scan_branch b = record b { created_at = parse_time sql_datetime b.created_at }

abbrev pub has_branch_id : String → Branch → Bool
has_branch_id id b = b.branch_id == id

unfoldable pub get_branch : String → Tables → Option Branch
unfolding scan_branch
get_branch id db = elim (find (has_branch_id id) db.branches) [
  | none ↦ none
  | some b ↦ some (scan_branch b)
]

abbrev pub has_parent : String → Branch → Bool
has_parent id b = b.parent_id == id

-- ORDER BY branch_point_seq ASC, created_at ASC
abbrev earlier : Branch → Branch → Bool
earlier a b =
    ltb a.branch_point_seq b.branch_point_seq
    || nat_eq a.branch_point_seq b.branch_point_seq && ltb a.created_at b.created_at

unfoldable pub list_branches : String → Tables → List Branch
unfolding scan_branch
list_branches parent db =
    map scan_branch (sort_with earlier (select (has_parent parent) db.branches))

unfoldable pub count_branches : String → Tables → ℕ
count_branches parent db = count (has_parent parent) db.branches

module _ (c : Codec) where
  abbrev stripped : String → Option Json → String
  stripped text (some (obj ms)) = c.marshal (obj (delete_member "lineage" ms))
  stripped text (some null) = c.marshal null
  stripped text _ = text

  -- stripLineageFromJSON: a text that is no object comes back as it is.
  unfoldable pub strip_lineage_from_json : String → String
  unfolding delete_member
  strip_lineage_from_json text = stripped text (c.unmarshal text)
