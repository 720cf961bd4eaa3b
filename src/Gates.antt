-- ===== src/Gates.antt =====
-- acpd/internal/store/gates.go: approval gates.
use agent_control_plane.Prelude.{
  ℕ, String, Bool, Option, none, some, List, [], ◌∷◌, ◌++◌, map, select, any, find, update, max_by,
  sort_by, ◌&&◌, ◌==◌, if◌then◌else◌,
}
use agent_control_plane.Sql.{unique_violation, foreign_key_violation, Stmt, raise, write}
use agent_control_plane.Schema.{Gate, Tables, has_workflow}
use agent_control_plane.Tasks.{null_string, parse_time, parse_null_time, rfc3339_nano}

-- INSERT INTO gates: the columns of the resolution are NULL.
unfoldable pub create_gate : ℕ → Gate → Stmt Tables (Unit {0})
create_gate now g db =
    if any (λ (h : Gate). h.token == g.token) db.gates
    then raise unique_violation db
    else if has_workflow db g.workflow_id
    then write
        (λ db. record db {
          gates =
              db.gates
              ++ record g { resolved_at = none; resolved_by = none; created_at = now } ∷ [];
        })
        db
    else raise foreign_key_violation db

unfoldable pub scan_gate : Gate → Gate
scan_gate g = record g {
  resolved_at = parse_null_time rfc3339_nano g.resolved_at;
  resolved_by = some (null_string g.resolved_by);
  created_at = parse_time rfc3339_nano g.created_at;
}

abbrev pub has_token : String → Gate → Bool
has_token token g = g.token == token

abbrev pub scanned : Option Gate → Option Gate
scanned none = none
scanned (some g) = some (scan_gate g)

unfoldable pub find_gate : String → Tables → Option Gate
find_gate token db = find (has_token token) db.gates

unfoldable pub get_gate : String → Tables → Option Gate
unfolding find_gate scan_gate
get_gate token db = scanned (find_gate token db)

-- ORDER BY created_at DESC LIMIT 1
unfoldable pub get_pending_gate : String → Tables → Option Gate
unfolding scan_gate
get_pending_gate id db = scanned (
    max_by (λ g. g.created_at)
      (select (λ (g : Gate). g.workflow_id == id && g.status == "pending") db.gates))

unfoldable pub list_pending_gates : Tables → List Gate
unfolding scan_gate
list_pending_gates db =
    map scan_gate
      (sort_by (λ g. g.created_at) (select (λ (g : Gate). g.status == "pending") db.gates))

unfoldable pub resolve_row : String → String → ℕ → Gate → Gate
resolve_row status by now g = record g {
  status = status;
  resolved_at = some now;
  resolved_by = some by;
}

-- UPDATE gates SET status=?, resolved_at=?, resolved_by=? WHERE token=?
unfoldable pub resolve_gate : String → String → String → ℕ → Stmt Tables (Unit {0})
unfolding resolve_row
resolve_gate token status by now =
    write
      (λ db. record db { gates = update (has_token token) (resolve_row status by now) db.gates })
