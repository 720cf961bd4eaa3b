-- ===== src/Receipts.antt =====
-- acpd/internal/store/receipts.go, deltas.go and artifacts.go: the rows that a transition leaves.
pub mod Inserts
use agent_control_plane.Prelude.{
  ℕ, String, Bool, true, false, Option, none, some, List, [], ◌∷◌, ◌++◌, map, select, any, find,
  max_by, sort_by, leb, ltb, nat_eq, ◌&&◌, ◌||◌, ◌==◌, if◌then◌else◌,
}
use agent_control_plane.Sql.{unique_violation, foreign_key_violation, Stmt, pure, raise, write}
use agent_control_plane.Schema.{Receipt, Delta, Artifact, Tables, has_workflow}
use agent_control_plane.Tasks.{null_string, parse_time, rfc3339_nano}

-- nullString: "" is stored as NULL
unfoldable pub null_of : String → Option String
null_of s = if s == "" then none else some s

-- PRIMARY KEY (workflow_id, seq), and receipt_digest is UNIQUE
unfoldable pub clashes : Receipt → Receipt → Bool
clashes r s =
    s.workflow_id == r.workflow_id && nat_eq s.seq r.seq || s.receipt_digest == r.receipt_digest

unfoldable pub insert_receipt : Receipt → Stmt Tables (Unit {0})
insert_receipt r db =
    if any (clashes r) db.receipts
    then raise unique_violation db
    else if has_workflow db r.workflow_id
    then write (λ db. record db { receipts = db.receipts ++ r ∷ [] }) db
    else raise foreign_key_violation db

-- AppendReceipt, given Go's Receipt, whose missing digest is ""
unfoldable pub append_receipt : ℕ → String → ℕ → String → String → String → Stmt Tables (Unit {0})
unfolding insert_receipt null_of
append_receipt now id seq digest json prev = insert_receipt (record {
  workflow_id = id;
  seq = seq;
  receipt_digest = digest;
  receipt_json = json;
  prev_receipt_digest = null_of prev;
  created_at = now;
})

abbrev pub receipt_of : String → Receipt → Bool
receipt_of id r = r.workflow_id == id

unfoldable pub scan_receipt : Receipt → Receipt
scan_receipt r = record r {
  prev_receipt_digest = some (null_string r.prev_receipt_digest);
  created_at = parse_time rfc3339_nano r.created_at;
}

unfoldable pub get_receipts : String → Tables → List Receipt
unfolding scan_receipt
get_receipts id db = map scan_receipt (sort_by (λ r. r.seq) (select (receipt_of id) db.receipts))

unfoldable pub get_receipts_since : String → ℕ → Tables → List Receipt
unfolding scan_receipt
get_receipts_since id from db =
    map scan_receipt
      (sort_by (λ r. r.seq) (select (λ r. receipt_of id r && leb from r.seq) db.receipts))

-- ORDER BY seq DESC LIMIT 1
unfoldable pub latest_receipt : String → Tables → Option Receipt
latest_receipt id db = max_by (λ r. r.seq) (select (receipt_of id) db.receipts)

abbrev pub digest_of : Option Receipt → Option String
digest_of none = none
digest_of (some r) = some r.receipt_digest

-- GetLatestReceiptDigest: "" if there is none
unfoldable pub get_latest_receipt_digest : String → Tables → String
unfolding latest_receipt
get_latest_receipt_digest id db = null_string (digest_of (latest_receipt id db))

-- PRIMARY KEY (workflow_id, seq)
unfoldable pub delta_clashes : Delta → Delta → Bool
delta_clashes d e = e.workflow_id == d.workflow_id && nat_eq e.seq d.seq

unfoldable pub insert_delta : Delta → Stmt Tables (Unit {0})
insert_delta d db =
    if any (delta_clashes d) db.deltas
    then raise unique_violation db
    else if has_workflow db d.workflow_id
    then write (λ db. record db { deltas = db.deltas ++ d ∷ [] }) db
    else raise foreign_key_violation db

-- AppendDelta, given Go's Delta, whose missing hash is ""
unfoldable pub append_delta : ℕ → String → ℕ → String → String → String → Stmt Tables (Unit {0})
unfolding insert_delta null_of
append_delta now id seq json hash prev = insert_delta (record {
  workflow_id = id;
  seq = seq;
  delta_json = json;
  delta_hash = hash;
  prev_delta_hash = null_of prev;
  created_at = now;
})

abbrev pub delta_of : String → Delta → Bool
delta_of id d = d.workflow_id == id

unfoldable pub scan_delta : Delta → Delta
scan_delta d = record d {
  prev_delta_hash = some (null_string d.prev_delta_hash);
  created_at = parse_time rfc3339_nano d.created_at;
}

unfoldable pub get_deltas_since : String → ℕ → Tables → List Delta
unfolding scan_delta
get_deltas_since id from db =
    map scan_delta (sort_by (λ d. d.seq) (select (λ d. delta_of id d && ltb from d.seq) db.deltas))

unfoldable pub latest_delta : String → Tables → Option Delta
latest_delta id db = max_by (λ d. d.seq) (select (delta_of id) db.deltas)

abbrev pub hash_of : Option Delta → Option String
hash_of none = none
hash_of (some d) = some d.delta_hash

unfoldable pub get_latest_delta_hash : String → Tables → String
unfolding latest_delta
get_latest_delta_hash id db = null_string (hash_of (latest_delta id db))

-- INSERT OR IGNORE INTO artifacts: a known digest changes nothing; the foreign key is checked.
unfoldable pub insert_artifact : Artifact → Stmt Tables (Unit {0})
insert_artifact a db =
    if any (λ (b : Artifact). b.digest == a.digest) db.artifacts
    then pure tt db
    else if has_workflow db a.workflow_id
    then write (λ db. record db { artifacts = db.artifacts ++ a ∷ [] }) db
    else raise foreign_key_violation db

-- SaveArtifact, given Go's Artifact, whose missing reference is ""
unfoldable pub save_artifact : ℕ → String → String → String → String → Stmt Tables (Unit {0})
unfolding insert_artifact null_of
save_artifact now digest id json ref = insert_artifact (record {
  digest = digest;
  workflow_id = id;
  artifact_json = json;
  content_ref = null_of ref;
  created_at = now;
})

unfoldable pub scan_artifact : Artifact → Artifact
scan_artifact a = record a {
  content_ref = some (null_string a.content_ref);
  created_at = parse_time rfc3339_nano a.created_at;
}

unfoldable pub get_artifact : String → Tables → Option Artifact
unfolding scan_artifact
get_artifact digest db = elim (find (λ (a : Artifact). a.digest == digest) db.artifacts) [
  | none ↦ none
  | some a ↦ some (scan_artifact a)
]

unfoldable pub list_artifacts : String → Tables → List Artifact
unfolding scan_artifact
list_artifacts id db =
    map scan_artifact
      (sort_by (λ a. a.created_at) (select (λ (a : Artifact). a.workflow_id == id) db.artifacts))
