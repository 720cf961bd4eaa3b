-- ===== src/Database.antt =====
-- acpd/internal/store/db.go: the choice of the driver, the placeholders of the queries and the choice of the
-- migration files. Opening the database and running a file are calls of database/sql.
pub mod Rebind
pub mod Versions
use Prim.Native.Char.{Char, code}
use Prim.Native.String.{◌++◌, len, find}
use text.Mathlib.Text.{starts_with}
use agent_control_plane.Prelude.{
  ℕ, suc, ◌+◌, String, Bool, true, false, Option, none, some, List, [], ◌∷◌, any, nat_eq, leb,
  decimal, before_suffix, has_suffix, trim_suffix, ◌||◌, ◌&&◌, not, ◌==◌, if◌then◌else◌,
}

pub data Driver : Type 0 where
  pgx sqlite3 : Driver

abbrev pub is_postgres : Driver → Bool
is_postgres pgx = true
is_postgres sqlite3 = false

abbrev pub pragmas : String
pragmas = "?_journal_mode=WAL&_foreign_keys=on&_busy_timeout=5000"

-- strings.Contains: `find` returns a position past the end where there is none.
abbrev pub contains : (text part : String) → Bool
contains text part = leb (find text part) (len text)

-- The driver, and the name that the database is opened by.
unfoldable pub resolve_driver : String → Driver × String
resolve_driver dsn =
    if starts_with dsn "postgres://" || starts_with dsn "postgresql://"
    then (pgx, dsn)
    else if contains dsn "?"
    then (sqlite3, dsn)
    else (sqlite3, dsn ++ pragmas)

abbrev pub is_mark : Char → Bool
is_mark c = nat_eq (code c) 63

-- The loop of rebind over the query, with the number of marks that came before.
unfoldable pub rebind_from : ℕ → String → String
rebind_from n String.[] = ""
rebind_from n (String.◌∷◌ c s) =
    let marked = "$" ++ decimal (n + 1) ++ rebind_from (n + 1) s in
    let kept = String.◌∷◌ c (rebind_from n s) in if is_mark c then marked else kept

unfoldable pub rebind : Driver → String → String
unfolding rebind_from
rebind sqlite3 q = q
rebind pgx q = rebind_from 0 q

unfoldable pub placeholder : Driver → ℕ → String
placeholder pgx n = "$" ++ decimal n
placeholder sqlite3 n = "?"

-- An entry of the directory of migrations.
pub record Entry : Type 0 where
  pub name : String
  pub is_dir : Bool

pub record Migration : Type 0 where
  pub version : String
  pub file : String

-- os.Stat of a file in the directory
abbrev pub exists : List Entry → String → Bool
exists entries name = any (λ (e : Entry). e.name == name) entries

-- The file is left out: a directory, a file of another kind, or one for the other driver.
unfoldable pub is_skipped : Driver → List Entry → Entry → Bool
is_skipped driver entries e =
    e.is_dir
    || not (has_suffix e.name ".sql")
    || (if has_suffix e.name ".postgres.sql"
        then not (is_postgres driver)
        else is_postgres driver && exists entries (trim_suffix e.name ".sql" ++ ".postgres.sql"))

unfoldable pub version_of : String → String
version_of name =
    if has_suffix name ".postgres.sql"
    then trim_suffix name ".postgres.sql"
    else trim_suffix name ".sql"

-- The loop over the entries: `seen` lists the versions so far.
unfoldable pub choose_from : Driver → List Entry → List String → List Entry → List Migration
unfolding is_skipped version_of
choose_from driver all seen [] = []
choose_from driver all seen (e ∷ rest) =
    let v = version_of e.name in
    let skip = choose_from driver all seen rest in
    let take = record { version = v; file = e.name } ∷ choose_from driver all (v ∷ seen) rest in
    if is_skipped driver all e || any (λ s. s == v) seen then skip else take

unfoldable pub migrations : Driver → List Entry → List Migration
unfolding choose_from
migrations driver entries = choose_from driver entries [] entries
