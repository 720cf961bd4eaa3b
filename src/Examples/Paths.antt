-- ===== src/Examples/Paths.antt =====
-- Paths, queries and migration files.
use Prim.Native.String.{◌++◌}
use agent_control_plane.Prelude.{
  true, String, ◌≡◌, refl, false, List, [], ◌∷◌, All, has_slash, decimal, digits, has_suffix,
  trim_suffix, before_suffix,
}
use agent_control_plane.Database.{
  pgx, sqlite3, Entry, rebind, resolve_driver, migrations, is_skipped, version_of, rebind_from,
  choose_from,
}
use agent_control_plane.Database.Versions.{IsMeant, Distinct, migrations-IsMeant}
use agent_control_plane.Database.Rebind.{has_mark, with_marks, with_numbers, rebind-with_numbers}
use agent_control_plane.Api.Routes.{serve, on_workflow, resume, redirected, is_clean, is_clean_from}
use agent_control_plane.Api.Routes.Clean.{is_name, part_of}
use agent_control_plane.Api.Routes.Reach.{serve-resume_path}

named : is_name "wf_1" ≡ true
unfolding is_name has_slash part_of
named = refl

named_token : is_name "gate_7" ≡ true
unfolding is_name has_slash part_of
named_token = refl

redirects : serve "POST" "/workflows/wf_1/gates/../resume" ≡ redirected
unfolding serve is_clean is_clean_from
redirects = refl

serve-resume_path_example :
    serve "POST" ("/workflows/" ++ "wf_1" ++ "/" ++ "gates/" ++ "gate_7" ++ "/resume")
    ≡ on_workflow "wf_1" (resume "gate_7")
serve-resume_path_example = serve-resume_path "POST" "wf_1" "gate_7" named named_token

no_mark : has_mark "SELECT a FROM t WHERE b = " ≡ false
unfolding has_mark
no_mark = refl

no_marks : All (λ s. has_mark s ≡ false) (" AND c = " ∷ "" ∷ [])
unfolding has_mark
no_marks = (refl, (refl, tt))

rebind-with_numbers_example :
    (rebind pgx (with_marks "SELECT a FROM t WHERE b = " (" AND c = " ∷ "" ∷ []))
      ≡ with_numbers 0 "SELECT a FROM t WHERE b = " (" AND c = " ∷ "" ∷ []))
    × (rebind sqlite3 (with_marks "SELECT a FROM t WHERE b = " (" AND c = " ∷ "" ∷ []))
        ≡ with_marks "SELECT a FROM t WHERE b = " (" AND c = " ∷ "" ∷ []))
rebind-with_numbers_example =
    rebind-with_numbers "SELECT a FROM t WHERE b = " (" AND c = " ∷ "" ∷ []) no_mark no_marks

numbered : rebind pgx "UPDATE t SET a=? WHERE b=?" ≡ "UPDATE t SET a=$1 WHERE b=$2"
unfolding rebind rebind_from decimal digits
numbered = refl

memory :
    resolve_driver ":memory:"
    ≡ (sqlite3, ":memory:?_journal_mode=WAL&_foreign_keys=on&_busy_timeout=5000")
unfolding resolve_driver
memory = refl

abbrev file : String → Entry
file name = record { name = name; is_dir = false }

abbrev files : List Entry
files = file "001_initial.postgres.sql" ∷ file "001_initial.sql" ∷ file "002_more.sql" ∷ []

on_sqlite :
    migrations sqlite3 files
    ≡ record { version = "001_initial"; file = "001_initial.sql" }
      ∷ record { version = "002_more"; file = "002_more.sql" }
      ∷ []
unfolding migrations choose_from is_skipped version_of has_suffix trim_suffix before_suffix
on_sqlite = refl

on_postgres :
    migrations pgx files
    ≡ record { version = "001_initial"; file = "001_initial.postgres.sql" }
      ∷ record { version = "002_more"; file = "002_more.sql" }
      ∷ []
unfolding migrations choose_from is_skipped version_of has_suffix trim_suffix before_suffix
on_postgres = refl

migrations-IsMeant_example :
    All (IsMeant pgx files) (migrations pgx files) × Distinct pgx files [] (migrations pgx files)
migrations-IsMeant_example = migrations-IsMeant pgx files
