-- ===== src/Database/Versions.antt =====
-- Which files the migration of acpd/internal/store/db.go runs.
use Prim.Native.String.{◌++◌}
use agent_control_plane.Prelude.{
  String, ◌≡◌, refl, sym, ap, ◌∙◌, true, false, List, [], ◌∷◌, All, any, inl, inr, ◌⊎◌, Bool-cases,
  Option-cases, before_suffix, before_suffix_lem, has_suffix, trim_suffix, is_some, or_text, ◌||◌,
  ◌==◌, arith,
}
use agent_control_plane.Database.{
  Driver, pgx, sqlite3, Entry, Migration, exists, is_skipped, version_of, choose_from, migrations,
}

-- A text that ends in a suffix is what is left of it before the suffix, and the suffix.
trimmed : (text t : String) → has_suffix text t ≡ true → text ≡ trim_suffix text t ++ t
unfolding has_suffix trim_suffix
trimmed text t h = elim (Option-cases (before_suffix text t)) [
  | inl n ↦ absurd (cc (h, ap is_some n))
  | inr (u, e) ↦ before_suffix_lem text t u e ∙ ap (λ v. v ++ t) (sym (ap (or_text text) e))
]

-- A file is the one of its version that is meant for the driver.
abbrev pub IsMeant : Driver → List Entry → Migration → Type 0
IsMeant pgx all m =
    (m.file ≡ m.version ++ ".postgres.sql")
    ⊎ ((m.file ≡ m.version ++ ".sql") × (exists all (m.version ++ ".postgres.sql") ≡ false))
IsMeant sqlite3 all m = (m.file ≡ m.version ++ ".sql") × (has_suffix m.file ".postgres.sql" ≡ false)

taken-IsMeant :
    (driver : Driver) (all : List Entry) (e : Entry)
    → is_skipped driver all e ≡ false
    → IsMeant driver all (record { version = version_of e.name; file = e.name })
unfolding is_skipped version_of
taken-IsMeant pgx all e h = elim (Bool-cases (has_suffix e.name ".postgres.sql")) [
  | inl t ↦ rw t (inl (trimmed e.name ".postgres.sql" t))
  | inr f ↦
      let sql : has_suffix e.name ".sql" ≡ true = ground arith in
      rw f (inr (trimmed e.name ".sql" sql, ground arith))
]
taken-IsMeant sqlite3 all e h = elim (Bool-cases (has_suffix e.name ".postgres.sql")) [
  | inl t ↦ absurd (ground arith)
  | inr f ↦
      let sql : has_suffix e.name ".sql" ≡ true = ground arith in
      rw f (trimmed e.name ".sql" sql, refl)
]

module _ (driver : Driver) (all : List Entry) where
  -- No version that was seen, and none twice.
  abbrev pub Distinct : List String → List Migration → Type 0
  Distinct seen [] = Unit
  Distinct seen (m ∷ ms) = (any (λ s. s == m.version) seen ≡ false) × Distinct (m.version ∷ seen) ms

  chosen-IsMeant :
      (seen : List String) (entries : List Entry)
      → All (IsMeant driver all) (choose_from driver all seen entries)
        × Distinct seen (choose_from driver all seen entries)
  unfolding choose_from
  chosen-IsMeant seen [] = (tt, tt)
  chosen-IsMeant seen (e ∷ rest) =
      elim (Bool-cases (is_skipped driver all e || any (λ s. s == version_of e.name) seen)) [
        | inl t ↦ rw t (chosen-IsMeant seen rest)
        | inr f ↦
            let go : is_skipped driver all e ≡ false = ground arith in
            let new : any (λ s. s == version_of e.name) seen ≡ false = ground arith in
            let more = chosen-IsMeant (version_of e.name ∷ seen) rest in
            rw f ((taken-IsMeant driver all e go, more.0), (new, more.1))
      ]

-- Every migration that is run is the file of its version that is meant for the driver: on Postgres the
-- ".postgres.sql" file or, where the version has none, the plain ".sql" file, and on SQLite a plain one. No
-- version is run by two files.
pub migrations-IsMeant :
    (driver : Driver) (entries : List Entry)
    → All (IsMeant driver entries) (migrations driver entries)
      × Distinct driver entries [] (migrations driver entries)
unfolding migrations
migrations-IsMeant driver entries = chosen-IsMeant driver entries [] entries
