-- ===== src/Database/Rebind.antt =====
-- rebind of acpd/internal/store/db.go numbers the placeholders of a query.
use Prim.Native.Char.{Char}
use Prim.Native.String.{◌++◌}
use text.Mathlib.TextLemmas.{nil-append, cons-append}
use agent_control_plane.Prelude.{
  ℕ, ◌+◌, String, ◌≡◌, refl, ap, ◌∙◌, Bool, false, List, [], ◌∷◌, All, decimal, ◌||◌, arith,
}
use agent_control_plane.Database.{pgx, sqlite3, is_mark, rebind_from, rebind}

unfoldable pub has_mark : String → Bool
has_mark String.[] = false
has_mark (String.◌∷◌ c s) = is_mark c || has_mark s

-- A query as the pieces between its placeholders, which are all alike, or numbered.
abbrev pub with_marks : String → List String → String
with_marks piece [] = piece
with_marks piece (next ∷ rest) = piece ++ "?" ++ with_marks next rest

abbrev pub with_numbers : ℕ → String → List String → String
with_numbers n piece [] = piece
with_numbers n piece (next ∷ rest) =
    piece ++ "$" ++ decimal (n + 1) ++ with_numbers (n + 1) next rest

abbrev mark : Char
mark = "?"

piece_kept :
    (n : ℕ) (s t : String) → has_mark s ≡ false → rebind_from n (s ++ t) ≡ s ++ rebind_from n t
unfolding rebind_from has_mark
piece_kept n String.[] t h = rw (nil-append t, nil-append (rebind_from n t)) refl
piece_kept n (String.◌∷◌ c s) t h =
    let f : is_mark c ≡ false = ground arith in
    let rest : has_mark s ≡ false = ground arith in
    rw (cons-append c s t, cons-append c s (rebind_from n t), f, piece_kept n s t rest) refl

mark_numbered :
    (n : ℕ) (t : String)
    → rebind_from n ("?" ++ t) ≡ "$" ++ decimal (n + 1) ++ rebind_from (n + 1) t
unfolding rebind_from
mark_numbered n t =
    ap (rebind_from n) (cons-append mark String.[] t ∙ ap (String.◌∷◌ mark) (nil-append t))

last_piece : (n : ℕ) (s : String) → has_mark s ≡ false → rebind_from n s ≡ s
unfolding rebind_from has_mark
last_piece n String.[] h = refl
last_piece n (String.◌∷◌ c s) h =
    let f : is_mark c ≡ false = ground arith in
    let rest : has_mark s ≡ false = ground arith in rw (f, last_piece n s rest) refl

rebind_from-numbers :
    (n : ℕ) (piece : String) (rest : List String)
    → has_mark piece ≡ false
    → All (λ s. has_mark s ≡ false) rest
    → rebind_from n (with_marks piece rest) ≡ with_numbers n piece rest
rebind_from-numbers n piece [] h hs = last_piece n piece h
rebind_from-numbers n piece (next ∷ rest) h hs =
    piece_kept n piece ("?" ++ with_marks next rest) h
    ∙ ap (λ t. piece ++ t)
        (mark_numbered n (with_marks next rest)
          ∙ ap (λ t. "$" ++ decimal (n + 1) ++ t) (rebind_from-numbers (n + 1) next rest hs.0 hs.1))

-- A query that is written as pieces with a "?" between each two is, for Postgres, the same pieces with $1, $2
-- and so on between them, in order, and for SQLite the query as it is.
pub rebind-with_numbers :
    (piece : String) (rest : List String)
    → has_mark piece ≡ false
    → All (λ s. has_mark s ≡ false) rest
    → (rebind pgx (with_marks piece rest) ≡ with_numbers 0 piece rest)
      × (rebind sqlite3 (with_marks piece rest) ≡ with_marks piece rest)
unfolding rebind
rebind-with_numbers piece rest h hs = (rebind_from-numbers 0 piece rest h hs, refl)
