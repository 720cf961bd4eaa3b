-- ===== src/Tasks/Ids.antt =====
-- task_id is the primary key of the table tasks.
use agent_control_plane.Prelude.{
  String, ◌≡◌, sym, Bool, true, false, some, List, [], ◌∷◌, ◌++◌, Memᴰ, All, All-at, All-append,
  find, update, any, eq_iff, eq_refl, arith, subst,
}
use agent_control_plane.Schema.{TaskRow}
use agent_control_plane.Tasks.{has_id}

-- No two rows have the same task_id.
abbrev pub HasUniqueIds : List TaskRow → Type 0
HasUniqueIds [] = Unit
HasUniqueIds (r ∷ rs) = All (λ s. has_id r.task_id s ≡ false) rs × HasUniqueIds rs

-- A row is found by its own id.
pub find-has_id :
    (r : TaskRow) (rs : List TaskRow)
    → HasUniqueIds rs
    → Memᴰ r rs
    → find (has_id r.task_id) rs ≡ some r
find-has_id r [] u m = elim m [ ]
find-has_id r (s ∷ rs) u (Memᴰ.head e) =
    subst (λ v. find (has_id v.task_id) (s ∷ rs) ≡ some v) (sym e)
      (ground (arith, eq_refl s.task_id))
find-has_id r (s ∷ rs) u (Memᴰ.tail m) =
    let ne : has_id s.task_id r ≡ false = All-at (λ t. has_id s.task_id t ≡ false) rs u.0 m in
    ground (arith, eq_iff s.task_id r.task_id, eq_iff r.task_id s.task_id, find-has_id r rs u.1 m)

-- Two rows of the table with one id are one row.
pub eq_of_has_id :
    (r s : TaskRow) (rs : List TaskRow)
    → HasUniqueIds rs
    → Memᴰ r rs
    → Memᴰ s rs
    → has_id r.task_id s ≡ true
    → s ≡ r
eq_of_has_id r s rs u m n h =
    let e : s.task_id ≡ r.task_id = (eq_iff s.task_id r.task_id).0 h in
    ground (arith, find-has_id r rs u m, find-has_id s rs u n, e)

All-has_id-update :
    (id : String) (p : TaskRow → Bool) (f : TaskRow → TaskRow)
    → ((x : TaskRow) → (f x).task_id ≡ x.task_id)
    → (rs : List TaskRow) → All (λ s. has_id id s ≡ false) rs
    → All (λ s. has_id id s ≡ false) (update p f rs)
All-has_id-update id p f same [] h = tt
All-has_id-update id p f same (r ∷ rs) h =
    (ground (arith, h.0, same r), All-has_id-update id p f same rs h.1)

-- An update of other columns keeps the ids unique.
pub update-HasUniqueIds :
    (p : TaskRow → Bool) (f : TaskRow → TaskRow)
    → ((x : TaskRow) → (f x).task_id ≡ x.task_id)
    → (rs : List TaskRow) → HasUniqueIds rs
    → HasUniqueIds (update p f rs)
update-HasUniqueIds p f same [] u = tt
update-HasUniqueIds p f same (r ∷ rs) u = (
  subst (λ id. All (λ s. has_id id s ≡ false) (update p f rs)) (ground (arith, same r))
      (All-has_id-update r.task_id p f same rs u.0),
  update-HasUniqueIds p f same rs u.1,
)

-- So does an insertion of a new id.
pub append-HasUniqueIds :
    (r : TaskRow) (rs : List TaskRow)
    → any (has_id r.task_id) rs ≡ false
    → HasUniqueIds rs
    → HasUniqueIds (rs ++ r ∷ [])
append-HasUniqueIds r [] h u = (tt, tt)
append-HasUniqueIds r (s ∷ rs) h u = (
  All-append (λ t. has_id s.task_id t ≡ false) rs (r ∷ []) u.0
      (ground (arith, eq_iff s.task_id r.task_id, eq_iff r.task_id s.task_id), tt),
  append-HasUniqueIds r rs (ground arith) u.1,
)
