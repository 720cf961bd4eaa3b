-- ===== src/Tasks/Claim/Effect.antt =====
-- What a claim takes and changes.
use agent_control_plane.Prelude.{
  ℕ, String, ◌≡◌, refl, Bool, true, false, none, some, List, [], ◌∷◌, Memᴰ, All, All-of, find,
  find-update, update, update-congr, count, select, mem-select, select-none, All-of-select,
  first_by, first_by-mem, first_by-least, first_by-none, ◌⊎◌, inl, inr, Option-cases, Bool-cases,
  eq_refl, arith, nat_eq,
}
use agent_control_plane.Sql.{ok}
use agent_control_plane.Sql.Rules.{transact_of_ok}
use agent_control_plane.Schema.{TaskRow, Tables}
use agent_control_plane.Tasks.{has_id, get_task, scan_task}
use agent_control_plane.Tasks.Ids.{HasUniqueIds, find-has_id, eq_of_has_id}
use agent_control_plane.Tasks.Claim.{
  claimable, before, still_pending, claim_row, claim_candidate, claim_next,
}
use agent_control_plane.Tasks.Claim.Order.{before_trans, before_asym, before_irrefl}

-- A claimable row is one that the conditional UPDATE accepts.
claimable-still_pending :
    (agent : String) (r : TaskRow) → claimable agent r ≡ true → still_pending r.task_id r ≡ true
unfolding claimable still_pending
claimable-still_pending agent r h = ground (arith, eq_refl r.task_id)

count-pos :
    (p : TaskRow → Bool) (r : TaskRow) (rs : List TaskRow)
    → Memᴰ r rs
    → p r ≡ true
    → nat_eq (count p rs) 0 ≡ false
count-pos p r [] m h = elim m [ ]
count-pos p r (s ∷ rs) (Memᴰ.head e) h = let k : p s ≡ true = rw (← e) h in ground arith
count-pos p r (s ∷ rs) (Memᴰ.tail m) h = ground (arith, count-pos p r rs m h)

module _ (agent : String) (now : ℕ) (db : Tables) (unique : HasUniqueIds db.tasks) where
  module _ (r : TaskRow) (m : Memᴰ r db.tasks) (fit : claimable agent r ≡ true) where
    -- The UPDATE's condition picks out the one row of that id.
    same_test : (s : TaskRow) → Memᴰ s db.tasks → still_pending r.task_id s ≡ has_id r.task_id s
    same_test s n = elim (Bool-cases (has_id r.task_id s)) [
      | inl t ↦
          let e : s ≡ r = eq_of_has_id r s db.tasks unique m n t in
          rw e (ground (arith, claimable-still_pending agent r fit, eq_refl r.task_id))
      | inr f ↦ unfold still_pending in ground arith
    ]

    find_claimed :
        find (has_id r.task_id) (update (has_id r.task_id) (claim_row agent now) db.tasks)
        ≡ some (claim_row agent now r)
    find_claimed =
        let same : (x : TaskRow) → has_id r.task_id (claim_row agent now x) ≡ has_id r.task_id x =
          λ x. unfold claim_row in refl in
        ground (
          arith,
          find-update (has_id r.task_id) (has_id r.task_id) (claim_row agent now) same db.tasks,
          find-has_id r db.tasks unique m,
          eq_refl r.task_id,
        )

    claim_candidate_takes : claim_candidate agent now (some r) db ≡ (
      ok (some (scan_task (claim_row agent now r))),
      record db { tasks = update (has_id r.task_id) (claim_row agent now) db.tasks },
    )
    unfolding claim_candidate get_task
    claim_candidate_takes =
        let hit : nat_eq (count (still_pending r.task_id) db.tasks) 0 ≡ false =
          count-pos (still_pending r.task_id) r db.tasks m (claimable-still_pending agent r fit) in
        let rows : update (still_pending r.task_id) (claim_row agent now) db.tasks
            ≡ update (has_id r.task_id) (claim_row agent now) db.tasks =
          update-congr (still_pending r.task_id) (has_id r.task_id) (claim_row agent now) db.tasks
            (All-of _ db.tasks same_test) in
        rw (hit, rows, find_claimed)

  -- A claim leaves the tables alone and returns no task exactly when the agent has no claimable task;
  -- otherwise it takes a claimable task that no claimable task stands before. The ids must be unique.
  pub claim_next-takes_best :
      ((claim_next agent now db ≡ (ok none, db)) × All (λ s. claimable agent s ≡ false) db.tasks)
      ⊎ ((r : TaskRow) × Memᴰ r db.tasks
          × (claimable agent r ≡ true)
          × All (λ s. claimable agent s ≡ true → before s r ≡ false) db.tasks
          × (claim_next agent now db ≡ (
            ok (some (scan_task (claim_row agent now r))),
            record db { tasks = update (has_id r.task_id) (claim_row agent now) db.tasks },
          )))
  unfolding claim_next
  claim_next-takes_best =
      elim (Option-cases (first_by before (select (claimable agent) db.tasks))) [
        | inl e ↦ inl (
          transact_of_ok _ db db none (rw e),
          select-none (claimable agent) db.tasks
              (first_by-none before before_irrefl before_trans before_asym _ e),
        )
        | inr (r, e) ↦
            let m : Memᴰ r db.tasks × (claimable agent r ≡ true) =
              mem-select (claimable agent) r db.tasks (first_by-mem before _ r e) in
            inr (
              r,
              m.0,
              m.1,
              All-of-select _ (claimable agent) db.tasks
                  (first_by-least before before_irrefl before_trans before_asym _ r e),
              transact_of_ok _ db _ _ (rw e (claim_candidate_takes r m.0 m.1)),
            )
      ]
