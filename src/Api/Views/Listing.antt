-- ===== src/Api/Views/Listing.antt =====
-- Which workflows listWorkflows of acpd/internal/api/workflows.go lists.
use agent_control_plane.Prelude.{
  ◌≤◌, String, ◌≡◌, Bool, true, List, length, select, All, Memᴰ, sort_desc, ◌||◌, ◌==◌, ◌⊎◌,
  Descending,
}
use agent_control_plane.Schema.{Workflow, Tables}

abbrev pub in_stage : String → Workflow → Bool
in_stage stage wf = stage == "" || wf.stage == stage

-- The rows that are listed: at most 100 of the stage, in falling order of their last update, none that is
-- left out being newer than one that is listed; all of them where they are no more than 100.
pub record IsListing (stage : String) (db : Tables) (rows : List Workflow) : Type 0 where
  pub bounded : length rows ≤ 100
  pub stored : (wf : Workflow) → Memᴰ wf rows → Memᴰ wf db.workflows × (in_stage stage wf ≡ true)
  pub ordered : Descending (λ (wf : Workflow). wf.updated_at) rows
  pub newest :
      (wf : Workflow)
      → Memᴰ wf db.workflows
      → in_stage stage wf ≡ true
      → Memᴰ wf rows ⊎ All (λ (listed : Workflow). wf.updated_at ≤ listed.updated_at) rows
  pub complete :
      length (select (in_stage stage) db.workflows) ≤ 100
      → length rows ≡ length (select (in_stage stage) db.workflows)

module _ (stage : String) (db : Tables) where
  abbrev matching : List Workflow
  matching = select (in_stage stage) db.workflows

  abbrev sorted : List Workflow
  sorted = sort_desc (λ wf. wf.updated_at) matching
