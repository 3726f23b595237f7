-- ===== src/App/StatusRefresh/Refreshed.antt =====
-- crates/octty-app/src/app_workspace_status.rs: a refresh that is due begins.
use octty.Base.{ℕ, Text, some, get_elem?, ◌≡◌}
use octty.App.StatusRefresh.{App, refreshing, step_at}

-- A task that begins to read the status of a workspace when it is run on, at the second time at the
-- latest.
abbrev pub Refreshes : App → Text → Type 0
Refreshes a id =
    (i : ℕ) × (get_elem? (step_at i (step_at i a)).tasks i
      ≡ some (record { workspace_id = id; phase = refreshing }))
