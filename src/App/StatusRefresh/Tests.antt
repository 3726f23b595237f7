-- ===== src/App/StatusRefresh/Tests.antt =====
-- A suspension between two requests, for crates/octty-app/src/app_workspace_status.rs.
use octty.Base.{pos, ◌≡◌, refl, codes, List, [], ◌∷◌, text_eq}
use octty.Core.Types.{WorkspaceSummary, default_workspace_status}
use octty.App.StatusRefresh.{
  Task, Phase, spawned, sleeping, schedule_workspace_status_refresh,
  suspend_workspace_status_refresh, resume_workspace_status_refresh, step_at, step_task,
}
use octty.App.StatusRefresh.Served.{
  Event, time_passes, schedule, suspend, resume, task_step, apply, run, quiet,
}

abbrev summary : WorkspaceSummary
summary = record {
  id = codes "w";
  root_id = codes "r";
  root_path = codes "/r";
  project_display_name = codes "r";
  workspace_name = codes "w";
  display_name = codes "w";
  workspace_path = codes "/r";
  status = default_workspace_status;
  created_at = pos 0;
  updated_at = pos 0;
  last_opened_at = pos 0;
}

-- The first task still sleeps when the second request comes, so both serve it.
abbrev history : List Event
history =
    schedule (codes "w")
    ∷ (task_step 0
        ∷ (time_passes 100
            ∷ (suspend (codes "w")
                ∷ (resume (codes "w")
                    ∷ (schedule (codes "w") ∷ (time_passes 80 ∷ (task_step 0 ∷ [])))))))

abbrev phases : List Task → List Phase
phases [] = []
phases (t ∷ ts) = t.phase ∷ phases ts

both_wait : phases (run history (quiet 0 (summary ∷ []))).tasks ≡ sleeping 280 ∷ (spawned ∷ [])
unfolding run apply schedule_workspace_status_refresh suspend_workspace_status_refresh
    resume_workspace_status_refresh step_at step_task text_eq
both_wait = refl
