-- ===== src/App/StatusRefresh.antt =====
-- crates/octty-app/src/app_workspace_status.rs: when the status of a workspace is read again. The
-- maps and sets that workspace ids index are functions. A spawned task is an entry of `tasks`; what
-- it does from one `await` to the next is one step, which nothing interrupts. Times are milliseconds.
pub mod Requests
pub mod Served
pub mod Steps
pub mod Prompt
pub mod Refreshed
mod Tests
use octty.Base.{
  ℕ, ◌+◌, ◌-◌, max, zero, suc, ℤ, Bool, true, false, not, ltb, leb, Text, text_eq, Option, none,
  some, option_map,
}
use octty.Base.{List, [], ◌∷◌, ◌++◌, any, get_elem?, push_some, if◌then◌else◌}
use octty.Core.Types.{WorkspaceStatus, WorkspaceSummary, default_workspace_status}

abbrev pub workspace_status_refresh_debounce : ℕ
workspace_status_refresh_debounce = 180

-- A task that was spawned and has not run yet, one that sleeps until a time, and one that waits for
-- the status.
pub data Phase : Type 0 where
  spawned : Phase
  sleeping : ℕ → Phase
  refreshing : Phase

pub record Task : Type 0 where
  pub workspace_id : Text
  pub phase : Phase

-- The fields of `OcttyApp` that the refresh reads or writes, the watchers by their paths, and the tasks it has spawned.
pub record App : Type 0 where
  pub now : ℕ
  pub workspaces : List WorkspaceSummary
  pub workspace_watchers : Text → Option Text
  pub refresh_due_at : Text → Option ℕ
  pub refresh_timer_active : Text → Bool
  pub refresh_suspended : Text → Bool
  pub tasks : List Task

-- `insert` and `remove`, for a map or a set.
abbrev pub set_at {ℓ} : {A : Type ℓ} → Text → A → (Text → A) → Text → A
set_at id a m other = if text_eq other id then a else m other

-- The part of `schedule_workspace_status_refresh` before the task runs.
unfoldable pub schedule_workspace_status_refresh : Text → App → App
unfolding text_eq
schedule_workspace_status_refresh id a = if a.refresh_suspended id then a else record a {
  refresh_due_at = set_at id (some (a.now + workspace_status_refresh_debounce)) a.refresh_due_at;
  refresh_timer_active = set_at id true a.refresh_timer_active;
  tasks =
      if a.refresh_timer_active id
      then a.tasks
      else a.tasks ++ (record { workspace_id = id; phase = spawned } ∷ []);
}

abbrev pub clear_timer : Text → App → App
clear_timer id a = record a { refresh_timer_active = set_at id false a.refresh_timer_active }

abbrev pub clear_due : Text → App → App
clear_due id a = record a { refresh_due_at = set_at id none a.refresh_due_at }

-- The top of the loop: the next sleep, or the end of the task.
abbrev pub sleep_until_due : Text → Option ℕ → App → App × Option Phase
sleep_until_due id none a = (clear_timer id a, none)
sleep_until_due id (some due_at) a = (a, some (sleeping (max due_at a.now)))

-- Behind the loop: the refresh begins, unless it is suspended or the workspace is gone.
abbrev pub begin_refresh : Text → App → App × Option Phase
begin_refresh id a = (
  clear_timer id a,
  if a.refresh_suspended id
      then none
      else if any (λ w. text_eq w.id id) a.workspaces
      then some refreshing
      else none,
)

-- The timer of a sleeping task fires.
abbrev pub wake : Text → Option ℕ → App → App × Option Phase
wake id none a = begin_refresh id a
wake id (some due_at) a =
    if ltb a.now due_at
    then sleep_until_due id (some due_at) a
    else begin_refresh id (clear_due id a)

-- One step of a task, to its next `await` or its end.
unfoldable pub step_task : Text → Phase → App → App × Option Phase
unfolding text_eq
step_task id spawned a = sleep_until_due id (a.refresh_due_at id) a
step_task id (sleeping until) a =
    if leb until a.now then wake id (a.refresh_due_at id) a else (a, some (sleeping until))
step_task id refreshing a = (a, some refreshing)

-- A task after its step, or no task any more.
abbrev pub replace_task : List Task → ℕ → Option Phase → List Task
replace_task [] i o = []
replace_task (t ∷ ts) zero o = push_some (option_map (λ p. record t { phase = p }) o) ts
replace_task (t ∷ ts) (suc i) o = t ∷ replace_task ts i o

abbrev pub step_found : ℕ → Option Task → App → App
step_found i none a = a
step_found i (some t) a =
    let (b, phase) = step_task t.workspace_id t.phase a in
    record b { tasks = replace_task a.tasks i phase }

unfoldable pub step_at : ℕ → App → App
unfolding step_task
step_at i a = step_found i (get_elem? a.tasks i) a

unfoldable pub suspend_workspace_status_refresh : Text → App → App
unfolding text_eq
suspend_workspace_status_refresh id a = record a {
  refresh_suspended = set_at id true a.refresh_suspended;
  refresh_due_at = set_at id none a.refresh_due_at;
  refresh_timer_active = set_at id false a.refresh_timer_active;
  workspace_watchers = set_at id none a.workspace_watchers;
}

unfoldable pub resume_workspace_status_refresh : Text → App → App
unfolding text_eq
resume_workspace_status_refresh id a = record a {
  refresh_suspended = set_at id false a.refresh_suspended;
}

-- The status that `jj` gives, with what only the application knows.
unfoldable pub merge_jj_workspace_status : WorkspaceStatus → WorkspaceStatus → WorkspaceStatus
merge_jj_workspace_status existing jj_status = record jj_status {
  unread_notes = existing.unread_notes;
  active_agent_count = existing.active_agent_count;
  agent_attention_state = existing.agent_attention_state;
}

unfoldable pub reset_jj_workspace_status : WorkspaceStatus → ℤ → WorkspaceStatus
reset_jj_workspace_status existing now_ms = record default_workspace_status {
  unread_notes = existing.unread_notes;
  active_agent_count = existing.active_agent_count;
  agent_attention_state = existing.agent_attention_state;
  recent_activity_at = now_ms;
}

abbrev put_workspace : WorkspaceSummary → List WorkspaceSummary → List WorkspaceSummary
put_workspace w [] = []
put_workspace w (v ∷ vs) =
    let rest = put_workspace w vs in if text_eq v.id w.id then w ∷ vs else v ∷ rest

-- The result of a refresh arrives; an error leaves the workspaces as they are.
unfoldable pub finish_refresh : Option WorkspaceSummary → App → App
unfolding text_eq
finish_refresh none a = a
finish_refresh (some w) a = record a { workspaces = put_workspace w a.workspaces }

-- Only a task that waits for a status is finished by its result.
abbrev pub finish_phase : Phase → Option WorkspaceSummary → List Task → App → App
finish_phase spawned result rest a = a
finish_phase (sleeping until) result rest a = a
finish_phase refreshing result rest a = record (finish_refresh result a) { tasks = rest }

abbrev pub finish_found : ℕ → Option WorkspaceSummary → Option Task → App → App
finish_found i result none a = a
finish_found i result (some t) a = finish_phase t.phase result (replace_task a.tasks i none) a

-- A task that waits for a status gets its result and ends.
unfoldable pub finish_at : ℕ → Option WorkspaceSummary → App → App
unfolding finish_refresh
finish_at i result a = finish_found i result (get_elem? a.tasks i) a
