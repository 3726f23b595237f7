-- ===== src/App/StatusRefresh/Served.antt =====
-- crates/octty-app/src/app_workspace_status.rs: in every interleaving of requests, suspensions, the
-- clock and the steps of the tasks, a request for a refresh has a task that serves it.
use octty.Base.{ℕ, ◌+◌, zero, suc, true, false, ◌&&◌, Text, text_eq, Option, none, some}
use octty.Base.{List, [], ◌∷◌, get_elem?, ◌≡◌, refl, ◌∙◌, arith}
use octty.Core.Types.{WorkspaceSummary}
use octty.App.StatusRefresh.Requests.{
  waits, serves, IsServed, schedule-IsServed, suspend-IsServed, resume-IsServed,
}
use octty.App.StatusRefresh.{
  App, Task, Phase, spawned, sleeping, refreshing, schedule_workspace_status_refresh,
  suspend_workspace_status_refresh, resume_workspace_status_refresh, step_task, step_found, step_at,
  finish_refresh, finish_phase, finish_found, finish_at, replace_task,
}
use octty.App.StatusRefresh.Steps.{goes_on, step_task-Steps}

-- What can happen next: time passes, the list of workspaces changes, a call, or a task goes on.
pub data Event : Type 0 where
  time_passes : ℕ → Event
  workspaces_change : List WorkspaceSummary → Event
  schedule : Text → Event
  suspend : Text → Event
  resume : Text → Event
  task_step : ℕ → Event
  task_finish : ℕ → Option WorkspaceSummary → Event

unfoldable pub apply : Event → App → App
unfolding schedule_workspace_status_refresh suspend_workspace_status_refresh
    resume_workspace_status_refresh step_at finish_at
apply (time_passes n) a = record a { now = a.now + n }
apply (workspaces_change ws) a = record a { workspaces = ws }
apply (schedule id) a = schedule_workspace_status_refresh id a
apply (suspend id) a = suspend_workspace_status_refresh id a
apply (resume id) a = resume_workspace_status_refresh id a
apply (task_step i) a = step_at i a
apply (task_finish i result) a = finish_at i result a

unfoldable pub run : List Event → App → App
run [] a = a
run (e ∷ es) a = run es (apply e a)

-- The application before any request.
abbrev pub quiet : ℕ → List WorkspaceSummary → App
quiet now ws = record {
  now = now;
  workspaces = ws;
  workspace_watchers = λ id. none;
  refresh_due_at = λ id. none;
  refresh_timer_active = λ id. false;
  refresh_suspended = λ id. false;
  tasks = [];
}

replace_task-serves :
    (ts : List Task) (i : ℕ) (t : Task) (o : Option Phase) (id : Text)
    → get_elem? ts i ≡ some t
    → serves id ts ≡ true
    → ((text_eq t.workspace_id id && waits t.phase) ≡ true → goes_on o ≡ true)
    → serves id (replace_task ts i o) ≡ true
replace_task-serves [] i t o id e s g = ground arith
replace_task-serves (u ∷ ts) zero t none id e s g = ground arith
replace_task-serves (u ∷ ts) zero t (some p) id e s g = ground arith
replace_task-serves (u ∷ ts) (suc i) t o id e s g =
    ground (arith, replace_task-serves ts i t o id e)

found-IsServed :
    (a : App) (i : ℕ) (o : Option Task) (id : Text)
    → get_elem? a.tasks i ≡ o
    → IsServed a id
    → IsServed (step_found i o a) id
found-IsServed a i none id e s = s
found-IsServed a i (some t) id e s =
    let r = step_task-Steps a t.workspace_id id t.phase s in
    let out = step_task t.workspace_id t.phase a in
    record {
      timed = r.timed;
      served = λ h. replace_task-serves a.tasks i t out.1 id e (s.served (r.due h)) (r.on h);
      allowed = λ h. r.calm ∙ s.allowed (r.due h);
    }

put-IsServed :
    (a : App) (result : Option WorkspaceSummary) (rest : List Task) (id : Text)
    → (serves id a.tasks ≡ true → serves id rest ≡ true)
    → IsServed a id
    → IsServed (record (finish_refresh result a) { tasks = rest }) id
unfolding finish_refresh
put-IsServed a none rest id g s = record {
  timed = s.timed;
  served = λ h. g (s.served h);
  allowed = s.allowed;
}
put-IsServed a (some w) rest id g s = record {
  timed = s.timed;
  served = λ h. g (s.served h);
  allowed = s.allowed;
}

phase-IsServed :
    (a : App) (p : Phase) (result : Option WorkspaceSummary) (rest : List Task) (id : Text)
    → (waits p ≡ false → serves id a.tasks ≡ true → serves id rest ≡ true)
    → IsServed a id
    → IsServed (finish_phase p result rest a) id
phase-IsServed a spawned result rest id g s = s
phase-IsServed a (sleeping until) result rest id g s = s
phase-IsServed a refreshing result rest id g s = put-IsServed a result rest id (g refl) s

finished-IsServed :
    (a : App) (i : ℕ) (result : Option WorkspaceSummary) (o : Option Task) (id : Text)
    → get_elem? a.tasks i ≡ o
    → IsServed a id
    → IsServed (finish_found i result o a) id
finished-IsServed a i result none id e s = s
finished-IsServed a i result (some t) id e s =
    phase-IsServed a t.phase result (replace_task a.tasks i none) id
      (λ w h. replace_task-serves a.tasks i t none id e h (λ v. absurd (ground (arith, w, v)))) s

apply-IsServed : (e : Event) (a : App) (id : Text) → IsServed a id → IsServed (apply e a) id
unfolding apply step_at finish_at
apply-IsServed (time_passes n) a id s = record {
  timed = s.timed;
  served = s.served;
  allowed = s.allowed;
}
apply-IsServed (workspaces_change ws) a id s = record {
  timed = s.timed;
  served = s.served;
  allowed = s.allowed;
}
apply-IsServed (schedule k) a id s = schedule-IsServed k a id s
apply-IsServed (suspend k) a id s = suspend-IsServed k a id s
apply-IsServed (resume k) a id s = resume-IsServed k a id s
apply-IsServed (task_step i) a id s = found-IsServed a i (get_elem? a.tasks i) id refl s
apply-IsServed (task_finish i result) a id s =
    finished-IsServed a i result (get_elem? a.tasks i) id refl s

run-IsServed_from : (es : List Event) (a : App) (id : Text) → IsServed a id → IsServed (run es a) id
unfolding run
run-IsServed_from [] a id s = s
run-IsServed_from (e ∷ es) a id s = run-IsServed_from es (apply e a) id (apply-IsServed e a id s)

-- After any sequence of calls, of changes of the clock and the workspaces, and of
-- steps of the tasks in any order, from a start without requests: a workspace has a due time exactly
-- while its timer is marked active, and then it is not suspended, and some task of it sleeps or has
-- yet to run, and so will look at the due time.
pub run-IsServed :
    (es : List Event) (now : ℕ) (ws : List WorkspaceSummary) (id : Text)
    → IsServed (run es (quiet now ws)) id
run-IsServed es now ws id =
    run-IsServed_from es (quiet now ws) id
      (record { timed = refl; served = λ h. absurd (ground arith); allowed = λ h. refl })
