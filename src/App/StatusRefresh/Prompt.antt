-- ===== src/App/StatusRefresh/Prompt.antt =====
-- crates/octty-app/src/app_workspace_status.rs: no task sleeps past the time when a refresh of its
-- workspace is due.
use octty.Base.{
  ℕ, ◌+◌, ◌≤◌, max, zero, suc, Bool, true, false, ltb, leb, any, Text, text_eq, text_eq_iff, Option,
  none, some, List, [], ◌∷◌, ◌++◌, get_elem?, All, All-mono, All-append, All-get_elem?,
  if◌then◌else◌, ◌≡◌, refl, sym, ap, ◌∙◌, arith, Bool-cases, ◌⊎◌, inl, inr,
}
use octty.Core.Types.{WorkspaceSummary}
use octty.App.StatusRefresh.{
  App, Task, Phase, spawned, sleeping, refreshing, workspace_status_refresh_debounce,
  schedule_workspace_status_refresh, suspend_workspace_status_refresh,
  resume_workspace_status_refresh, sleep_until_due, begin_refresh, wake, step_task, step_found,
  step_at, finish_refresh, finish_phase, finish_found, finish_at, replace_task,
}
use octty.App.StatusRefresh.Served.{
  Event, time_passes, workspaces_change, schedule, suspend, resume, task_step, task_finish, apply,
  run, quiet,
}

-- The latest time to which a task of a workspace sleeps.
abbrev pub limit : Option ℕ → ℕ → ℕ
limit none now = now + workspace_status_refresh_debounce
limit (some due_at) now = max due_at now

abbrev pub wakes_at : Phase → ℕ
wakes_at p = elim p [ sleeping until ↦ until | _ ↦ 0 ]

abbrev WakesBy : ℕ → Text → List Task → Type 0
WakesBy n id ts = All (λ t. text_eq t.workspace_id id ≡ true → wakes_at t.phase ≤ n) ts

pub record IsPrompt (a : App) (id : Text) : Type 0 where
  pub soon : limit (a.refresh_due_at id) a.now ≤ a.now + workspace_status_refresh_debounce
  pub wakes : WakesBy (limit (a.refresh_due_at id) a.now) id a.tasks

WakesBy-mono : (n m : ℕ) (id : Text) (ts : List Task) → n ≤ m → WakesBy n id ts → WakesBy m id ts
WakesBy-mono n m id ts h w = All-mono ts (λ t f e. omega (arith, h, f e)) w

limit-later :
    (o : Option ℕ) (now n : ℕ)
    → limit o now ≤ now + workspace_status_refresh_debounce
    → (limit o now ≤ limit o (now + n))
      × (limit o (now + n) ≤ now + n + workspace_status_refresh_debounce)
limit-later none now n h = (omega arith, omega arith)
limit-later (some d) now n h = (omega arith, omega (arith, h))

replace-WakesBy :
    (n : ℕ) (id : Text) (ts : List Task) (i : ℕ) (t : Task) (o : Option Phase)
    → get_elem? ts i ≡ some t
    → ((q : Phase) → o ≡ some q → text_eq t.workspace_id id ≡ true → wakes_at q ≤ n)
    → WakesBy n id ts
    → WakesBy n id (replace_task ts i o)
replace-WakesBy n id [] i t o e f w = w
replace-WakesBy n id (u ∷ ts) zero t none e f w = w.1
replace-WakesBy n id (u ∷ ts) zero t (some q) e f w =
    let same : u ≡ t = cc (e) in
    (λ h. f q refl (ap (λ (v : Task). text_eq v.workspace_id id) (sym same) ∙ h), w.1)
replace-WakesBy n id (u ∷ ts) (suc i) t o e f w = (w.0, replace-WakesBy n id ts i t o e f w.1)

-- What a step of a task of workspace `k` does to the due time of `id`, and when it wakes next.
record Paced (a : App) (k id : Text) (r : App × Option Phase) : Type 0 where
  now : r.0.now ≡ a.now
  due : (r.0.refresh_due_at id ≡ a.refresh_due_at id) ⊎ (r.0.refresh_due_at id ≡ none)
  wakes :
      (q : Phase)
      → r.1 ≡ some q
      → text_eq k id ≡ true
      → wakes_at q ≤ limit (r.0.refresh_due_at id) a.now

same_due : (a : App) (k id : Text) → text_eq k id ≡ true → a.refresh_due_at id ≡ a.refresh_due_at k
same_due a k id e = ap a.refresh_due_at (sym ((text_eq_iff k id).0 e))

sleep-Paced :
    (a : App) (k id : Text) (o : Option ℕ)
    → a.refresh_due_at k ≡ o
    → Paced a k id (sleep_until_due k o a)
sleep-Paced a k id none e = record { now = refl; due = inl refl; wakes = λ q h. absurd (cc (h)) }
sleep-Paced a k id (some d) e = record {
  now = refl;
  due = inl refl;
  wakes = λ q h same. rw (same_due a k id same ∙ e) (
      let wake : wakes_at q ≡ max d a.now =
        ap wakes_at (sym (let x : sleeping (max d a.now) ≡ q = cc (h) in x)) in
      omega (arith, wake));
}

begin-wakes :
    (suspended listed : Bool) (q : Phase)
    → (if suspended then none else if listed then some refreshing else none) ≡ some q
    → wakes_at q ≡ 0
begin-wakes true listed q h = absurd (cc (h))
begin-wakes false true q h = ap wakes_at (sym (let x : refreshing ≡ q = cc (h) in x))
begin-wakes false false q h = absurd (cc (h))

begin-Paced :
    (a b : App) (k id : Text)
    → b.now ≡ a.now
    → (b.refresh_due_at id ≡ a.refresh_due_at id) ⊎ (b.refresh_due_at id ≡ none)
    → Paced a k id (begin_refresh k b)
begin-Paced a b k id now due = record {
  now = now;
  due = due;
  wakes = λ q h same.
      omega
        (arith, begin-wakes (b.refresh_suspended k) (any (λ w. text_eq w.id k) b.workspaces) q h);
}

cleared_due :
    (a : App) (k id : Text)
    → ((if text_eq id k then none else a.refresh_due_at id) ≡ a.refresh_due_at id)
      ⊎ ((if text_eq id k then none else a.refresh_due_at id) ≡ none)
cleared_due a k id = elim (Bool-cases (text_eq id k)) [
  | inl e ↦ inr (rw e refl)
  | inr e ↦ inl (rw e refl)
]

wake-Paced :
    (a : App) (k id : Text) (o : Option ℕ) → a.refresh_due_at k ≡ o → Paced a k id (wake k o a)
wake-Paced a k id none e = begin-Paced a a k id refl (inl refl)
wake-Paced a k id (some d) e = elim (Bool-cases (ltb a.now d)) [
  | inl early ↦ rw early (sleep-Paced a k id (some d) e)
  | inr due ↦ rw due (begin-Paced a _ k id refl (cleared_due a k id))
]

step_task-Paced :
    (a : App) (k id : Text) (p : Phase)
    → (text_eq k id ≡ true → wakes_at p ≤ limit (a.refresh_due_at id) a.now)
    → Paced a k id (step_task k p a)
unfolding step_task
step_task-Paced a k id spawned w = sleep-Paced a k id (a.refresh_due_at k) refl
step_task-Paced a k id (sleeping until) w = elim (Bool-cases (leb until a.now)) [
  | inl e ↦ rw e (wake-Paced a k id (a.refresh_due_at k) refl)
  | inr e ↦ rw e (stays (sleeping until) w)
]
  where
    stays :
        (p : Phase)
        → (text_eq k id ≡ true → wakes_at p ≤ limit (a.refresh_due_at id) a.now)
        → Paced a k id (a, some p)
    stays p w = record {
      now = refl;
      due = inl refl;
      wakes = λ q h same. omega (arith, w same, ap wakes_at (let x : p ≡ q = cc (h) in x));
    }
step_task-Paced a k id refreshing w = record {
  now = refl;
  due = inl refl;
  wakes = λ q h same. omega (arith, ap wakes_at (let x : refreshing ≡ q = cc (h) in x));
}

found-IsPrompt :
    (a : App) (i : ℕ) (o : Option Task) (id : Text)
    → get_elem? a.tasks i ≡ o
    → IsPrompt a id
    → IsPrompt (step_found i o a) id
found-IsPrompt a i none id e s = s
found-IsPrompt a i (some t) id e s = after (step_task t.workspace_id t.phase a) (
    step_task-Paced a t.workspace_id id t.phase (
      All-get_elem?
        (λ t.
          text_eq t.workspace_id id ≡ true → wakes_at t.phase ≤ limit (a.refresh_due_at id) a.now)
        a.tasks i t s.wakes e))
  where
    after :
        (r : App × Option Phase)
        → Paced a t.workspace_id id r
        → IsPrompt (record r.0 { tasks = replace_task a.tasks i r.1 }) id
    after r p = record {
      soon = omega (arith, bounds.1, p.now);
      wakes = rw p.now (
          replace-WakesBy (limit (r.0.refresh_due_at id) a.now) id a.tasks i t r.1 e p.wakes (
            WakesBy-mono (limit (a.refresh_due_at id) a.now) (limit (r.0.refresh_due_at id) a.now)
              id a.tasks bounds.0 s.wakes));
    }
      where
        bounds :
            (limit (a.refresh_due_at id) a.now ≤ limit (r.0.refresh_due_at id) a.now)
            × (limit (r.0.refresh_due_at id) r.0.now ≤ r.0.now + workspace_status_refresh_debounce)
        bounds = elim p.due [
          | inl h ↦ rw (h, p.now) (omega arith, s.soon)
          | inr h ↦ rw (h, p.now) (s.soon, omega arith)
        ]

finish_phase-IsPrompt :
    (a : App) (p : Phase) (result : Option WorkspaceSummary) (rest : List Task) (id : Text)
    → WakesBy (limit (a.refresh_due_at id) a.now) id rest
    → IsPrompt a id
    → IsPrompt (finish_phase p result rest a) id
unfolding finish_refresh
finish_phase-IsPrompt a spawned result rest id w s = s
finish_phase-IsPrompt a (sleeping until) result rest id w s = s
finish_phase-IsPrompt a refreshing none rest id w s = record { soon = s.soon; wakes = w }
finish_phase-IsPrompt a refreshing (some v) rest id w s = record { soon = s.soon; wakes = w }

finish_found-IsPrompt :
    (a : App) (i : ℕ) (result : Option WorkspaceSummary) (o : Option Task) (id : Text)
    → get_elem? a.tasks i ≡ o
    → IsPrompt a id
    → IsPrompt (finish_found i result o a) id
finish_found-IsPrompt a i result none id e s = s
finish_found-IsPrompt a i result (some t) id e s =
    finish_phase-IsPrompt a t.phase result (replace_task a.tasks i none) id
      (replace-WakesBy (limit (a.refresh_due_at id) a.now) id a.tasks i t none e
        (λ q h. absurd (cc (h))) s.wakes)
      s

schedule-IsPrompt :
    (k : Text) (a : App) (id : Text)
    → IsPrompt a id
    → IsPrompt (schedule_workspace_status_refresh k a) id
unfolding schedule_workspace_status_refresh
schedule-IsPrompt k a id s = elim (Bool-cases (a.refresh_suspended k)) [
  | inl e ↦ rw e s
  | inr e ↦ rw e (elim (Bool-cases (text_eq id k)) [
    | inl same ↦ record {
      soon = rw same (omega arith);
      wakes = rw same (
          with_task (max (a.now + workspace_status_refresh_debounce) a.now) (
            WakesBy-mono (limit (a.refresh_due_at id) a.now)
              (max (a.now + workspace_status_refresh_debounce) a.now) id a.tasks
              (omega (arith, s.soon)) s.wakes));
    }
    | inr other ↦ record {
      soon = rw other s.soon;
      wakes = rw other (with_task (limit (a.refresh_due_at id) a.now) s.wakes);
    }
  ])
]
  where
    with_task :
        (n : ℕ)
        → WakesBy n id a.tasks
        → WakesBy n id (
            if a.refresh_timer_active k
            then a.tasks
            else a.tasks ++ (record { workspace_id = k; phase = spawned } ∷ []))
    with_task n w = elim (Bool-cases (a.refresh_timer_active k)) [
      | inl t ↦ rw t w
      | inr t ↦ rw t (
          All-append (λ (t : Task). text_eq t.workspace_id id ≡ true → wakes_at t.phase ≤ n) a.tasks
            _ w ((λ h. omega arith), tt))
    ]

suspend-IsPrompt :
    (k : Text) (a : App) (id : Text)
    → IsPrompt a id
    → IsPrompt (suspend_workspace_status_refresh k a) id
unfolding suspend_workspace_status_refresh
suspend-IsPrompt k a id s = elim (Bool-cases (text_eq id k)) [
  | inl e ↦ record {
    soon = rw e (omega arith);
    wakes = rw e (
        WakesBy-mono (limit (a.refresh_due_at id) a.now) (a.now + workspace_status_refresh_debounce)
          id a.tasks s.soon s.wakes);
  }
  | inr e ↦ record { soon = rw e s.soon; wakes = rw e s.wakes }
]

pub apply-IsPrompt : (e : Event) (a : App) (id : Text) → IsPrompt a id → IsPrompt (apply e a) id
unfolding apply step_at finish_at resume_workspace_status_refresh
apply-IsPrompt (time_passes n) a id s =
    let (later, soon) = limit-later (a.refresh_due_at id) a.now n s.soon in
    record {
      soon = soon;
      wakes =
          WakesBy-mono (limit (a.refresh_due_at id) a.now) (limit (a.refresh_due_at id) (a.now + n))
            id a.tasks later s.wakes;
    }
apply-IsPrompt (workspaces_change ws) a id s = record { soon = s.soon; wakes = s.wakes }
apply-IsPrompt (schedule k) a id s = schedule-IsPrompt k a id s
apply-IsPrompt (suspend k) a id s = suspend-IsPrompt k a id s
apply-IsPrompt (resume k) a id s = record { soon = s.soon; wakes = s.wakes }
apply-IsPrompt (task_step i) a id s = found-IsPrompt a i (get_elem? a.tasks i) id refl s
apply-IsPrompt (task_finish i result) a id s =
    finish_found-IsPrompt a i result (get_elem? a.tasks i) id refl s

run_from-IsPrompt : (es : List Event) (a : App) (id : Text) → IsPrompt a id → IsPrompt (run es a) id
unfolding run
run_from-IsPrompt [] a id s = s
run_from-IsPrompt (e ∷ es) a id s = run_from-IsPrompt es (apply e a) id (apply-IsPrompt e a id s)

pub run-IsPrompt :
    (es : List Event) (now : ℕ) (ws : List WorkspaceSummary) (id : Text)
    → IsPrompt (run es (quiet now ws)) id
run-IsPrompt es now ws id =
    run_from-IsPrompt es (quiet now ws) id (record { soon = omega arith; wakes = tt })
