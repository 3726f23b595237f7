-- ===== src/App/StatusRefresh/Requests.antt =====
-- crates/octty-app/src/app_workspace_status.rs: what a due time of a workspace needs, and that requests,
-- suspensions and their end keep it.
use octty.Base.{Bool, true, false, ◌&&◌, ◌||◌, Text, text_eq, text_eq_iff, is_some}
use octty.Base.{List, [], ◌∷◌, ◌++◌, any, if◌then◌else◌, ◌≡◌, sym, ◌∙◌, arith, Bool-cases, inl, inr}
use mathlib.Core.Path.{subst}
use octty.App.StatusRefresh.{
  App, Task, Phase, spawned, refreshing, schedule_workspace_status_refresh,
  suspend_workspace_status_refresh, resume_workspace_status_refresh,
}

abbrev pub waits : Phase → Bool
waits p = elim p [ refreshing ↦ false | _ ↦ true ]

-- A task of the workspace that will look at its due time.
abbrev pub serves : Text → List Task → Bool
serves id ts = any (λ t. text_eq t.workspace_id id && waits t.phase) ts

-- A due time is set exactly while a timer is active; then a task waits and nothing is suspended.
pub record IsServed (a : App) (id : Text) : Type 0 where
  pub timed : a.refresh_timer_active id ≡ is_some (a.refresh_due_at id)
  pub served : is_some (a.refresh_due_at id) ≡ true → serves id a.tasks ≡ true
  pub allowed : is_some (a.refresh_due_at id) ≡ true → a.refresh_suspended id ≡ false

serves-append :
    (id : Text) (xs ys : List Task)
    → (serves id xs || serves id ys) ≡ true
    → serves id (xs ++ ys) ≡ true
serves-append id [] ys h = h
serves-append id (x ∷ xs) ys h = ground (arith, serves-append id xs ys)

pub text_eq_sym : (s t : Text) → text_eq s t ≡ text_eq t s
text_eq_sym s t = ground (arith, text_eq_iff s t, text_eq_iff t s)

pub schedule-IsServed :
    (k : Text) (a : App) (id : Text)
    → IsServed a id
    → IsServed (schedule_workspace_status_refresh k a) id
unfolding schedule_workspace_status_refresh
schedule-IsServed k a id s = elim (Bool-cases (a.refresh_suspended k)) [
  | inl e ↦ rw e s
  | inr e ↦ rw e (elim (Bool-cases (text_eq id k)) [
    | inl same ↦ record {
      timed = rw same;
      served = λ h.
          with_task
            (subst (λ v. a.refresh_timer_active v ≡ true → serves id a.tasks ≡ true)
              ((text_eq_iff id k).0 same) (λ t. s.served (sym s.timed ∙ t)))
            (text_eq_sym k id ∙ same);
      allowed = λ h. subst (λ v. a.refresh_suspended v ≡ false) (sym ((text_eq_iff id k).0 same)) e;
    }
    | inr other ↦ record {
      timed = rw other s.timed;
      served = λ h. still_served (s.served (ground (arith, h, other)));
      allowed = λ h. s.allowed (ground (arith, h, other));
    }
  ])
]
  where
    with_task :
        (a.refresh_timer_active k ≡ true → serves id a.tasks ≡ true)
        → text_eq k id ≡ true
        → serves id (
            if a.refresh_timer_active k
            then a.tasks
            else a.tasks ++ (record { workspace_id = k; phase = spawned } ∷ []))
          ≡ true
    with_task f e = elim (Bool-cases (a.refresh_timer_active k)) [
      | inl t ↦ rw t (f t)
      | inr t ↦ rw t (serves-append id a.tasks _ (ground (arith, e)))
    ]

    still_served :
        serves id a.tasks ≡ true
        → serves id (
            if a.refresh_timer_active k
            then a.tasks
            else a.tasks ++ (record { workspace_id = k; phase = spawned } ∷ []))
          ≡ true
    still_served h = elim (Bool-cases (a.refresh_timer_active k)) [
      | inl t ↦ rw t h
      | inr t ↦ rw t (serves-append id a.tasks _ (ground (arith, h)))
    ]

pub suspend-IsServed :
    (k : Text) (a : App) (id : Text)
    → IsServed a id
    → IsServed (suspend_workspace_status_refresh k a) id
unfolding suspend_workspace_status_refresh
suspend-IsServed k a id s = elim (Bool-cases (text_eq id k)) [
  | inl e ↦ record { timed = rw e; served = ground (arith, e); allowed = ground (arith, e) }
  | inr e ↦ record {
    timed = rw e s.timed;
    served = ground (arith, e, s.served);
    allowed = ground (arith, e, s.allowed);
  }
]

pub resume-IsServed :
    (k : Text) (a : App) (id : Text)
    → IsServed a id
    → IsServed (resume_workspace_status_refresh k a) id
unfolding resume_workspace_status_refresh
resume-IsServed k a id s = record {
  timed = s.timed;
  served = s.served;
  allowed = λ h. ground (arith, s.allowed h);
}
