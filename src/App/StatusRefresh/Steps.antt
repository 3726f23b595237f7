-- ===== src/App/StatusRefresh/Steps.antt =====
-- crates/octty-app/src/app_workspace_status.rs: what a step of a task does to a workspace.
use octty.Base.{
  ℕ, max, Bool, true, false, ◌&&◌, ltb, leb, Text, text_eq, text_eq_iff, Option, none, some,
  is_some,
}
use octty.Base.{◌≡◌, refl, sym, ap, ◌∙◌, arith, Bool-cases, inl, inr}
use octty.App.StatusRefresh.Requests.{waits, IsServed, text_eq_sym}
use octty.App.StatusRefresh.{
  App, Phase, spawned, sleeping, refreshing, sleep_until_due, wake, step_task, clear_timer,
  clear_due,
}

abbrev pub goes_on : Option Phase → Bool
goes_on o = elim o [ none ↦ false | some p ↦ waits p ]

-- What a step of a task of workspace `k` in a phase does to the entries of a workspace.
pub record Steps (a : App) (k id : Text) (p : Phase) (r : App × Option Phase) : Type 0 where
  pub timed : r.0.refresh_timer_active id ≡ is_some (r.0.refresh_due_at id)
  pub due : is_some (r.0.refresh_due_at id) ≡ true → is_some (a.refresh_due_at id) ≡ true
  pub on :
      is_some (r.0.refresh_due_at id) ≡ true → (text_eq k id && waits p) ≡ true → goes_on r.1 ≡ true
  pub calm : r.0.refresh_suspended id ≡ a.refresh_suspended id

unchanged-Steps :
    (a : App) (k id : Text) (p q : Phase)
    → waits q ≡ true
    → IsServed a id
    → Steps a k id p (a, some q)
unchanged-Steps a k id p q w s = record {
  timed = s.timed;
  due = λ h. h;
  on = λ h v. w;
  calm = refl;
}

not_other : (k id : Text) (b : Bool) → text_eq id k ≡ false → (text_eq k id && b) ≡ true → ⊥
not_other k id b other w = ground (arith, text_eq_sym k id, other, w)

timer_cleared-Steps :
    (a : App) (k id : Text) (p : Phase) (o : Option Phase)
    → a.refresh_due_at k ≡ none
    → IsServed a id
    → Steps a k id p (clear_timer k a, o)
timer_cleared-Steps a k id p o e s = elim (Bool-cases (text_eq id k)) [
  | inl same ↦
      let none_due : is_some (a.refresh_due_at id) ≡ false =
        ap (λ v. is_some (a.refresh_due_at v)) ((text_eq_iff id k).0 same) ∙ ap is_some e in
      record {
        timed = rw same (sym none_due);
        due = λ h. h;
        on = λ h w. absurd (ground (arith, h, none_due));
        calm = refl;
      }
  | inr other ↦ record {
    timed = rw other s.timed;
    due = λ h. h;
    on = λ h w. absurd (not_other k id (waits p) other w);
    calm = refl;
  }
]

all_cleared-Steps :
    (a : App) (k id : Text) (p : Phase) (o : Option Phase)
    → IsServed a id
    → Steps a k id p (clear_timer k (clear_due k a), o)
all_cleared-Steps a k id p o s = elim (Bool-cases (text_eq id k)) [
  | inl same ↦ record {
    timed = rw same;
    due = λ h. absurd (ground (arith, same, h));
    on = λ h w. absurd (ground (arith, same, h));
    calm = refl;
  }
  | inr other ↦ record {
    timed = rw other s.timed;
    due = λ h. ground (arith, other, h);
    on = λ h w. absurd (not_other k id (waits p) other w);
    calm = refl;
  }
]

polled-Steps :
    (a : App) (k id : Text) (p : Phase) (d : Option ℕ)
    → a.refresh_due_at k ≡ d
    → IsServed a id
    → Steps a k id p (sleep_until_due k d a)
polled-Steps a k id p none e s = timer_cleared-Steps a k id p none e s
polled-Steps a k id p (some d) e s = unchanged-Steps a k id p (sleeping (max d a.now)) refl s

woken-Steps :
    (a : App) (k id : Text) (p : Phase) (d : Option ℕ)
    → a.refresh_due_at k ≡ d
    → IsServed a id
    → Steps a k id p (wake k d a)
woken-Steps a k id p none e s = timer_cleared-Steps a k id p _ e s
woken-Steps a k id p (some d) e s = elim (Bool-cases (ltb a.now d)) [
  | inl l ↦ rw l (unchanged-Steps a k id p (sleeping (max d a.now)) refl s)
  | inr l ↦ rw l (all_cleared-Steps a k id p _ s)
]

pub step_task-Steps :
    (a : App) (k id : Text) (p : Phase) → IsServed a id → Steps a k id p (step_task k p a)
unfolding step_task
step_task-Steps a k id spawned s = polled-Steps a k id spawned (a.refresh_due_at k) refl s
step_task-Steps a k id (sleeping until) s = elim (Bool-cases (leb until a.now)) [
  | inl l ↦ rw l (woken-Steps a k id (sleeping until) (a.refresh_due_at k) refl s)
  | inr l ↦ rw l (unchanged-Steps a k id (sleeping until) (sleeping until) refl s)
]
step_task-Steps a k id refreshing s = record {
  timed = s.timed;
  due = λ h. h;
  on = λ h w. ground arith;
  calm = refl;
}
