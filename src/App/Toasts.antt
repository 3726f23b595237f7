-- ===== src/App/Toasts.antt =====
-- crates/octty-app/src/app_core.rs: the notices of errors, each with a task that takes it away.
pub mod Shown
pub mod Tests
use octty.Base.{
  ℕ, suc, ◌+◌, ◌-◌, ◌%◌, ◌^◌, max, ltb, ◌==◌, if◌then◌else◌, Bool, not, Text, List, [], ◌∷◌, ◌++◌,
  length, drop, keep, remove_at,
}

pub record AppToast : Type 0 where
  pub id : ℕ
  pub message : Text

-- The fields of OcttyApp that the notices use, and the ids of the tasks whose six seconds are not
-- over.
pub record App : Type 0 where
  pub status : Text
  pub next_toast_id : ℕ
  pub toasts : List AppToast
  pub timers : List ℕ

-- `while self.toasts.len() > 4 { self.toasts.pop_front(); }`
unfoldable pub pop_front : List AppToast → List AppToast
pop_front [] = []
pop_front (t ∷ ts) = let rest = pop_front ts in if ltb 4 (length (t ∷ ts)) then rest else t ∷ ts

unfoldable pub show_error : Text → App → App
unfolding pop_front
show_error message app = record {
  status = message;
  next_toast_id = max ((app.next_toast_id + 1) % 2 ^ 64) 1;
  toasts = pop_front (app.toasts ++ (record { id = app.next_toast_id; message = message } ∷ []));
  timers = app.timers ++ (app.next_toast_id ∷ []);
}

unfoldable pub dismiss_toast : ℕ → App → App
dismiss_toast id app = record app { toasts = keep (λ toast. not (toast.id == id)) app.toasts }
