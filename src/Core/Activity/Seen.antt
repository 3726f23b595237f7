-- ===== src/Core/Activity/Seen.antt =====
-- What the events of a pane do to its activity state (`PaneActivity` in
-- crates/octty-core/src/types.rs): seen panes, attention, stale observations, and time.
use octty.Base.{ℤ, pos, ◌≤ℤ◌, ltb_ℤ, leb_ℤ, saturating_sub, ◌≡◌, refl, ◌≢◌}
use octty.Base.{
  i64_max, i64_min, saturating_sub_mono, ◌&&◌, not, ◌↔◌, inl, inr, Bool-cases, Text, text_eq_refl,
  true, false,
}
use octty.Base.{Bool, Option, none, some, if◌then◌else◌, arith, Option-cases}
use octty.Core.Types.{active, idle_seen}
use octty.Core.Activity.{
  PaneActivity, record_activity, record_tmux_observation, record_attention, record_seen,
  attention_closes_current_activity, has_recent_activity, has_unseen_activity, state_at,
}

-- After `record_seen` nothing of the pane is unseen, whatever came before.
pub has_unseen_activity-record_seen :
    (a : PaneActivity) (t : ℤ) → has_unseen_activity (record_seen a t) ≡ false
unfolding has_unseen_activity record_seen
has_unseen_activity-record_seen a t = elim (Option-cases a.last_screen_fingerprint) [
  | inl e ↦ ground (arith)
  | inr (f, e) ↦ ground (arith, text_eq_refl f)
]

has_recent_activity-record_seen :
    (a : PaneActivity) (t now w : ℤ)
    → has_recent_activity (record_seen a t) now w ≡ has_recent_activity a now w
unfolding has_recent_activity record_seen
has_recent_activity-record_seen a t now w = refl

-- A pane that was just seen is active or idle and seen, at every later time: `record_seen` leaves
-- the recent activity alone and turns every other state into "seen".
pub state_at-record_seen :
    (a : PaneActivity) (t now w : ℤ)
    → state_at (record_seen a t) now w ≡ (if has_recent_activity a now w then active else idle_seen)
unfolding state_at
state_at-record_seen a t now w =
    ground (arith, has_unseen_activity-record_seen a t, has_recent_activity-record_seen a t now w)

-- An attention request after time zero that is not older than the last activity ends the active
-- state, at every time and for every window.
pub attention_ends_activity :
    (a : PaneActivity) (at now w : ℤ)
    → ltb_ℤ (pos 0) at ≡ true
    → a.last_activity_at_ms ≤ℤ at
    → state_at (record_attention a at) now w ≢ active
unfolding state_at record_attention
attention_ends_activity a at now w h k = ground arith

-- An activity after time zero that is newer than the last attention request, and not older than the
-- last activity, makes the pane active at every time within the window of it.
pub activity_ends_attention :
    (a : PaneActivity) (at now w : ℤ) (tmux : Option ℤ) (fingerprint : Option Text)
    → ltb_ℤ (pos 0) at ≡ true
    → ltb_ℤ a.needs_attention_at_ms at ≡ true
    → a.last_activity_at_ms ≤ℤ at
    → leb_ℤ (saturating_sub now at) w ≡ true
    → state_at (record_activity a at tmux fingerprint) now w ≡ active
unfolding state_at record_activity
activity_ends_attention a at now w tmux fingerprint h n k l = ground arith

-- An observation that brings no newer tmux time and no screen leaves the state at every time
-- as it was: it fabricates no activity.
pub stale_observation :
    (a : PaneActivity) (at now w current : ℤ) (tmux : Option ℤ)
    → a.last_tmux_activity_at_s ≡ some current
    → ((t : ℤ) → tmux ≡ some t → t ≤ℤ current)
    → state_at (record_tmux_observation a at tmux none) now w ≡ state_at a now w
unfolding state_at record_tmux_observation
stale_observation a at now w current none e old = refl
stale_observation a at now w current (some t) e old = ground (arith, old t refl)

active_iff :
    (a : PaneActivity) (now w : ℤ)
    → (state_at a now w ≡ active) ↔ (has_recent_activity a now w ≡ true)
unfolding state_at
active_iff a now w = elim (Bool-cases (has_recent_activity a now w)) [
  | inl e ↦ (λ h. e, λ h. rw e)
  | inr e ↦ (λ h. ground arith, λ h. ground arith)
]

recent_earlier :
    (a : PaneActivity) (now later w : ℤ)
    → (leb_ℤ (saturating_sub later a.last_activity_at_ms) w ≡ true
        → leb_ℤ (saturating_sub now a.last_activity_at_ms) w ≡ true)
    → has_recent_activity a later w ≡ true
    → has_recent_activity a now w ≡ true
unfolding has_recent_activity
recent_earlier a now later w =
    sides (ltb_ℤ (pos 0) a.last_activity_at_ms) (not (attention_closes_current_activity a)) _ _
  where
    sides : (b c d e : Bool) → (d ≡ true → e ≡ true) → (b && c && d) ≡ true → (b && c && e) ≡ true
    sides b c d e f h = ground arith

-- Time alone only ends activity: a pane that is active at a time was active at every earlier time
-- from its last activity on, for a window that is less than the largest `i64`.
pub active_earlier :
    (a : PaneActivity) (now later w : ℤ)
    → i64_min ≤ℤ w
    → ltb_ℤ w i64_max ≡ true
    → now ≤ℤ later
    → state_at a later w ≡ active
    → state_at a now w ≡ active
active_earlier a now later w lo hi h e = (active_iff a now w).1 (
    recent_earlier a now later w (saturating_sub_mono now later a.last_activity_at_ms w lo hi h)
      ((active_iff a later w).0 e))
