-- ===== src/Core/Activity.antt =====
-- crates/octty-core/src/types.rs: `PaneActivity`, its state machine, and the activity of a workspace.
-- The methods return the new record. Times are `i64`, and only `saturating_sub` can leave that range.
pub mod Seen
pub mod Trace
pub mod Workspace
mod Tests
use package.octty.Base.{
  ℤ, pos, ltb_ℤ, leb_ℤ, max_ℤ, saturating_sub, Text, text_eq, Bool, true, false,
}
use package.octty.Base.{
  ◌&&◌, ◌||◌, not, Option, none, some, is_some, is_none, unwrap_or, List, [], ◌∷◌,
}
use package.octty.Base.{if◌then◌else◌}
use octty.Core.Types.{ActivityState, active, idle_unseen, idle_seen}

pub record PaneActivity : Type 0 where
  pub workspace_id : Text
  pub pane_id : Text
  pub last_activity_at_ms : ℤ
  pub last_seen_at_ms : ℤ
  pub last_seen_activity_at_ms : ℤ
  pub last_tmux_activity_at_s : Option ℤ
  pub last_seen_tmux_activity_at_s : Option ℤ
  pub last_screen_fingerprint : Option Text
  pub last_seen_screen_fingerprint : Option Text
  pub needs_attention : Bool
  pub needs_attention_at_ms : ℤ
  pub needs_attention_cleared_at_ms : ℤ
  pub updated_at_ms : ℤ

unfoldable pub new : Text → Text → ℤ → PaneActivity
new workspace_id pane_id now_ms = record {
  workspace_id = workspace_id;
  pane_id = pane_id;
  last_activity_at_ms = pos 0;
  last_seen_at_ms = pos 0;
  last_seen_activity_at_ms = pos 0;
  last_tmux_activity_at_s = none;
  last_seen_tmux_activity_at_s = none;
  last_screen_fingerprint = none;
  last_seen_screen_fingerprint = none;
  needs_attention = false;
  needs_attention_at_ms = pos 0;
  needs_attention_cleared_at_ms = pos 0;
  updated_at_ms = now_ms;
}

-- The new value of `last_tmux_activity_at_s` in `record_activity`.
abbrev raised : Option ℤ → Option ℤ → Option ℤ
raised current none = current
raised current (some at) = some (max_ℤ (unwrap_or current (pos 0)) at)

abbrev replaced : Option Text → Option Text → Option Text
replaced current none = current
replaced current (some fingerprint) = some fingerprint

unfoldable pub record_activity : PaneActivity → ℤ → Option ℤ → Option Text → PaneActivity
record_activity a at_ms tmux_activity_at_s screen_fingerprint = record a {
  last_activity_at_ms = max_ℤ a.last_activity_at_ms at_ms;
  last_tmux_activity_at_s = raised a.last_tmux_activity_at_s tmux_activity_at_s;
  last_screen_fingerprint = replaced a.last_screen_fingerprint screen_fingerprint;
  updated_at_ms = max_ℤ a.updated_at_ms at_ms;
}

-- `is_none_or(|current| at > current)`
abbrev is_newer : Option ℤ → ℤ → Bool
is_newer none at = true
is_newer (some current) at = ltb_ℤ current at

abbrev observe_tmux : PaneActivity → ℤ → Option ℤ → PaneActivity
observe_tmux a observed_at_ms none = a
observe_tmux a observed_at_ms (some at) =
    if is_newer a.last_tmux_activity_at_s at
    then record a {
      last_tmux_activity_at_s = some at;
      last_activity_at_ms = max_ℤ a.last_activity_at_ms observed_at_ms;
    }
    else a

unfoldable pub record_tmux_observation : PaneActivity → ℤ → Option ℤ → Option Text → PaneActivity
record_tmux_observation a observed_at_ms tmux_activity_at_s screen_fingerprint =
    let b = observe_tmux a observed_at_ms tmux_activity_at_s in
    record b {
      last_screen_fingerprint = replaced b.last_screen_fingerprint screen_fingerprint;
      updated_at_ms = max_ℤ b.updated_at_ms observed_at_ms;
    }

unfoldable pub record_attention : PaneActivity → ℤ → PaneActivity
record_attention a at_ms = record a {
  needs_attention = true;
  needs_attention_at_ms = max_ℤ a.needs_attention_at_ms at_ms;
  needs_attention_cleared_at_ms = pos 0;
  updated_at_ms = max_ℤ a.updated_at_ms at_ms;
}

unfoldable pub record_seen : PaneActivity → ℤ → PaneActivity
record_seen a seen_at_ms = record a {
  last_seen_at_ms = seen_at_ms;
  last_seen_activity_at_ms = a.last_activity_at_ms;
  last_seen_tmux_activity_at_s = a.last_tmux_activity_at_s;
  last_seen_screen_fingerprint = a.last_screen_fingerprint;
  needs_attention_cleared_at_ms =
      if a.needs_attention then seen_at_ms else a.needs_attention_cleared_at_ms;
  needs_attention = false;
  updated_at_ms = max_ℤ a.updated_at_ms seen_at_ms;
}

unfoldable pub attention_closes_current_activity : PaneActivity → Bool
attention_closes_current_activity a =
    ltb_ℤ (pos 0) a.needs_attention_at_ms && leb_ℤ a.last_activity_at_ms a.needs_attention_at_ms

unfoldable pub has_recent_activity : PaneActivity → ℤ → ℤ → Bool
unfolding attention_closes_current_activity saturating_sub
has_recent_activity a now_ms active_window_ms =
    ltb_ℤ (pos 0) a.last_activity_at_ms
    && not (attention_closes_current_activity a)
    && leb_ℤ (saturating_sub now_ms a.last_activity_at_ms) active_window_ms

-- `zip(..).is_some_and(|(activity, seen)| activity > seen)`
abbrev tmux_ahead : Option ℤ → Option ℤ → Bool
tmux_ahead (some activity) (some seen) = ltb_ℤ seen activity
tmux_ahead (some activity) none = false
tmux_ahead none seen = false

abbrev same_fingerprint : Option Text → Option Text → Bool
same_fingerprint none none = true
same_fingerprint none (some t) = false
same_fingerprint (some s) none = false
same_fingerprint (some s) (some t) = text_eq s t

unfoldable pub has_unseen_activity : PaneActivity → Bool
unfolding text_eq
has_unseen_activity a =
    ltb_ℤ a.last_seen_activity_at_ms a.last_activity_at_ms
    || tmux_ahead a.last_tmux_activity_at_s a.last_seen_tmux_activity_at_s
    || (is_some a.last_tmux_activity_at_s && is_none a.last_seen_tmux_activity_at_s)
    || (is_some a.last_screen_fingerprint
        && not (same_fingerprint a.last_screen_fingerprint a.last_seen_screen_fingerprint))

unfoldable pub state_at : PaneActivity → ℤ → ℤ → ActivityState
unfolding has_recent_activity has_unseen_activity
state_at a now_ms active_window_ms =
    if has_recent_activity a now_ms active_window_ms
    then active
    else if has_unseen_activity a
    then idle_unseen
    else idle_seen

-- The loop of `derive_workspace_activity`, with its flag.
derive_loop : Bool → List ActivityState → ActivityState
derive_loop has_unseen [] = if has_unseen then idle_unseen else idle_seen
derive_loop has_unseen (active ∷ states) = active
derive_loop has_unseen (idle_unseen ∷ states) = derive_loop true states
derive_loop has_unseen (idle_seen ∷ states) = derive_loop has_unseen states

unfoldable pub derive_workspace_activity : List ActivityState → ActivityState
unfolding derive_loop
derive_workspace_activity states = derive_loop false states
