-- ===== src/Core/Activity/Trace.antt =====
-- The life of a pane: any sequence of the four methods of `PaneActivity`
-- (crates/octty-core/src/types.rs) from `PaneActivity::new`.
use octty.Base.{ℤ, pos, ◌≤ℤ◌, max_ℤ, ◌≡◌, Text, true, Option, none, some, arith}
use octty.Base.{List, [], ◌∷◌, unwrap_or}
use octty.Core.Activity.{
  PaneActivity, new, record_activity, record_tmux_observation, record_attention, record_seen,
  is_newer,
}

pub data Event : Type 0 where
  activity : ℤ → Option ℤ → Option Text → Event
  tmux_observation : ℤ → Option ℤ → Option Text → Event
  attention : ℤ → Event
  seen : ℤ → Event

unfoldable pub apply : Event → PaneActivity → PaneActivity
unfolding record_activity record_tmux_observation record_attention record_seen
apply (activity at tmux fingerprint) a = record_activity a at tmux fingerprint
apply (tmux_observation at tmux fingerprint) a = record_tmux_observation a at tmux fingerprint
apply (attention at) a = record_attention a at
apply (seen at) a = record_seen a at

unfoldable pub run : List Event → PaneActivity → PaneActivity
run [] a = a
run (e ∷ es) a = run es (apply e a)

abbrev TmuxBehind : Option ℤ → Option ℤ → Type 0
TmuxBehind none last = Unit
TmuxBehind (some s) none = ⊥
TmuxBehind (some s) (some t) = s ≤ℤ t

-- What was seen is no newer than what happened, and a pending request has no clearing time.
pub record IsConsistent (a : PaneActivity) : Type 0 where
  pub seen_activity : a.last_seen_activity_at_ms ≤ℤ a.last_activity_at_ms
  pub seen_tmux : TmuxBehind a.last_seen_tmux_activity_at_s a.last_tmux_activity_at_s
  pub pending : a.needs_attention ≡ true → a.needs_attention_cleared_at_ms ≡ pos 0

new-IsConsistent : (w p : Text) (now : ℤ) → IsConsistent (new w p now)
unfolding new
new-IsConsistent w p now = ground arith

raise_tmux :
    (s l : Option ℤ) (t : ℤ) → TmuxBehind s l → TmuxBehind s (some (max_ℤ (unwrap_or l (pos 0)) t))
raise_tmux none l t h = tt
raise_tmux (some s) none t h = absurd h
raise_tmux (some s) (some l) t h = ground arith

renew_tmux : (s l : Option ℤ) (t : ℤ) → TmuxBehind s l → is_newer l t ≡ true → TmuxBehind s (some t)
renew_tmux none l t h n = tt
renew_tmux (some s) none t h n = absurd h
renew_tmux (some s) (some l) t h n = ground arith

same_tmux : (l : Option ℤ) → TmuxBehind l l
same_tmux none = tt
same_tmux (some l) = omega arith

apply-IsConsistent : (e : Event) (a : PaneActivity) → IsConsistent a → IsConsistent (apply e a)
unfolding apply
apply-IsConsistent (activity at none fingerprint) a c = ground arith
apply-IsConsistent (activity at (some t) fingerprint) a c =
    ground
      (arith, raise_tmux a.last_seen_tmux_activity_at_s a.last_tmux_activity_at_s t c.seen_tmux)
apply-IsConsistent (tmux_observation at none fingerprint) a c = ground arith
apply-IsConsistent (tmux_observation at (some t) fingerprint) a c =
    ground
      (arith, renew_tmux a.last_seen_tmux_activity_at_s a.last_tmux_activity_at_s t c.seen_tmux)
apply-IsConsistent (attention at) a c = ground arith
apply-IsConsistent (seen at) a c = ground (arith, same_tmux a.last_tmux_activity_at_s)

run-IsConsistent_from :
    (es : List Event) (a : PaneActivity) → IsConsistent a → IsConsistent (run es a)
unfolding run
run-IsConsistent_from [] a c = c
run-IsConsistent_from (e ∷ es) a c = run-IsConsistent_from es (apply e a) (apply-IsConsistent e a c)

-- After any sequence of events from a new record, no seen time is past the time of the activity it
-- was taken from, in milliseconds and in tmux seconds, and a pane that needs attention has its
-- clearing time reset to zero.
pub run-IsConsistent :
    (workspace_id pane_id : Text) (now : ℤ) (es : List Event)
    → IsConsistent (run es (new workspace_id pane_id now))
run-IsConsistent w p now es = run-IsConsistent_from es (new w p now) (new-IsConsistent w p now)

apply-updated : (e : Event) (a : PaneActivity) → a.updated_at_ms ≤ℤ (apply e a).updated_at_ms
unfolding apply
apply-updated (activity at tmux fingerprint) a = ground arith
apply-updated (tmux_observation at none fingerprint) a = ground arith
apply-updated (tmux_observation at (some t) fingerprint) a = ground arith
apply-updated (attention at) a = ground arith
apply-updated (seen at) a = ground arith

apply-last :
    (e : Event) (a : PaneActivity) → a.last_activity_at_ms ≤ℤ (apply e a).last_activity_at_ms
unfolding apply
apply-last (activity at tmux fingerprint) a = ground arith
apply-last (tmux_observation at none fingerprint) a = ground arith
apply-last (tmux_observation at (some t) fingerprint) a = ground arith
apply-last (attention at) a = ground arith
apply-last (seen at) a = ground arith

-- Events may come late: the time of the last activity and that of the last update never go back.
pub run_mono :
    (es : List Event) (a : PaneActivity)
    → (a.last_activity_at_ms ≤ℤ (run es a).last_activity_at_ms)
      × (a.updated_at_ms ≤ℤ (run es a).updated_at_ms)
unfolding run
run_mono [] a = omega arith
run_mono (e ∷ es) a = omega (arith, apply-updated e a, apply-last e a, run_mono es (apply e a))
