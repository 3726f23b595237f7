-- ===== src/Core/Activity/Tests.antt =====
-- Runs of the activity of a pane (crates/octty-core/src/types.rs) at concrete times.
use octty.Base.{pos, ◌≡◌, refl, codes, none, some, List, [], ◌∷◌, false}
use octty.Base.{saturating_sub, ◌-ℤ◌}
use octty.Core.Types.{active, idle_unseen}
use octty.Core.Activity.{
  PaneActivity, new, record_activity, record_seen, has_recent_activity, has_unseen_activity,
  state_at,
}
use octty.Core.Activity.Seen.{has_unseen_activity-record_seen}
use octty.Core.Activity.Trace.{
  Event, activity, tmux_observation, attention, seen, run, IsConsistent, run-IsConsistent,
}

-- A pane with activity at 100 and a screen.
abbrev busy : PaneActivity
busy =
    record_activity (new (codes "w") (codes "p") (pos 1)) (pos 100) (some (pos 4))
      (some (codes "f"))

busy_states : state_at busy (pos 105) (pos 10) ≡ active
unfolding state_at record_activity new has_recent_activity saturating_sub ◌-ℤ◌
busy_states = refl

busy_later : state_at busy (pos 200) (pos 10) ≡ idle_unseen
unfolding state_at record_activity new has_recent_activity saturating_sub ◌-ℤ◌ has_unseen_activity
busy_later = refl

has_unseen_activity-record_seen_example : has_unseen_activity (record_seen busy (pos 120)) ≡ false
has_unseen_activity-record_seen_example = has_unseen_activity-record_seen busy (pos 120)

abbrev life : List Event
life =
    activity (pos 10) (some (pos 2)) none
    ∷ (attention (pos 12)
        ∷ (seen (pos 15) ∷ (tmux_observation (pos 20) (some (pos 1)) (some (codes "s")) ∷ [])))

run-IsConsistent_example : IsConsistent (run life (new (codes "w") (codes "p") (pos 1)))
run-IsConsistent_example = run-IsConsistent (codes "w") (codes "p") (pos 1) life
