-- ===== src/App/ActivityStore/Tests.antt =====
-- A record that comes while another is saved, for crates/octty-app/src/app_activity.rs.
use octty.Base.{pos, codes, List, [], ◌∷◌, ◌≡◌, refl, text_eq}
use octty.App.ActivityStore.{
  Key, waiting, put_activity, insert_entry, find_entry, store_all, record_pane_seen,
  record_pane_attention, step_saver, step_at,
}
use octty.App.ActivityStore.Saved.{
  Event, seen, attention, saver_step, run, apply, loaded, Good, run_saves,
}

abbrev pane : Key
pane = (codes "w", codes "p")

abbrev history : List Event
history = attention pane (pos 5) ∷ (saver_step 0 ∷ (seen pane (pos 7) ∷ (saver_step 0 ∷ [])))

goes_on_waiting : (run history (loaded [])).savers ≡ waiting ∷ []
unfolding run apply record_pane_seen record_pane_attention put_activity insert_entry find_entry
    step_at step_saver store_all text_eq
goes_on_waiting = refl

run_saves_example : Good (run history (loaded []))
run_saves_example = run_saves history []
