-- ===== src/App/ActivityStore.antt =====
-- crates/octty-app/src/app_activity.rs: the activity of the panes in memory, and the task that saves
-- what changed. A key is a workspace id and a pane id. What a task does from one `await` to the next
-- is one step. The tasks of `schedule_pane_activity_persistence` are the list `savers`.
pub mod Saved
mod Tests
use octty.Base.{
  ℕ, ◌+◌, zero, suc, ℤ, Bool, true, false, ◌&&◌, Text, text_eq, Option, none, some, unwrap_or,
}
use octty.Base.{List, [], ◌∷◌, ◌++◌, is_empty, get_elem?, push_some, if◌then◌else◌}
use octty.Core.Activity.{PaneActivity, new, record_seen, record_activity, record_attention}

abbrev pub Key : Type 0
Key = Text × Text

abbrev pub key_eq : Key → Key → Bool
key_eq (w, p) (v, q) = text_eq w v && text_eq p q

-- A `HashMap` as a list of entries, each key once.
abbrev pub Entries : Type 0
Entries = List (Key × PaneActivity)

unfoldable pub find_entry : Key → Entries → Option PaneActivity
unfolding text_eq
find_entry k [] = none
find_entry k ((j, v) ∷ m) = if key_eq j k then some v else find_entry k m

unfoldable pub insert_entry : Key → PaneActivity → Entries → Entries
unfolding text_eq
insert_entry k v [] = (k, v) ∷ []
insert_entry k v ((j, w) ∷ m) =
    let rest = insert_entry k v m in if key_eq j k then (k, v) ∷ m else (j, w) ∷ rest

unfoldable pub remove_entry : Key → Entries → Entries
unfolding text_eq
remove_entry k [] = []
remove_entry k ((j, w) ∷ m) =
    let rest = remove_entry k m in if key_eq j k then rest else (j, w) ∷ rest

-- A saver waits for its timer, or for the store to take what it took out of the queue.
pub data Saver : Type 0 where
  waiting : Saver
  saving : Entries → Saver

pub record App : Type 0 where
  pub pane_activity : Entries
  pub pending : Entries
  pub persist_active : Bool
  pub savers : List Saver
  pub stored : Entries

abbrev pub schedule_pane_activity_persistence : App → App
schedule_pane_activity_persistence a =
    if a.persist_active
    then a
    else record a { persist_active = true; savers = a.savers ++ (waiting ∷ []) }

-- The new record of a pane goes into memory and into the queue.
unfoldable pub put_activity : Key → PaneActivity → App → App
unfolding insert_entry
put_activity k v a = schedule_pane_activity_persistence (record a {
  pane_activity = insert_entry k v a.pane_activity;
  pending = insert_entry k v a.pending;
})

-- `entry(key).or_insert_with`
abbrev pub entry_or_new : Key → ℤ → App → PaneActivity
entry_or_new k at_ms a = unwrap_or (find_entry k a.pane_activity) (new k.0 k.1 at_ms)

unfoldable pub record_pane_seen : Key → ℤ → App → App
unfolding find_entry put_activity
record_pane_seen k at_ms a = put_activity k (record_seen (entry_or_new k at_ms a) at_ms) a

unfoldable pub record_pane_activity : Key → ℤ → Option ℤ → Option Text → App → App
unfolding find_entry put_activity
record_pane_activity k at_ms tmux fingerprint a =
    put_activity k (record_activity (entry_or_new k at_ms a) at_ms tmux fingerprint) a

unfoldable pub record_pane_attention : Key → ℤ → App → App
unfolding find_entry put_activity
record_pane_attention k at_ms a = put_activity k (record_attention (entry_or_new k at_ms a) at_ms) a

-- The rows that `upsert_pane_activities` writes. The keys of a queue are distinct, so the order in
-- which `into_values` gives them does not count.
unfoldable pub store_all : Entries → Entries → Entries
unfolding insert_entry
store_all [] rows = rows
store_all ((k, v) ∷ m) rows = insert_entry k v (store_all m rows)

-- The timer of a saver fires: it takes the queue, or ends if there is nothing in it.
abbrev pub take_pending : App → App × Option Saver
take_pending a =
    if is_empty a.pending
    then (record a { persist_active = false }, none)
    else (record a { pending = [] }, some (saving a.pending))

-- The store has answered: a failure is shown and the saver goes on all the same.
abbrev pub go_on : App → App × Option Saver
go_on a =
    if is_empty a.pending then (record a { persist_active = false }, none) else (a, some waiting)

abbrev pub answered : Entries → Bool → App → App
answered m true a = record a { stored = store_all m a.stored }
answered m false a = a

unfoldable pub step_saver : Saver → Bool → App → App × Option Saver
unfolding store_all
step_saver waiting success a = take_pending a
step_saver (saving m) success a = go_on (answered m success a)

abbrev pub replace_saver : List Saver → ℕ → Option Saver → List Saver
replace_saver [] i o = []
replace_saver (s ∷ ss) zero o = push_some o ss
replace_saver (s ∷ ss) (suc i) o = s ∷ replace_saver ss i o

abbrev pub step_found : ℕ → Bool → Option Saver → App → App
step_found i success none a = a
step_found i success (some s) a =
    let (b, o) = step_saver s success a in record b { savers = replace_saver a.savers i o }

unfoldable pub step_at : ℕ → Bool → App → App
unfolding step_saver
step_at i success a = step_found i success (get_elem? a.savers i) a

-- What `delete_pane_activity` does at once; a task that it spawns takes the row out of the store.
unfoldable pub delete_pane_activity : Key → App → App
unfolding remove_entry
delete_pane_activity k a = record a {
  pane_activity = remove_entry k a.pane_activity;
  pending = remove_entry k a.pending;
}
