-- ===== src/App/ActivityStore/Saved.antt =====
-- crates/octty-app/src/app_activity.rs: in every interleaving of records and steps of the savers
-- there is at most one saver, and no record is left behind.
use octty.Base.{
  ℕ, zero, suc, ℤ, true, false, ◌&&◌, Text, text_eq, text_eq_iff, text_eq_refl, Option, none, some,
  or_else,
}
use octty.Base.{List, [], ◌∷◌, if◌then◌else◌, ◌≡◌, refl, sym, ap, ◌∙◌, arith, Bool-cases, inl, inr}
use octty.Core.Activity.{PaneActivity}
use octty.App.ActivityStore.{
  Key, Entries, find_entry, insert_entry, Saver, waiting, saving, App, put_activity,
  record_pane_seen, record_pane_activity, record_pane_attention, store_all, step_saver, step_at,
  key_eq,
}

same_keys : (i k j : Key) → key_eq i k ≡ true → key_eq i j ≡ key_eq k j
same_keys i k j e =
    ap (λ t. text_eq t j.0 && text_eq i.1 j.1) ((text_eq_iff i.0 k.0).0 (ground arith))
    ∙ ap (λ t. text_eq k.0 j.0 && text_eq t j.1) ((text_eq_iff i.1 k.1).0 (ground arith))

key_eq_refl : (k : Key) → key_eq k k ≡ true
key_eq_refl k = ground (arith, text_eq_refl k.0, text_eq_refl k.1)

key_eq_sym : (i k : Key) → key_eq i k ≡ true → key_eq k i ≡ true
key_eq_sym i k e = sym (same_keys i k i e) ∙ key_eq_refl i

apart : (i k j : Key) → key_eq i k ≡ false → key_eq i j ≡ true → key_eq k j ≡ false
apart i k j e h = elim (Bool-cases (key_eq k j)) [
  | inl f ↦
      absurd
        (ground (arith, e, same_keys j k k (key_eq_sym k j f), same_keys i j k h, key_eq_refl k))
  | inr f ↦ f
]

find-insert_entry :
    (j k : Key) (v : PaneActivity) (m : Entries)
    → find_entry j (insert_entry k v m) ≡ (if key_eq k j then some v else find_entry j m)
unfolding find_entry insert_entry
find-insert_entry j k v [] = refl
find-insert_entry j k v ((i, w) ∷ m) = elim (Bool-cases (key_eq i k)) [
  | inl e ↦ rw e (ground (arith, same_keys i k j e))
  | inr e ↦ rw e (elim (Bool-cases (key_eq i j)) [
    | inl f ↦ rw (f, apart i k j e f)
    | inr f ↦ rw f (find-insert_entry j k v m)
  ])
]

find-store_all :
    (j : Key) (m rows : Entries)
    → find_entry j (store_all m rows) ≡ or_else (find_entry j m) (find_entry j rows)
unfolding store_all find_entry
find-store_all j [] rows = refl
find-store_all j ((k, v) ∷ m) rows =
    find-insert_entry j k v (store_all m rows) ∙ ground (arith, find-store_all j m rows)

abbrev pub held : Saver → Entries
held waiting = []
held (saving m) = m

-- With no saver, the queue is empty and the store has what the memory has. With one saver, the
-- memory has for each key what the queue has, or else what the saver holds, or else the store.
pub data Good : App → Type 0 where
  resting :
      (mem rows : Entries)
      → ((j : Key) → find_entry j mem ≡ find_entry j rows)
      → Good (record {
        pane_activity = mem;
        pending = [];
        persist_active = false;
        savers = [];
        stored = rows;
      })
  busy :
      (mem queue rows : Entries) (s : Saver)
      → ((j : Key)
          → find_entry j mem
            ≡ or_else (find_entry j queue) (or_else (find_entry j (held s)) (find_entry j rows)))
      → Good (record {
        pane_activity = mem;
        pending = queue;
        persist_active = true;
        savers = s ∷ [];
        stored = rows;
      })

put-Good : (k : Key) (v : PaneActivity) (a : App) → Good a → Good (put_activity k v a)
unfolding put_activity
put-Good k v _ (resting mem rows h) =
    busy (insert_entry k v mem) (insert_entry k v []) rows waiting (λ j.
      find-insert_entry j k v mem ∙ (ground (arith, h j, find-insert_entry j k v [], none_found j)))
  where
    none_found : (j : Key) → find_entry j [] ≡ none
    none_found j = unfold find_entry in refl
put-Good k v _ (busy mem queue rows s h) =
    busy (insert_entry k v mem) (insert_entry k v queue) rows s
      (λ j. find-insert_entry j k v mem ∙ ground (arith, h j, find-insert_entry j k v queue))

step-Good : (i : ℕ) (a : App) → Good a → Good (step_at i true a)
unfolding step_at step_saver find_entry
step-Good i _ (resting mem rows h) = resting mem rows h
step-Good zero _ (busy mem [] rows waiting h) = resting mem rows h
step-Good zero _ (busy mem (e ∷ queue) rows waiting h) =
    busy mem [] rows (saving (e ∷ queue)) (λ j. h j)
step-Good zero _ (busy mem [] rows (saving m) h) =
    resting mem (store_all m rows) (λ j. h j ∙ sym (find-store_all j m rows))
step-Good zero _ (busy mem (e ∷ queue) rows (saving m) h) =
    busy mem (e ∷ queue) (store_all m rows) waiting
      (λ j. h j ∙ ap (or_else (find_entry j (e ∷ queue))) (sym (find-store_all j m rows)))
step-Good (suc i) _ (busy mem queue rows s h) = busy mem queue rows s h

-- What can happen: a record of a pane, or a step of a saver, with saves that succeed.
pub data Event : Type 0 where
  seen : Key → ℤ → Event
  active : Key → ℤ → Option ℤ → Option Text → Event
  attention : Key → ℤ → Event
  saver_step : ℕ → Event

unfoldable pub apply : Event → App → App
unfolding record_pane_seen record_pane_activity record_pane_attention step_at
apply (seen k at) a = record_pane_seen k at a
apply (active k at tmux fingerprint) a = record_pane_activity k at tmux fingerprint a
apply (attention k at) a = record_pane_attention k at a
apply (saver_step i) a = step_at i true a

unfoldable pub run : List Event → App → App
run [] a = a
run (e ∷ es) a = run es (apply e a)

-- The application with the rows that it has loaded.
abbrev pub loaded : Entries → App
loaded rows = record {
  pane_activity = rows;
  pending = [];
  persist_active = false;
  savers = [];
  stored = rows;
}

apply-Good : (e : Event) (a : App) → Good a → Good (apply e a)
unfolding apply record_pane_seen record_pane_activity record_pane_attention
apply-Good (seen k at) a g = put-Good k _ a g
apply-Good (active k at tmux fingerprint) a g = put-Good k _ a g
apply-Good (attention k at) a g = put-Good k _ a g
apply-Good (saver_step i) a g = step-Good i a g

run-Good : (es : List Event) (a : App) → Good a → Good (run es a)
unfolding run
run-Good [] a g = g
run-Good (e ∷ es) a g = run-Good es (apply e a) (apply-Good e a g)

-- Records and steps of the savers in any order, from the rows that were loaded, while every save
-- succeeds: there is a saver exactly while one is marked active, and one at most; as long as there is
-- none, nothing is queued and the store has the same record for each pane as the memory; and while
-- there is one, the memory has what is queued, or else what is being saved, or else what is stored.
pub run_saves : (es : List Event) (rows : Entries) → Good (run es (loaded rows))
run_saves es rows = run-Good es (loaded rows) (resting rows rows (λ j. refl))
