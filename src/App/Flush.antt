-- ===== src/App/Flush.antt =====
-- crates/octty-app/src/app_panes.rs: keys for a pane that has no live terminal wait in a queue, and a
-- task sends them and brings back pictures of the panes. The notices of errors are those of
-- App.Toasts, and the activity of the pane is that of App.ActivityStore.
pub mod Ordered
pub mod Kept
pub mod Sending
pub mod Latest
pub mod Tests
use octty.Base.{
  ℕ, zero, suc, ℤ, if◌then◌else◌, Bool, true, false, ◌⊎◌, inl, inr, Option, none, some, Text, codes,
  text_eq, one_of, is_empty, List, [], ◌∷◌, ◌++◌, map, get_elem?, push_some,
}
use octty.Base.BTreeMap.{BTreeMap, adjust}
use octty.Core.Types.{
  TerminalPanePayload, PanePayload, terminal, PaneState, WorkspaceSnapshot, WorkspaceSummary,
}
use octty.Term.Keyboard.{LiveTerminalKeyInput}
use octty.App.Navigation.{active_terminal_pane_id, preview_terminal_input}
use octty.App.Lifecycle.{terminal_payload_for_pane}

pub record PendingTerminalInput (F : Type 0) : Type 0 where
  pub workspace : WorkspaceSummary
  pub snapshot : WorkspaceSnapshot F
  pub pane_id : Text
  pub payload : TerminalPanePayload
  pub input : LiveTerminalKeyInput

-- A task waits for its timer, or for `flush_terminal_inputs` of what it took.
pub data FlushTask (F : Type 0) : Type 0 where
  waiting : FlushTask F
  flushing : List (PendingTerminalInput F) → FlushTask F

-- The fields of OcttyApp that this uses. `active_workspace` is the result of that function, and
-- `live_terminals` the keys of that map. `handed` is what was given to `flush_terminal_inputs`.
pub record App (F : Type 0) : Type 0 where
  pub active_workspace : Option WorkspaceSummary
  pub active_snapshot : Option (WorkspaceSnapshot F)
  pub live_terminals : List Text
  pub pending_terminal_inputs : List (PendingTerminalInput F)
  pub terminal_flush_active : Bool
  pub tasks : List (FlushTask F)
  pub handed : List (PendingTerminalInput F)

unfoldable pub live_terminal_key : Text → Text → Text
live_terminal_key workspace_id pane_id = workspace_id ++ (b':' ∷ pane_id)

-- The pane that keys go to.
pub record Target (F : Type 0) : Type 0 where
  pub workspace : WorkspaceSummary
  pub snapshot : WorkspaceSnapshot F
  pub pane_id : Text
  pub payload : TerminalPanePayload

module _ {F : Type 0} where
  abbrev payload_target :
      WorkspaceSummary → WorkspaceSnapshot F → Text → Text ⊎ TerminalPanePayload → Option (Target F)
  payload_target workspace snapshot pane_id (inl error) = none
  payload_target workspace snapshot pane_id (inr payload) =
      some (record {
        workspace = workspace;
        snapshot = snapshot;
        pane_id = pane_id;
        payload = payload;
      })

  abbrev pane_target : WorkspaceSummary → WorkspaceSnapshot F → Option Text → Option (Target F)
  pane_target workspace snapshot none = none
  pane_target workspace snapshot (some pane_id) =
      payload_target workspace snapshot pane_id (terminal_payload_for_pane snapshot pane_id)

  abbrev shown_target : Option WorkspaceSummary → Option (WorkspaceSnapshot F) → Option (Target F)
  shown_target none snapshot = none
  shown_target (some workspace) none = none
  shown_target (some workspace) (some snapshot) =
      pane_target workspace snapshot (active_terminal_pane_id snapshot)

  unfoldable pub target : App F → Option (Target F)
  target app = shown_target app.active_workspace app.active_snapshot

  unfoldable pub schedule_terminal_flush : App F → App F
  schedule_terminal_flush app =
      if app.terminal_flush_active
      then app
      else record app { terminal_flush_active = true; tasks = app.tasks ++ (waiting ∷ []) }

  abbrev pub with_active_pane : Target F → WorkspaceSnapshot F
  with_active_pane t = record t.snapshot { active_pane_id = some t.pane_id }

  -- The key goes into the queue, with the snapshot that shows a preview of it.
  abbrev pub queued : LiveTerminalKeyInput → ℤ → Target F → App F → App F
  queued input now t app =
      let snapshot = preview_terminal_input (with_active_pane t) t.pane_id input now in
      schedule_terminal_flush (record app {
        active_snapshot = some snapshot;
        pending_terminal_inputs =
            app.pending_terminal_inputs
            ++ (record {
              workspace = t.workspace;
              snapshot = snapshot;
              pane_id = t.pane_id;
              payload = t.payload;
              input = input;
            }
                ∷ []);
      })

  abbrev pub is_live : Target F → App F → Bool
  is_live t app = one_of (live_terminal_key t.workspace.id t.pane_id) app.live_terminals

  -- A pane with a live terminal takes the key itself, or is scrolled by it.
  abbrev pub sent_to : LiveTerminalKeyInput → ℤ → App F → Option (Target F) → App F
  sent_to input now app none = app
  sent_to input now app (some t) =
      if is_live t app
      then record app { active_snapshot = some (with_active_pane t) }
      else queued input now t app

  unfoldable pub send_input_to_active_terminal : LiveTerminalKeyInput → ℤ → App F → App F
  unfolding target schedule_terminal_flush live_terminal_key
  send_input_to_active_terminal input now app = sent_to input now app (target app)

  abbrev pub session_of : PanePayload F → PanePayload F → PanePayload F
  session_of (terminal updated) (terminal current) = terminal (record current {
    session_id = updated.session_id;
    inner_session_id = updated.inner_session_id;
    session_state = updated.session_state;
    exit_code = updated.exit_code;
    restored_buffer = updated.restored_buffer;
  })
  session_of updated current = current

  abbrev pub with_session : PanePayload F → PaneState F → PaneState F
  with_session updated current = record current { payload = session_of updated current.payload }

  -- The panes of a snapshot that has come back, over those that are shown.
  unfoldable pub apply_panes :
      List Text → BTreeMap (PaneState F) → BTreeMap (PaneState F) → BTreeMap (PaneState F)
  unfolding adjust
  apply_panes pending_panes [] panes = panes
  apply_panes pending_panes ((pane_id, pane) ∷ rest) panes = apply_panes pending_panes rest (
      if one_of pane_id pending_panes
      then panes
      else adjust pane_id (with_session pane.payload) panes)

  abbrev pub apply_snapshot :
      List Text → ℤ → WorkspaceSnapshot F → WorkspaceSnapshot F → WorkspaceSnapshot F
  apply_snapshot pending_panes now snapshot active =
      if text_eq snapshot.workspace_id active.workspace_id
      then record active {
        panes = apply_panes pending_panes snapshot.panes active.panes;
        updated_at = now;
      }
      else active

  -- `clock` has the time when each of the snapshots is applied.
  unfoldable pub apply_snapshots :
      List Text → (ℕ → ℤ) → List (WorkspaceSnapshot F) → WorkspaceSnapshot F → WorkspaceSnapshot F
  unfolding apply_panes
  apply_snapshots pending_panes clock [] active = active
  apply_snapshots pending_panes clock (snapshot ∷ snapshots) active =
      apply_snapshots pending_panes (λ n. clock (suc n)) snapshots
        (apply_snapshot pending_panes (clock 0) snapshot active)

  abbrev pub applied :
      (ℕ → ℤ) → List (WorkspaceSnapshot F) → App F → Option (WorkspaceSnapshot F) → App F
  applied clock snapshots app none = app
  applied clock snapshots app (some active) = record app {
    active_snapshot =
        some (
          apply_snapshots (map (λ p. p.pane_id) app.pending_terminal_inputs) clock snapshots
            active);
  }

  unfoldable pub apply_terminal_flush_snapshots :
      (ℕ → ℤ) → List (WorkspaceSnapshot F) → App F → App F
  unfolding apply_snapshots
  apply_terminal_flush_snapshots clock snapshots app =
      applied clock snapshots app app.active_snapshot

  -- The timer fires: the task takes the queue, or ends.
  abbrev pub take_pending : App F → App F × Option (FlushTask F)
  take_pending app =
      if is_empty app.pending_terminal_inputs
      then (record app { terminal_flush_active = false }, none)
      else (
        record app {
          pending_terminal_inputs = [];
          handed = app.handed ++ app.pending_terminal_inputs;
        },
        some (flushing app.pending_terminal_inputs),
      )

  -- What the flush has brought: snapshots, or none if it failed.
  abbrev pub answered : Option (List (WorkspaceSnapshot F)) → (ℕ → ℤ) → App F → App F
  answered none clock app = app
  answered (some snapshots) clock app = apply_terminal_flush_snapshots clock snapshots app

  unfoldable pub step_task :
      FlushTask F
      → Option (List (WorkspaceSnapshot F))
      → (ℕ → ℤ)
      → App F
      → App F × Option (FlushTask F)
  unfolding apply_terminal_flush_snapshots
  step_task waiting result clock app = take_pending app
  step_task (flushing inputs) result clock app = (answered result clock app, some waiting)

  abbrev pub replace_task : List (FlushTask F) → ℕ → Option (FlushTask F) → List (FlushTask F)
  replace_task [] i o = []
  replace_task (t ∷ ts) zero o = push_some o ts
  replace_task (t ∷ ts) (suc i) o = t ∷ replace_task ts i o

  abbrev pub step_found :
      ℕ → Option (List (WorkspaceSnapshot F)) → (ℕ → ℤ) → Option (FlushTask F) → App F → App F
  step_found i result clock none app = app
  step_found i result clock (some t) app =
      let (b, o) = step_task t result clock app in record b { tasks = replace_task app.tasks i o }

  -- One task goes on from an `await` to the next.
  unfoldable pub step_at : ℕ → Option (List (WorkspaceSnapshot F)) → (ℕ → ℤ) → App F → App F
  unfolding step_task
  step_at i result clock app = step_found i result clock (get_elem? app.tasks i) app
