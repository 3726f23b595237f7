-- ===== src/App/Flush/Sending.antt =====
-- crates/octty-app/src/terminal_lifecycle.rs: the flush of the keys that wait. The store and its errors
-- are outside; an error of theirs, and that of a pane that is missing, is the `retach` of its text.
use octty.Base.{
  ℕ, ℤ, if◌then◌else◌, ◌⊎◌, inl, inr, Option, none, some, unwrap_or, Text, one_of, List, [], ◌∷◌,
}
use octty.Base.BTreeMap.{adjust}
use mathlib.Core.List.{reverse}
use octty.Core.Types.{
  TerminalPanePayload, PanePayload, terminal, PaneState, WorkspaceSnapshot, WorkspaceSummary, live,
  SessionSnapshot,
}
use octty.Term.Retach.{Result, ok, err, retach, TerminalSessionSpec}
use octty.Term.Retach.Command.{stable_retach_session_name}
use octty.Term.Retach.Server.{Outside, M, ◌>>=◌, ◌>>◌, return, fail}
use octty.Term.Retach.Sessions.{ensure_retach_session}
use octty.Term.Retach.Capture.{capture_retach_pane}
use octty.App.Lifecycle.{
  terminal_spec_for_payload, terminal_payload_for_pane, send_terminal_input_to_session,
}
use octty.App.Flush.{PendingTerminalInput, live_terminal_key}

pub record Store (World F : Type 0) : Type 0 where
  pub upsert_session_state : SessionSnapshot → M World (Unit {0})
  pub save_snapshot : WorkspaceSnapshot F → M World (Unit {0})
  -- `now_ms` of octty-core
  pub clock : World → ℤ × World

module _ {F : Type 0} where
  abbrev pub spec_of : PendingTerminalInput F → TerminalSessionSpec
  spec_of input = terminal_spec_for_payload input.workspace input.pane_id input.payload 120 40

  abbrev pub retach_session : PendingTerminalInput F → Text
  retach_session input =
      unwrap_or input.payload.session_id (stable_retach_session_name (spec_of input))

  -- `format!("{}:{}", …)`, which is the text of `live_terminal_key` too.
  abbrev pub capture_key : PendingTerminalInput F → Text
  capture_key input = live_terminal_key input.workspace.id input.pane_id

  abbrev pub shown_payload : Text → Text → PanePayload F → PanePayload F
  shown_payload session_id screen (terminal payload) = terminal (record payload {
    session_id = some session_id;
    session_state = live;
    restored_buffer = screen;
  })
  shown_payload session_id screen payload = payload

  abbrev pub with_screen : Text → Text → PaneState F → PaneState F
  with_screen session_id screen pane = record pane {
    payload = shown_payload session_id screen pane.payload;
  }

abbrev pub session_snapshot : Text → Text → Text → Text → TerminalPanePayload → SessionSnapshot
session_snapshot workspace_id pane_id session_id screen payload = record {
  id = session_id;
  inner_session_id = payload.inner_session_id;
  workspace_id = workspace_id;
  pane_id = pane_id;
  kind = payload.kind;
  cwd = payload.cwd;
  command = payload.command;
  buffer = screen;
  screen = some screen;
  state = live;
  exit_code = none;
  embedded_session = payload.embedded_session;
  embedded_session_correlation_id = payload.embedded_session_correlation_id;
  agent_attention_state = payload.agent_attention_state;
}

-- `unwrap_or_default`, also if the reads of the capture run out of fuel.
abbrev pub or_default :
    {World : Type 0} → World → Option (Result Text × World) → Result Text × World
or_default w none = (ok [], w)
or_default w (some (err e, v)) = (ok [], v)
or_default w (some (ok screen, v)) = (ok screen, v)

module _ (o : Outside) {F : Type 0} (store : Store o.World F) (fuel : ℕ) where
  open o use {World}
  open store use {upsert_session_state, save_snapshot, clock}

  -- The session is started if the first attempt fails.
  abbrev pub again : PendingTerminalInput F → Result (Unit {0}) × World → Result (Unit {0}) × World
  again input (ok _, w) = (ok tt, w)
  again input (err e, w) =
      (ensure_retach_session o (spec_of input) >>= λ session_id.
      send_terminal_input_to_session o session_id input.input)
        w

  unfoldable pub send_input : PendingTerminalInput F → M World (Unit {0})
  send_input input w =
      again input (send_terminal_input_to_session o (retach_session input) input.input w)

  unfoldable pub send_inputs : List (PendingTerminalInput F) → M World (Unit {0})
  unfolding send_input
  send_inputs [] = return tt
  send_inputs (input ∷ pending) = let rest = send_inputs pending in send_input input >> rest

  abbrev stamped : WorkspaceSnapshot F → M World (WorkspaceSnapshot F)
  stamped snapshot w = (ok (record snapshot { updated_at = (clock w).0 }), (clock w).1)

  abbrev persisted :
      WorkspaceSummary
      → WorkspaceSnapshot F
      → Text
      → Text
      → Text
      → Text ⊎ TerminalPanePayload
      → M World (WorkspaceSnapshot F)
  persisted workspace snapshot pane_id session_id screen (inl error) = fail (retach error)
  persisted workspace snapshot pane_id session_id screen (inr payload) = do
    upsert_session_state (session_snapshot workspace.id pane_id session_id screen payload)
    stamped
        (record snapshot { panes = adjust pane_id (with_screen session_id screen) snapshot.panes })

  unfoldable pub persist_terminal_screen :
      WorkspaceSummary → WorkspaceSnapshot F → Text → Text → Text → M World (WorkspaceSnapshot F)
  unfolding adjust
  persist_terminal_screen workspace snapshot pane_id session_id screen =
      persisted workspace snapshot pane_id session_id screen
        (terminal_payload_for_pane snapshot pane_id)

  abbrev captured_or_empty : TerminalSessionSpec → M World Text
  captured_or_empty spec w = or_default w (capture_retach_pane o fuel spec w)

  abbrev started :
      WorkspaceSummary
      → WorkspaceSnapshot F
      → Text
      → Text ⊎ TerminalPanePayload
      → M World (WorkspaceSnapshot F)
  started workspace snapshot pane_id (inl error) = fail (retach error)
  started workspace snapshot pane_id (inr payload) = do
    session_id ←
        ensure_retach_session o (terminal_spec_for_payload workspace pane_id payload 120 40)
    screen ← captured_or_empty (terminal_spec_for_payload workspace pane_id payload 120 40)
    persist_terminal_screen workspace snapshot pane_id session_id screen

  unfoldable pub start_terminal_session :
      WorkspaceSummary → WorkspaceSnapshot F → Text → M World (WorkspaceSnapshot F)
  unfolding persist_terminal_screen
  start_terminal_session workspace snapshot pane_id =
      started workspace snapshot pane_id (terminal_payload_for_pane snapshot pane_id)

  -- The picture of the pane of an input, which is stored.
  unfoldable pub capture_input : PendingTerminalInput F → M World (WorkspaceSnapshot F)
  unfolding persist_terminal_screen
  capture_input input = do
    screen ← captured_or_empty (spec_of input)
    snapshot ←
        persist_terminal_screen input.workspace input.snapshot input.pane_id (retach_session input)
          screen
    save_snapshot snapshot
    return snapshot

  abbrev pub followed :
      M World (WorkspaceSnapshot F)
      → M World (List (WorkspaceSnapshot F))
      → M World (List (WorkspaceSnapshot F))
  followed one others = do snapshot ← one; snapshots ← others; return (snapshot ∷ snapshots)

  -- The loop over the inputs from the last one on, with the panes that were captured.
  unfoldable pub capture_inputs :
      List Text → List (PendingTerminalInput F) → M World (List (WorkspaceSnapshot F))
  unfolding capture_input
  capture_inputs captured_panes [] = return []
  capture_inputs captured_panes (input ∷ rest) =
      let skipped = capture_inputs captured_panes rest in
      let others = capture_inputs (capture_key input ∷ captured_panes) rest in
      if one_of (capture_key input) captured_panes
      then skipped
      else followed (capture_input input) others

  unfoldable pub flush_terminal_inputs :
      List (PendingTerminalInput F) → M World (List (WorkspaceSnapshot F))
  unfolding send_inputs capture_inputs
  flush_terminal_inputs pending = do send_inputs pending; capture_inputs [] (reverse pending)
