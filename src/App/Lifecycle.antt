-- ===== src/App/Lifecycle.antt =====
-- crates/octty-app/src/terminal_lifecycle.rs: what a pane asks of its retach session.
pub mod Keys
pub mod Tests
use octty.Base.{
  ℕ, ℤ, leb, if◌then◌else◌, Bool, true, false, ◌&&◌, ◌⊎◌, inl, inr, Option, none, some, Text, codes,
  lower, List, [], ◌∷◌, ◌++◌,
}
use octty.Base.BTreeMap.{BTreeMap, get, insert}
use octty.Base.Decimal.{show}
use octty.Core.Types.{
  TerminalPanePayload, PanePayload, terminal, note, browser, diff, PaneState, WorkspaceSnapshot,
  WorkspaceSummary, SessionState, live,
}
use octty.Term.Keyboard.{
  LiveTerminalKey, character, enter, backspace, delete, tab, escape, arrow_left, arrow_right,
  arrow_up, arrow_down, home, end_key, page_up, page_down, insert_key, space, f,
  LiveTerminalKeyInput,
}
use octty.Term.Retach.{Result, TerminalSessionSpec}
use octty.Term.Retach.Command.{stable_retach_session_name}
use octty.Term.Retach.Server.{Outside, M, return}
use octty.Term.Retach.Sessions.{send_retach_text_to_session, send_retach_keys_to_session}

abbrev pub key_name : LiveTerminalKey → Bool → Option Text
key_name enter control = some (codes "Enter")
key_name backspace control = some (codes "BSpace")
key_name delete control = some (codes "Delete")
key_name tab control = some (codes "Tab")
key_name escape control = some (codes "Escape")
key_name arrow_left control = some (codes "Left")
key_name arrow_right control = some (codes "Right")
key_name arrow_up control = some (codes "Up")
key_name arrow_down control = some (codes "Down")
key_name home control = some (codes "Home")
key_name end_key control = some (codes "End")
key_name page_up control = some (codes "PageUp")
key_name page_down control = some (codes "PageDown")
key_name insert_key control = some (codes "Insert")
key_name space control = none
key_name (character c) true = some (codes "C-" ++ (lower c ∷ []))
key_name (character c) false = none
key_name (f number) control =
    if leb 1 number && leb number 12 then some (b'F' ∷ show number) else none

unfoldable pub retach_key_for_live_key : LiveTerminalKeyInput → Option Text
retach_key_for_live_key input = key_name input.key input.modifiers.control

unfoldable pub terminal_spec_for_payload :
    WorkspaceSummary → Text → TerminalPanePayload → ℕ → ℕ → TerminalSessionSpec
terminal_spec_for_payload workspace pane_id payload cols rows = record {
  workspace_id = workspace.id;
  pane_id = pane_id;
  kind = payload.kind;
  cwd = payload.cwd;
  command = payload.command;
  command_parameters = payload.command_parameters;
  inner_session_handler = payload.inner_session_handler;
  inner_session_id = payload.inner_session_id;
  on_exit = payload.on_exit;
  cols = cols;
  rows = rows;
}

module _ (o : Outside) where
  abbrev pub send_key : Text → Option Text → M o.World (Unit {0})
  send_key session_id none = return tt
  send_key session_id (some key) = send_retach_keys_to_session o session_id (key ∷ [])

  abbrev pub send_live_key : Text → Option Text → LiveTerminalKeyInput → M o.World (Unit {0})
  send_live_key session_id (some text) input = send_retach_text_to_session o session_id text
  send_live_key session_id none input = send_key session_id (retach_key_for_live_key input)

  -- The one kind of input is a key.
  unfoldable pub send_terminal_input_to_session : Text → LiveTerminalKeyInput → M o.World (Unit {0})
  unfolding retach_key_for_live_key
  send_terminal_input_to_session session_id input = send_live_key session_id input.text input

module _ {F : Type 0} where
  abbrev payload_of : Text → PanePayload F → Text ⊎ TerminalPanePayload
  payload_of pane_id (terminal payload) = inr payload
  payload_of pane_id _ = inl (codes "pane `" ++ (pane_id ++ codes "` is not a terminal"))

  abbrev pane_payload : Text → Option (PaneState F) → Text ⊎ TerminalPanePayload
  pane_payload pane_id none = inl (codes "pane `" ++ (pane_id ++ codes "` missing from snapshot"))
  pane_payload pane_id (some pane) = payload_of pane_id pane.payload

  unfoldable pub terminal_payload_for_pane : WorkspaceSnapshot F → Text → Text ⊎ TerminalPanePayload
  unfolding get
  terminal_payload_for_pane snapshot pane_id = pane_payload pane_id (get pane_id snapshot.panes)
