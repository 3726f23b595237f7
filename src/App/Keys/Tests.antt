-- ===== src/App/Keys/Tests.antt =====
-- Key presses for crates/octty-app/src/input.rs.
use octty.Base.{
  ◌≡◌, refl, codes, none, some, Text, List, [], ◌∷◌, ◌++◌, false, true, arith, get_elem?, pos,
}
use octty.Core.Types.{WorkspaceSummary, default_workspace_status}
use octty.Core.Shortcuts.{shortcut_digit, workspace_shortcut_targets}
use octty.App.Keys.{
  KeyParts, workspace_shortcut_index, is_insert_key, rewritten_clipboard_shortcut_action,
}
use octty.App.Keys.Terminal.{
  live_terminal_input, is_reserved, terminal_printable_key_text, live_terminal_printable_input,
}
use octty.App.Keys.Input.{IsCoherent, live_terminal_input-IsCoherent}
use octty.App.Keys.Routing.{control_shift, shown_shortcut_works}

-- Shift and A.
abbrev capital : KeyParts
capital = record {
  key = codes "a";
  key_char = some (codes "A");
  control = false;
  alt = false;
  shift = true;
  platform = false;
  function = false;
}

capital_input :
    live_terminal_input capital ≡ some (live_terminal_printable_input (codes "A") capital)
unfolding live_terminal_input is_reserved is_insert_key workspace_shortcut_index
    rewritten_clipboard_shortcut_action terminal_printable_key_text
capital_input = refl

live_terminal_input-IsCoherent_example :
    IsCoherent capital (live_terminal_printable_input (codes "A") capital)
live_terminal_input-IsCoherent_example =
    live_terminal_input-IsCoherent capital (live_terminal_printable_input (codes "A") capital)
      capital_input

abbrev summary : Text → WorkspaceSummary
summary id = record {
  id = id;
  root_id = codes "r";
  root_path = codes "/r";
  project_display_name = codes "r";
  workspace_name = id;
  display_name = id;
  workspace_path = codes "/r";
  status = default_workspace_status;
  created_at = pos 0;
  updated_at = pos 0;
  last_opened_at = pos 0;
}

abbrev shown : List WorkspaceSummary
shown = summary (codes "one") ∷ (summary (codes "two") ∷ [])

shown_shortcut_works_example :
    (get_elem? (workspace_shortcut_targets shown) 1
      ≡ some
          (record { workspace_id = codes "two"; label = codes "Ctrl+Shift+" ++ shortcut_digit 1 }))
    × (workspace_shortcut_index (control_shift (shortcut_digit 1)) ≡ some 1)
    × (live_terminal_input (control_shift (shortcut_digit 1)) ≡ none)
shown_shortcut_works_example =
    shown_shortcut_works shown 1 (summary (codes "two")) (ground arith) refl
