-- ===== src/App/Lifecycle/Tests.antt =====
-- crates/octty-app/src/terminal_lifecycle.rs: the theorems at concrete keys.
use octty.Base.{true, false, none}
use octty.Term.Keyboard.{character, LiveTerminalKeyInput}
use octty.App.Lifecycle.{retach_key_for_live_key}
use octty.App.Lifecycle.Keys.{IsSentAsControl, retach_key_for_live_key-IsSentAsControl}

abbrev control_j : LiveTerminalKeyInput
control_j = record {
  key = character b'j';
  text = none;
  modifiers = record { shift = false; alt = false; control = true; platform = false };
  unshifted = b'j';
}

retach_key_for_live_key-IsSentAsControl_example :
    IsSentAsControl (retach_key_for_live_key control_j)
retach_key_for_live_key-IsSentAsControl_example = retach_key_for_live_key-IsSentAsControl control_j
