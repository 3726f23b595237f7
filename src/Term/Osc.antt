-- ===== src/Term/Osc.antt =====
-- crates/octty-term/src/live_notifications.rs: the two byte machines that watch the output of a
-- terminal. Parser collects notifications, Filter takes shell integration marks out of the stream.
-- This file has what they share.
pub mod Parser
pub mod Filter
mod Tests
use octty.Base.{
  ℕ, ◌+◌, Bool, true, false, not, leb, ◌==◌, Option, none, some, List, [], ◌∷◌, ◌++◌, length,
}
use octty.Base.{if◌then◌else◌}

abbrev pub osc_max_notification_bytes : ℕ
osc_max_notification_bytes = 4096

abbrev pub esc : ℕ
esc = 0x1b

abbrev pub bel : ℕ
bel = 0x07

pub data TerminalOscParseState : Type 0 where
  ground escape osc osc_escape : TerminalOscParseState

abbrev pub full : List ℕ → Bool
full bytes = leb osc_max_notification_bytes (length bytes)
