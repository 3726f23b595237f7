-- ===== src/Term/Osc/Parser.antt =====
-- crates/octty-term/src/live_notifications.rs: `TerminalOscNotificationParser`, with the loop of
-- `push` as recursion on the bytes of a chunk of output.
pub mod Sequence
use octty.Base.{
  ℕ, ◌+◌, Bool, true, false, not, leb, ◌==◌, Option, none, some, List, [], ◌∷◌, ◌++◌, length,
}
use octty.Base.{if◌then◌else◌}
use octty.Term.Notify.{TerminalNotification, parse_terminal_osc_notification}
use octty.Term.Osc.{
  TerminalOscParseState, ground, escape, osc, osc_escape, osc_max_notification_bytes, esc, bel,
  full,
}

pub record TerminalOscNotificationParser : Type 0 where
  pub state : TerminalOscParseState
  pub data_bytes : List ℕ

unfoldable pub push_osc_byte : TerminalOscNotificationParser → ℕ → TerminalOscNotificationParser
push_osc_byte p byte =
    if full p.data_bytes
    then record { state = ground; data_bytes = [] }
    else record p { data_bytes = p.data_bytes ++ (byte ∷ []) }

unfoldable pub finish_sequence :
    TerminalOscNotificationParser → TerminalOscNotificationParser × Option TerminalNotification
finish_sequence p =
    (record { state = ground; data_bytes = [] }, parse_terminal_osc_notification p.data_bytes)

-- `push_byte` in the state of an escape inside a sequence, for a byte that does not end it.
abbrev resume_osc : TerminalOscNotificationParser → ℕ → TerminalOscNotificationParser
resume_osc p byte =
    let escaped = push_osc_byte p esc in
    if byte == esc
    then record escaped { state = osc_escape }
    else record (push_osc_byte escaped byte) { state = osc }

abbrev push_in :
    TerminalOscParseState
    → TerminalOscNotificationParser
    → ℕ
    → TerminalOscNotificationParser × Option TerminalNotification
push_in ground p byte = (if byte == esc then record p { state = escape } else p, none)
push_in escape p byte = (
  if byte == b']'
      then record { state = osc; data_bytes = [] }
      else if byte == esc
      then p
      else record p { state = ground },
  none,
)
push_in osc p byte =
    if byte == bel
    then finish_sequence p
    else (if byte == esc then record p { state = osc_escape } else push_osc_byte p byte, none)
push_in osc_escape p byte = if byte == b'\\' then finish_sequence p else (resume_osc p byte, none)

unfoldable pub push_byte :
    TerminalOscNotificationParser → ℕ → TerminalOscNotificationParser × Option TerminalNotification
unfolding push_osc_byte finish_sequence
push_byte p byte = push_in p.state p byte

abbrev pub noted :
    Option TerminalNotification → List TerminalNotification → List TerminalNotification
noted none rest = rest
noted (some n) rest = n ∷ rest

-- `push`: the notifications of a chunk of output, in order.
unfoldable pub push :
    TerminalOscNotificationParser
    → List ℕ
    → TerminalOscNotificationParser × List TerminalNotification
push p [] = (p, [])
push p (byte ∷ bytes) =
    let (p', n) = push_byte p byte in let (q, rest) = push p' bytes in (q, noted n rest)
