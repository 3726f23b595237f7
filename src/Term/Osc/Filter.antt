-- ===== src/Term/Osc/Filter.antt =====
-- crates/octty-term/src/live_notifications.rs: `TerminalOscPassthroughFilter`. Each step returns
-- the filter and the bytes that the source adds to `output`.
pub mod Stream
use octty.Base.{
  ℕ, ◌+◌, Bool, true, false, not, leb, ◌==◌, Option, none, some, List, [], ◌∷◌, ◌++◌, length,
}
use octty.Base.{if◌then◌else◌}
use octty.Term.Notify.{should_strip_terminal_osc_sequence}
use octty.Term.Osc.{
  TerminalOscParseState, ground, escape, osc, osc_escape, osc_max_notification_bytes, esc, bel,
  full,
}

pub record TerminalOscPassthroughFilter : Type 0 where
  pub state : TerminalOscParseState
  pub data_bytes : List ℕ
  pub sequence : List ℕ

-- The filter at rest.
abbrev pub at_rest : TerminalOscPassthroughFilter
at_rest = record { state = ground; data_bytes = []; sequence = [] }

-- Each step returns the filter and what it puts out.
unfoldable pub push_osc_byte :
    TerminalOscPassthroughFilter → ℕ → TerminalOscPassthroughFilter × List ℕ
push_osc_byte f byte = if full f.data_bytes then (at_rest, f.sequence) else (
  record f { sequence = f.sequence ++ (byte ∷ []); data_bytes = f.data_bytes ++ (byte ∷ []) },
  [],
)

-- The sequence has its last byte already.
unfoldable pub finish_sequence :
    TerminalOscPassthroughFilter → TerminalOscPassthroughFilter × List ℕ
finish_sequence f =
    (at_rest, if should_strip_terminal_osc_sequence f.data_bytes then [] else f.sequence)

abbrev with_byte : TerminalOscPassthroughFilter → ℕ → TerminalOscPassthroughFilter
with_byte f byte = record f { sequence = f.sequence ++ (byte ∷ []) }

abbrev pub push_in :
    TerminalOscParseState → TerminalOscPassthroughFilter → ℕ → TerminalOscPassthroughFilter × List ℕ
push_in ground f byte =
    if byte == esc then (record f { sequence = byte ∷ []; state = escape }, []) else (f, byte ∷ [])
push_in escape f byte =
    if byte == b']'
    then (record (with_byte f byte) { data_bytes = []; state = osc }, [])
    else (at_rest, f.sequence ++ (byte ∷ []))
push_in osc f byte =
    if byte == bel
    then finish_sequence (with_byte f byte)
    else if byte == esc
    then (record (with_byte f byte) { state = osc_escape }, [])
    else push_osc_byte f byte
push_in osc_escape f byte =
    if byte == b'\\'
    then finish_sequence (with_byte f byte)
    else if leb osc_max_notification_bytes (length f.data_bytes + 2)
    then (at_rest, f.sequence ++ (byte ∷ []))
    else (
      record (with_byte f byte) { data_bytes = f.data_bytes ++ (esc ∷ (byte ∷ [])); state = osc },
      [],
    )

unfoldable pub push_byte : TerminalOscPassthroughFilter → ℕ → TerminalOscPassthroughFilter × List ℕ
unfolding push_osc_byte finish_sequence
push_byte f byte = push_in f.state f byte

-- `push`: what is left of a chunk of output.
unfoldable pub push : TerminalOscPassthroughFilter → List ℕ → TerminalOscPassthroughFilter × List ℕ
push f [] = (f, [])
push f (byte ∷ bytes) =
    let (f', out) = push_byte f byte in let (g, rest) = push f' bytes in (g, out ++ rest)
