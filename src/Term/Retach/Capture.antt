-- ===== src/Term/Retach/Capture.antt =====
-- crates/octty-term/src/retach.rs: the capture of a screen, which ends with the time that it has.
pub mod Ending
use package.octty.Base.{
  ℕ, zero, suc, ◌+◌, leb, if◌then◌else◌, Bool, true, false, ◌||◌, Option, none, some, unwrap_or,
  Text, List, [], ◌∷◌, ◌++◌, length,
}
use octty.Term.Retach.{
  Result, ok, err, retach, attach_only, default_spawn_request, ClientMsg, ServerMsg, screen_update,
  history, session_ended, TerminalSessionSpec,
}
use octty.Term.Retach.Frames.{FrameReader, Read, fill_from, Flow, go_on, stop, drain}
use octty.Term.Retach.Frames.Laws.{unread}
use octty.Term.Retach.Ansi.{ansi_visible_text}
use octty.Term.Retach.Server.{Outside, M, after, ◌>>=◌, ◌>>◌, return, fail, ignoring, write_message}
use octty.Term.Retach.Sessions.{connect_retach_session, ensure_retach_session}

-- The variables of the loop: the text so far, and whether an update of the screen was seen.
pub record Screen : Type 0 where
  pub text : Text
  pub saw_screen : Bool

abbrev pub history_text : List (List ℕ) → Text
history_text [] = []
history_text (line ∷ lines) = ansi_visible_text line ++ (10 ∷ history_text lines)

abbrev pub show_message : ServerMsg → Screen → Flow Screen Text
show_message (history lines) s = go_on (record s { text = s.text ++ history_text lines })
show_message (screen_update bytes) s =
    go_on (record { text = s.text ++ ansi_visible_text bytes; saw_screen = true })
show_message (ServerMsg.error message) s = stop (err (retach message))
show_message session_ended s = stop (ok s.text)
show_message _ s = go_on s

abbrev pub control_read_timeout_ms : ℕ
control_read_timeout_ms = 250

module _ (o : Outside) where
  open o use {World, Stream, deserialize, now_ms, read_until}

  -- None if the fuel runs out.
  abbrev pub Captured : Type 0
  Captured = Option (Result Text × World)

  abbrev pub finished : Stream → Screen → World → Captured
  finished stream s w =
      some ((do ignoring (write_message o stream ClientMsg.detach); return s.text) w)

  abbrev pub after_fill :
      (FrameReader → World → Captured)
      → Stream
      → Screen
      → Result Bool × FrameReader
      → World
      → Captured
  after_fill next stream s (err e, r) w = some (err e, w)
  after_fill next stream s (ok false, r) w = finished stream s w
  after_fill next stream s (ok true, r) w = next r w

  abbrev pub after_read :
      (FrameReader → World → Captured)
      → Stream
      → Screen
      → FrameReader
      → Option Read × World
      → Captured
  after_read next stream s r (none, w) = finished stream s w
  after_read next stream s r (some rd, w) = after_fill next stream s (fill_from rd r) w

  abbrev pub wait_for_more :
      (FrameReader → World → Captured) → Stream → ℕ → Screen → FrameReader → World → Captured
  wait_for_more next stream deadline s r w =
      if s.saw_screen
      then finished stream s w
      else if leb deadline (now_ms w).0
      then finished stream s (now_ms w).1
      else after_read next stream s r (read_until deadline stream (now_ms w).1)

  abbrev pub after_drain :
      (FrameReader → Screen → World → Captured)
      → Stream
      → ℕ
      → Option (Flow Screen Text × FrameReader)
      → World
      → Captured
  after_drain next stream deadline none w = none
  after_drain next stream deadline (some (stop answer, r)) w = some (answer, w)
  after_drain next stream deadline (some (go_on s, r)) w =
      wait_for_more (λ r' w'. next r' s w') stream deadline s r w

  -- One round decodes what is there and then waits for more.
  unfoldable pub capture_loop : ℕ → Stream → ℕ → FrameReader → Screen → World → Captured
  capture_loop zero stream deadline r s w = none
  capture_loop (suc fuel) stream deadline r s w =
      after_drain (capture_loop fuel stream deadline) stream deadline
        (drain deserialize show_message (suc (length (unread r))) r s) w

  abbrev captured_from : ℕ → Stream × FrameReader → World → Captured
  captured_from fuel (stream, frames) w =
      capture_loop fuel stream ((now_ms w).0 + control_read_timeout_ms) frames
        (record { text = []; saw_screen = false }) (now_ms w).1

  abbrev after_connect : ℕ → Result (Stream × FrameReader) × World → Captured
  after_connect fuel (err e, w) = some (err e, w)
  after_connect fuel (ok connection, w) = captured_from fuel connection w

  unfoldable pub capture_retach_pane_by_session_with_size : ℕ → Text → ℕ → ℕ → World → Captured
  unfolding capture_loop
  capture_retach_pane_by_session_with_size fuel session_name cols rows w =
      after_connect fuel
        (connect_retach_session o session_name cols rows attach_only default_spawn_request w)

  unfoldable pub capture_retach_pane_by_session : ℕ → Text → World → Captured
  unfolding capture_retach_pane_by_session_with_size
  capture_retach_pane_by_session fuel session_name =
      capture_retach_pane_by_session_with_size fuel session_name 120 40

  abbrev after_ensure : ℕ → ℕ → ℕ → Result Text × World → Captured
  after_ensure fuel cols rows (err e, w) = some (err e, w)
  after_ensure fuel cols rows (ok session_name, w) =
      capture_retach_pane_by_session_with_size fuel session_name cols rows w

  unfoldable pub capture_retach_pane : ℕ → TerminalSessionSpec → World → Captured
  unfolding capture_retach_pane_by_session_with_size
  capture_retach_pane fuel spec w =
      after_ensure fuel spec.cols spec.rows (ensure_retach_session o spec w)
