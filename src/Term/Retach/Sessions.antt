-- ===== src/Term/Retach/Sessions.antt =====
-- crates/octty-term/src/retach.rs: the calls on sessions, each of them over a connection of its own.
use package.octty.Base.{
  ℕ, ◌%◌, if◌then◌else◌, Bool, true, false, ◌||◌, Option, none, some, option_map, unwrap_or, Text,
  codes, text_eq, starts_with, contains, List, [], ◌∷◌, ◌++◌, any, find, flat, map, get_elem?,
  lower,
}
use package.octty.Base.Bytes.{utf8}
use package.octty.Base.Decimal.{show}
use octty.Term.Retach.{
  retach, ConnectMode, create_or_attach, attach_only, SpawnRequest, default_spawn_request,
  ClientMsg, RetachSessionInfo, ServerMsg, session_list, connected, session_killed,
  TerminalSessionSpec, RetachSessionActivity,
}
use octty.Term.Retach.Frames.{FrameReader}
use octty.Term.Retach.Command.{retach_history, spawn_request, stable_retach_session_name}
use octty.Term.Retach.Server.{
  Outside, M, ◌>>=◌, ◌>>◌, return, fail, ignoring, requested, read_one_message, read_frames,
  write_message, unexpected_response,
}

unfoldable pub retach_missing_target : Text → Bool
unfolding contains
retach_missing_target message =
    contains message (codes "not found") || contains message (codes "doesn't exist")

abbrev pub escaped_bytes : Text → List ℕ
escaped_bytes t = 0x1b ∷ t

abbrev pub key_table : List (Text × List ℕ)
key_table =
    (codes "Enter", 13 ∷ [])
    ∷ ((codes "BSpace", 0x7f ∷ [])
        ∷ ((codes "Delete", escaped_bytes (codes "[3~"))
            ∷ ((codes "Tab", 9 ∷ [])
                ∷ ((codes "Escape", 0x1b ∷ [])
                    ∷ ((codes "Left", escaped_bytes (codes "[D"))
                        ∷ ((codes "Right", escaped_bytes (codes "[C"))
                            ∷ ((codes "Up", escaped_bytes (codes "[A"))
                                ∷ ((codes "Down", escaped_bytes (codes "[B"))
                                    ∷ ((codes "Home", escaped_bytes (codes "[H"))
                                        ∷ ((codes "End", escaped_bytes (codes "[F"))
                                            ∷ ((codes "PageUp", escaped_bytes (codes "[5~"))
                                                ∷ ((codes "PageDown", escaped_bytes (codes "[6~"))
                                                    ∷ ((codes "Insert", escaped_bytes (codes "[2~"))
                                                        ∷ function_keys)))))))))))))
  where
    function_keys : List (Text × List ℕ)
    function_keys =
        (codes "F1", escaped_bytes (codes "OP"))
        ∷ ((codes "F2", escaped_bytes (codes "OQ"))
            ∷ ((codes "F3", escaped_bytes (codes "OR"))
                ∷ ((codes "F4", escaped_bytes (codes "OS"))
                    ∷ ((codes "F5", escaped_bytes (codes "[15~"))
                        ∷ ((codes "F6", escaped_bytes (codes "[17~"))
                            ∷ ((codes "F7", escaped_bytes (codes "[18~"))
                                ∷ ((codes "F8", escaped_bytes (codes "[19~"))
                                    ∷ ((codes "F9", escaped_bytes (codes "[20~"))
                                        ∷ ((codes "F10", escaped_bytes (codes "[21~"))
                                            ∷ ((codes "F11", escaped_bytes (codes "[23~"))
                                                ∷ ((codes "F12", escaped_bytes (codes "[24~"))
                                                    ∷ [])))))))))))

abbrev pub lookup_bytes : Text → List (Text × List ℕ) → Option (List ℕ)
lookup_bytes key [] = none
lookup_bytes key ((name, bytes) ∷ rows) =
    if text_eq key name then some bytes else lookup_bytes key rows

-- `byte.to_ascii_lowercase() & 0x1f` of the third byte, if there is one.
abbrev pub control_byte : Option ℕ → List ℕ
control_byte none = []
control_byte (some b) = lower b % 32 ∷ []

abbrev pub other_key_bytes : Text → List ℕ
other_key_bytes key =
    if starts_with key (codes "C-") then control_byte (get_elem? (utf8 key) 2) else utf8 key

unfoldable pub retach_key_bytes : Text → List ℕ
unfolding text_eq starts_with utf8 lower
retach_key_bytes key = unwrap_or (lookup_bytes key key_table) (other_key_bytes key)

abbrev pub activity_of : RetachSessionInfo → RetachSessionActivity
activity_of session = record {
  session_name = session.name;
  session_activity_at_s = none;
  window_activity_at_s = none;
  window_activity_flag = false;
  pane_dead = false;
  pane_dead_status = none;
  pane_current_command = some (codes "pid:" ++ show session.pid);
}

module _ (o : Outside) where
  open o use {World, Stream, environment}

  abbrev pub list_answer : ServerMsg → M World (List RetachSessionInfo)
  list_answer (session_list sessions) = return sessions
  list_answer (ServerMsg.error message) = fail (retach message)
  list_answer _ = fail unexpected_response

  unfoldable pub retach_sessions : M World (List RetachSessionInfo)
  retach_sessions = do
    stream ← requested o ClientMsg.list_sessions
    answer ← read_one_message o stream
    list_answer answer

  unfoldable pub retach_session_exists : Text → M World Bool
  unfolding retach_sessions
  retach_session_exists session_name = do
    sessions ← retach_sessions
    return (any (λ session. text_eq session.name session_name) sessions)

  unfoldable pub retach_session_activity : Text → M World (Option RetachSessionActivity)
  unfolding retach_sessions
  retach_session_activity session_name = do
    sessions ← retach_sessions
    return (option_map activity_of (find (λ session. text_eq session.name session_name) sessions))

  abbrev pub connect_answer : Stream → FrameReader → ServerMsg → M World (Stream × FrameReader)
  connect_answer stream frames (connected name new_session) = return (stream, frames)
  connect_answer stream frames (ServerMsg.error message) = fail (retach message)
  connect_answer stream frames _ = fail unexpected_response

  unfoldable pub connect_retach_session :
      Text → ℕ → ℕ → ConnectMode → SpawnRequest → M World (Stream × FrameReader)
  connect_retach_session session_name cols rows mode spawn = do
    stream ← requested o (
        ClientMsg.connect (record {
          name = session_name;
          history = retach_history environment;
          cols = cols;
          rows = rows;
          mode = mode;
          spawn = spawn;
        }))
    received ← read_frames o stream
    connect_answer stream received.1 received.0

  abbrev pub started : TerminalSessionSpec → Bool → M World Text
  started spec true = return (stable_retach_session_name spec)
  started spec false = do
    connection ←
        connect_retach_session (stable_retach_session_name spec) spec.cols spec.rows
          create_or_attach (spawn_request environment spec)
    ignoring (write_message o connection.0 ClientMsg.detach)
    return (stable_retach_session_name spec)

  unfoldable pub ensure_retach_session : TerminalSessionSpec → M World Text
  unfolding retach_session_exists connect_retach_session
  ensure_retach_session spec = do
    exists ← retach_session_exists (stable_retach_session_name spec)
    started spec exists

  -- A message to a session that is there, and the end of the connection.
  abbrev pub attached_send : Text → ℕ → ℕ → ClientMsg → M World (Unit {0})
  attached_send session_name cols rows msg = do
    connection ← connect_retach_session session_name cols rows attach_only default_spawn_request
    write_message o connection.0 msg
    write_message o connection.0 ClientMsg.detach

  unfoldable pub send_retach_bytes_to_session : Text → List ℕ → M World (Unit {0})
  unfolding connect_retach_session
  send_retach_bytes_to_session session_name bytes =
      attached_send session_name 120 40 (ClientMsg.input bytes)

  unfoldable pub send_retach_text_to_session : Text → Text → M World (Unit {0})
  unfolding send_retach_bytes_to_session
  send_retach_text_to_session session_name text =
      send_retach_bytes_to_session session_name (utf8 text)

  unfoldable pub send_retach_keys_to_session : Text → List Text → M World (Unit {0})
  unfolding send_retach_bytes_to_session retach_key_bytes
  send_retach_keys_to_session session_name keys =
      send_retach_bytes_to_session session_name (flat (map retach_key_bytes keys))

  unfoldable pub send_retach_text : TerminalSessionSpec → Text → M World (Unit {0})
  unfolding ensure_retach_session send_retach_text_to_session
  send_retach_text spec text = do
    session_name ← ensure_retach_session spec
    send_retach_text_to_session session_name text

  unfoldable pub send_retach_keys : TerminalSessionSpec → List Text → M World (Unit {0})
  unfolding ensure_retach_session send_retach_keys_to_session
  send_retach_keys spec keys = do
    session_name ← ensure_retach_session spec
    send_retach_keys_to_session session_name keys

  unfoldable pub send_retach_enter : TerminalSessionSpec → M World (Unit {0})
  unfolding send_retach_keys
  send_retach_enter spec = send_retach_keys spec (codes "Enter" ∷ [])

  unfoldable pub resize_retach_session : TerminalSessionSpec → ℕ → ℕ → M World (Unit {0})
  unfolding ensure_retach_session connect_retach_session
  resize_retach_session spec cols rows = do
    session_name ← ensure_retach_session spec
    attached_send session_name cols rows (ClientMsg.resize cols rows)

  abbrev pub kill_answer : ServerMsg → M World (Unit {0})
  kill_answer (session_killed name) = return tt
  kill_answer (ServerMsg.error message) =
      if retach_missing_target message then return tt else fail (retach message)
  kill_answer _ = fail unexpected_response

  unfoldable pub kill_retach_session : Text → M World (Unit {0})
  kill_retach_session session_name = do
    stream ← requested o (ClientMsg.kill_session session_name)
    answer ← read_one_message o stream
    kill_answer answer
