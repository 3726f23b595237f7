-- ===== src/Term/Retach.antt =====
-- crates/octty-term/src/retach.rs and the session types of lib.rs: the messages between the
-- application and the retach server, and how the calls fail.
pub mod Frames
pub mod Command
pub mod Ansi
pub mod Server
pub mod Sessions
pub mod Capture
pub mod Tests
use package.octty.Base.{ℕ, ℤ, Text, Bool, Option, List, none, []}
use octty.Core.Types.{TerminalKind, TerminalExitBehavior, InnerSessionHandler}

pub data TerminalError : Type 0 where
  io retach pty renderer : Text → TerminalError

pub data Result {ℓ} (A : Type ℓ) : Type ℓ where
  ok : A → Result A
  err : TerminalError → Result A

pub data ConnectMode : Type 0 where
  create_or_attach create_only attach_only : ConnectMode

pub record SpawnRequest : Type 0 where
  pub cwd : Option Text
  pub command : List Text

-- `SpawnRequest::default()`
abbrev pub default_spawn_request : SpawnRequest
default_spawn_request = record { cwd = none; command = [] }

pub record ConnectRequest : Type 0 where
  pub name : Text
  pub history : ℕ
  pub cols : ℕ
  pub rows : ℕ
  pub mode : ConnectMode
  pub spawn : SpawnRequest

pub data ClientMsg : Type 0 where
  input : List ℕ → ClientMsg
  resize : (cols rows : ℕ) → ClientMsg
  detach list_sessions : ClientMsg
  connect : ConnectRequest → ClientMsg
  kill_session : (name : Text) → ClientMsg
  refresh_screen : ClientMsg

pub record RetachSessionInfo : Type 0 where
  pub name : Text
  pub pid : ℕ
  pub cols : ℕ
  pub rows : ℕ

pub data ServerMsg : Type 0 where
  screen_update : List ℕ → ServerMsg
  history : List (List ℕ) → ServerMsg
  session_list : List RetachSessionInfo → ServerMsg
  session_ended : ServerMsg
  error : Text → ServerMsg
  connected : (name : Text) (new_session : Bool) → ServerMsg
  session_killed : (name : Text) → ServerMsg
  passthrough : List ℕ → ServerMsg

pub record TerminalSessionSpec : Type 0 where
  pub workspace_id : Text
  pub pane_id : Text
  pub kind : TerminalKind
  pub cwd : Text
  pub command : Text
  pub command_parameters : List Text
  pub inner_session_handler : InnerSessionHandler
  pub inner_session_id : Option Text
  pub on_exit : TerminalExitBehavior
  pub cols : ℕ
  pub rows : ℕ

-- The map `clean_env`, which is always empty, is left out.
pub record RetachLaunch : Type 0 where
  pub program : Text
  pub session_name : Text
  pub args : List Text

pub record RetachSessionActivity : Type 0 where
  pub session_name : Text
  pub session_activity_at_s : Option ℤ
  pub window_activity_at_s : Option ℤ
  pub window_activity_flag : Bool
  pub pane_dead : Bool
  pub pane_dead_status : Option ℤ
  pub pane_current_command : Option Text
