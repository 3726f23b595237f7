-- ===== src/Term/Retach/Server.antt =====
-- crates/octty-term/src/retach.rs: the connection to the retach server. The sockets, the clock, the
-- start of the server and the encoding of messages (bincode) are parameters.
pub mod Reading
pub mod Starting
pub mod Success
use package.octty.Base.{
  ℕ, zero, suc, ◌+◌, if◌then◌else◌, Bool, true, false, not, ◌⊎◌, inl, inr, Option, none, some,
  unwrap_or, or_else, Text, codes, trim, is_empty, ends_with, List, [], ◌∷◌, ◌++◌,
}
use octty.Term.Retach.{
  TerminalError, io, retach, Result, ok, err, ConnectMode, SpawnRequest, ConnectRequest, ClientMsg,
  ServerMsg,
}
use octty.Term.Retach.Frames.{
  FrameReader, new, fill_from, Read, encode, decode_next, max_frame_size,
}
use octty.Term.Retach.Command.{Environment, retach_binary, retach_history}

-- A call that does not come about gives the text of its error.
abbrev pub Reply : Type 0 → Type 0 → Type 0
Reply World A = (Text × World) ⊎ (A × World)

pub record Outside : Type 1 where
  pub World : Type 0
  pub Stream : Type 0
  pub environment : Environment
  -- `UnixStream::connect`, `write_all` and `read`
  pub connect : Text → World → Reply World Stream
  pub write_all : Stream → List ℕ → World → Reply World (Unit {0})
  pub read : Stream → World → Read × World
  -- `timeout_at` of a read: none if the time is up first
  pub read_until : ℕ → Stream → World → Option Read × World
  pub now_ms : World → ℕ × World
  pub create_dir_all : Text → World → Reply World (Unit {0})
  -- the program with the argument `server`, without the variables of a terminal
  pub spawn_server : Text → World → Reply World (Unit {0})
  pub sleep_ms : ℕ → World → World
  pub serialize : ClientMsg → Text ⊎ List ℕ
  pub deserialize : List ℕ → Text ⊎ ServerMsg

abbrev pub M : Type 0 → Type 0 → Type 0
M World A = World → Result A × World

unfoldable pub after : {World A B : Type 0} → (A → M World B) → Result A × World → Result B × World
after f (ok a, w) = f a w
after f (err e, w) = (err e, w)

infixl 5 ◌>>=◌ ◌>>◌
abbrev pub ◌>>=◌ : {World A B : Type 0} → M World A → (A → M World B) → M World B
◌>>=◌ m f w = after f (m w)

abbrev pub ◌>>◌ : {World A B : Type 0} → M World A → M World B → M World B
◌>>◌ m k w = after (λ _. k) (m w)

abbrev pub return : {World A : Type 0} → A → M World A
return a w = (ok a, w)

abbrev pub fail : {World A : Type 0} → TerminalError → M World A
fail e w = (err e, w)

abbrev pub lift : {World A : Type 0} → Result A → M World A
lift r w = (r, w)

abbrev pub replied : {World A : Type 0} → (Text → TerminalError) → Reply World A → Result A × World
replied wrap (inl (e, w)) = (err (wrap e), w)
replied wrap (inr (a, w)) = (ok a, w)

-- `let _ = …`
abbrev pub ignored : {World A : Type 0} → Result A × World → Result (Unit {0}) × World
ignored (r, w) = (ok tt, w)

abbrev pub ignoring : {World A : Type 0} → M World A → M World (Unit {0})
ignoring m w = ignored (m w)

abbrev pub server_poll_max : ℕ
server_poll_max = 50

abbrev pub server_poll_interval_ms : ℕ
server_poll_interval_ms = 100

abbrev pub unexpected_response : TerminalError
unexpected_response = retach (codes "unexpected response from retach server")

abbrev pub connection_closed : TerminalError
connection_closed = retach (codes "retach server closed the connection")

abbrev pub server_timed_out : TerminalError
server_timed_out = retach (codes "timed out waiting for retach server")

-- `Path::join` of one component
abbrev pub join_path : Text → Text → Text
join_path dir name = if ends_with dir (codes "/") then dir ++ name else dir ++ (b'/' ∷ name)

abbrev pub non_empty : Option Text → Option Text
non_empty none = none
non_empty (some t) = if is_empty t then none else some t

abbrev pub trimmed : Option Text → Option Text
trimmed none = none
trimmed (some t) = some (trim t)

unfoldable pub current_uid : Environment → Text
current_uid env =
    unwrap_or (non_empty (or_else (non_empty (env.var (codes "UID"))) (trimmed env.id_output)))
      (codes "0")

abbrev pub socket_dir_in : Environment → Option Text → Text
socket_dir_in env none = codes "/tmp/retach-octty-" ++ current_uid env
socket_dir_in env (some runtime_dir) = join_path runtime_dir (codes "retach-octty")

-- The directory of the socket.
unfoldable pub retach_socket_dir : Environment → Text
retach_socket_dir env = socket_dir_in env (non_empty (env.var (codes "XDG_RUNTIME_DIR")))

unfoldable pub retach_socket_path : Environment → Text
retach_socket_path env = join_path (retach_socket_dir env) (codes "retach-octty.sock")

-- The largest frame ends the loop.
abbrev pub read_fuel : ℕ
read_fuel = max_frame_size + 4

module _ (o : Outside) where
  open o use {
    World, Stream, environment, connect, write_all, read, create_dir_all, spawn_server, sleep_ms,
    serialize, deserialize,
  }

  -- `for _ in 0..SERVER_POLL_MAX`, with the rounds that are left.
  abbrev pub poll_round : M World (Unit {0}) → Reply World Stream → Result (Unit {0}) × World
  poll_round next (inr (stream, w)) = (ok tt, w)
  poll_round next (inl (e, w)) = next w

  unfoldable pub poll_server : ℕ → M World (Unit {0})
  poll_server zero w = (err server_timed_out, w)
  poll_server (suc rounds) w =
      poll_round (poll_server rounds)
        (connect (retach_socket_path environment) (sleep_ms server_poll_interval_ms w))

  unfoldable pub start_server : M World (Unit {0})
  start_server = do
    (λ w. replied io (create_dir_all (retach_socket_dir environment) w))
    (λ w.
        replied (λ e. retach (codes "failed to start retach server: " ++ e))
          (spawn_server (retach_binary environment) w))
    poll_server server_poll_max

  abbrev pub running_or : Reply World Stream → Result (Unit {0}) × World
  running_or (inr (stream, w)) = (ok tt, w)
  running_or (inl (e, w)) = start_server w

  unfoldable pub ensure_retach_server_running : M World (Unit {0})
  unfolding start_server
  ensure_retach_server_running w = running_or (connect (retach_socket_path environment) w)

  unfoldable pub write_message : Stream → ClientMsg → M World (Unit {0})
  write_message stream msg = do
    encoded ← lift (encode serialize msg)
    (λ w. replied io (write_all stream encoded w))

  -- The loop that reads until a message is complete, which `read_one_message` and
  -- `connect_retach_session` share; none if the fuel runs out.
  abbrev pub Received : Type 0
  Received = Option (Result (ServerMsg × FrameReader) × World)

  abbrev pub after_decode :
      (FrameReader → World → Received) → Result (Option ServerMsg) × FrameReader → World → Received
  after_decode next (err e, r) w = some (err e, w)
  after_decode next (ok (some msg), r) w = some (ok (msg, r), w)
  after_decode next (ok none, r) w = next r w

  abbrev pub after_fill :
      (FrameReader → World → Received) → Result Bool × FrameReader → World → Received
  after_fill next (err e, r) w = some (err e, w)
  after_fill next (ok false, r) w = some (err connection_closed, w)
  after_fill next (ok true, r) w = after_decode next (decode_next deserialize r) w

  unfoldable pub read_loop : ℕ → Stream → FrameReader → World → Received
  read_loop zero stream r w = none
  read_loop (suc fuel) stream r w =
      after_fill (read_loop fuel stream) (fill_from (read stream w).0 r) (read stream w).1

  unfoldable pub read_frames : Stream → M World (ServerMsg × FrameReader)
  read_frames stream w = unwrap_or (read_loop read_fuel stream new w) (err connection_closed, w)

  unfoldable pub read_one_message : Stream → M World ServerMsg
  unfolding read_frames
  read_one_message stream = do received ← read_frames stream; return received.0

  -- A connection on which a request has been sent.
  unfoldable pub requested : ClientMsg → M World Stream
  unfolding write_message ensure_retach_server_running
  requested msg = do
    ensure_retach_server_running
    stream ← (λ w. replied io (connect (retach_socket_path environment) w))
    write_message stream msg
    return stream
