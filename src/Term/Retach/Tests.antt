-- ===== src/Term/Retach/Tests.antt =====
-- crates/octty-term/src/retach.rs: the theorems at concrete sessions, and the program's own tests.
use package.octty.Base.{
  ℕ, zero, suc, ◌+◌, ◌<◌, leb, ◌==◌, if◌then◌else◌, Bool, true, false, ◌⊎◌, inl, inr, Option, none,
  some, Text, codes, List, [], ◌∷◌, ◌++◌, All, ◌≡◌, ◌↔◌, refl, arith,
}
use package.octty.Base.Bytes.{utf8}
use octty.Core.Types.{shell, restart_manually, InnerSessionHandler}
use octty.Term.Retach.{
  Result, ok, err, ClientMsg, ServerMsg, connected, screen_update, session_killed,
  TerminalSessionSpec,
}
use octty.Term.Retach.Frames.{FrameReader, new, Read, bytes, Flow, go_on, encode}
use octty.Term.Retach.Frames.Laws.{front}
use octty.Term.Retach.Frames.Stream.{received, received-wire}
use octty.Term.Retach.Frames.Wire.{wire}
use octty.Term.Retach.Command.{Environment}
use octty.Term.Retach.Ansi.{ansi_visible_text}
use octty.Term.Retach.Ansi.Pieces.{plain, control, command, ansi_visible_text-render}
use octty.Term.Retach.Ansi.Utf8.{ansi_visible_text-utf8}
use octty.Term.Retach.Server.{
  Outside, Reply, ensure_retach_server_running, server_timed_out, read_loop, read_fuel, read_frames,
}
use octty.Term.Retach.Server.Starting.{IsAccepted, attempt, ensure_retach_server_running-waits}
use octty.Term.Retach.Server.Reading.{read_loop_total}
use octty.Term.Retach.Sessions.{retach_key_bytes, retach_missing_target}

abbrev bare : Environment
bare = record { var = λ _. none; sibling = none; id_output = none }

-- A server in memory: what it will send, what it was sent, a clock, and how often it still refuses.
record Net : Type 0 where
  replies : List Read
  sent : List (List ℕ)
  time : ℕ
  refusing : ℕ

abbrev pop : Net → Read × Net
pop w = elim w.replies [ [] ↦ (bytes [], w) | r ∷ rs ↦ (r, record w { replies = rs }) ]

abbrev decoded_byte : List ℕ → Text ⊎ ServerMsg
decoded_byte [] = inl (codes "empty")
decoded_byte (b ∷ rest) =
    if b == 0
    then inr (connected rest false)
    else if b == 1
    then inr (screen_update rest)
    else if b == 2
    then inr (session_killed rest)
    else inr (ServerMsg.error rest)

abbrev message_byte : ClientMsg → ℕ
message_byte ClientMsg.detach = 1
message_byte (ClientMsg.kill_session name) = 2
message_byte _ = 0

abbrev accept : ℕ → Net → Reply Net (Unit {0})
accept zero w = inr (tt, w)
accept (suc n) w = inl (codes "refused", record w { refusing = n })

abbrev timed : Bool → Net → Option Read × Net
timed true w = (none, w)
timed false w = (some (pop w).0, record (pop w).1 { time = w.time + 100 })

abbrev server : Outside
server = record {
  World = Net;
  Stream = Unit {0};
  environment = bare;
  connect = λ path w. accept w.refusing w;
  write_all = λ stream frame w. inr (tt, record w { sent = w.sent ++ (frame ∷ []) });
  read = λ stream w. pop w;
  read_until = λ deadline stream w. timed (leb deadline w.time) w;
  now_ms = λ w. (w.time, w);
  create_dir_all = λ path w. inr (tt, w);
  spawn_server = λ program w. inr (tt, w);
  sleep_ms = λ ms w. record w { time = w.time + ms };
  serialize = λ msg. inr (message_byte msg ∷ []);
  deserialize = decoded_byte;
}

abbrev net : List Read → ℕ → Net
net replies refusing = record { replies = replies; sent = []; time = 0; refusing = refusing }

-- Two messages and the beginning of a third, in three pieces.
received-wire_example :
    received inr inr new [] (
      (0 ∷ (0 ∷ [])) ∷ ((0 ∷ (2 ∷ (7 ∷ []))) ∷ ((8 ∷ (0 ∷ (0 ∷ (0 ∷ (1 ∷ (9 ∷ (0 ∷ []))))))) ∷ [])))
    ≡ some (ok ((7 ∷ (8 ∷ [])) ∷ ((9 ∷ []) ∷ [])))
received-wire_example =
    received-wire inr inr ((7 ∷ (8 ∷ [])) ∷ ((9 ∷ []) ∷ [])) (0 ∷ [])
      ((0 ∷ (0 ∷ []))
        ∷ ((0 ∷ (2 ∷ (7 ∷ []))) ∷ ((8 ∷ (0 ∷ (0 ∷ (0 ∷ (1 ∷ (9 ∷ (0 ∷ []))))))) ∷ [])))
      (unfold wire encode in refl) (omega arith)
      ((_, refl, refl, omega arith), ((_, refl, refl, omega arith), tt)) (unfold front in refl)

abbrev keep_all : List ℕ → List (List ℕ) → Flow (List (List ℕ)) Text
keep_all m got = go_on (m ∷ got)

abbrev two_frames : FrameReader
two_frames = record { read_buf = 0 ∷ (0 ∷ (0 ∷ (1 ∷ (7 ∷ (0 ∷ (0 ∷ [])))))); offset = 0 }

ansi_visible_text-render_example :
    ansi_visible_text (codes "a\u{1b}[1mb\u{1b}]0;t\u{7}c") ≡ codes "abc"
ansi_visible_text-render_example =
    ansi_visible_text-render
      (plain (codes "a")
        ∷ (control (codes "1") b'm'
            ∷ (plain (codes "b") ∷ (command (codes "0;t") true ∷ (plain (codes "c") ∷ [])))))
      ((refl, tt), (((refl, tt), refl), ((refl, tt), (omega arith, ((refl, tt), tt)))))

ansi_visible_text-utf8_example :
    (ansi_visible_text (utf8 (0xe9 ∷ [])) ≡ utf8 (0xe9 ∷ []))
    × ((ansi_visible_text (utf8 (0xe9 ∷ [])) ≡ 0xe9 ∷ []) ↔ All (λ c. c < 0x80) (0xe9 ∷ []))
ansi_visible_text-utf8_example = ansi_visible_text-utf8 (0xe9 ∷ []) (omega arith)

abbrev codex_spec : TerminalSessionSpec
codex_spec = record {
  workspace_id = codes "workspace-1";
  pane_id = codes "pane-1";
  kind = shell;
  cwd = codes "/tmp/repo";
  command = codes "codex";
  command_parameters = codes "--flag" ∷ (codes "two words" ∷ []);
  inner_session_handler = InnerSessionHandler.none;
  inner_session_id = none;
  on_exit = restart_manually;
  cols = 80;
  rows = 24;
}

ensure_retach_server_running-waits_example :
    ((k : ℕ)
      → k < 50
      → IsAccepted server (attempt server k (net [] 2))
      → (ensure_retach_server_running server (net [] 3)).0 ≡ ok tt)
    × (((k : ℕ) → k < 50 → ¬ IsAccepted server (attempt server k (net [] 2)))
        → (ensure_retach_server_running server (net [] 3)).0 ≡ err server_timed_out)
ensure_retach_server_running-waits_example =
    ensure_retach_server_running-waits server (net [] 3) (net [] 2) (net [] 2) (net [] 2)
      (codes "refused") refl refl refl

read_loop_total_example :
    (d : Result (ServerMsg × FrameReader) × Net) × (read_loop server read_fuel tt new
        (net (bytes (0 ∷ (0 ∷ [])) ∷ []) 0)
      ≡ some d)
    × (read_frames server tt (net (bytes (0 ∷ (0 ∷ [])) ∷ []) 0) ≡ d)
read_loop_total_example = read_loop_total server tt (net (bytes (0 ∷ (0 ∷ [])) ∷ []) 0)

abbrev killed : Net
killed = net (bytes (0 ∷ (0 ∷ (0 ∷ (1 ∷ (2 ∷ []))))) ∷ []) 0

key_bytes : retach_key_bytes (codes "C-j") ≡ 10 ∷ []
unfolding retach_key_bytes
key_bytes = refl

missing_targets :
    (retach_missing_target (codes "session 'abc' not found") ≡ true)
    × (retach_missing_target (codes "session doesn't exist") ≡ true)
    × (retach_missing_target (codes "permission denied") ≡ false)
unfolding retach_missing_target
missing_targets = (refl, refl, refl)

captured_text :
    ansi_visible_text (codes "\u{1b}[2J\u{1b}[Hhello\r\n\u{1b}]0;title\u{7}world")
    ≡ codes "hello\nworld"
unfolding ansi_visible_text
captured_text = refl
