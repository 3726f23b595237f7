-- ===== src/App/Flush/Tests.antt =====
-- crates/octty-app/src/app_panes.rs and terminal_lifecycle.rs: a terminal in memory, and a server that
-- takes a key and then closes the connection.
use octty.Base.{
  ℕ, pos, true, false, ◌⊎◌, inl, inr, Option, none, some, Text, codes, List, [], ◌∷◌, map, ◌≡◌,
  refl,
}
use octty.Core.Types.{
  TerminalPanePayload, terminal, PaneType, WorkspaceSummary, WorkspaceSnapshot,
  default_workspace_status, TerminalKind, InnerSessionHandler, SessionState, TerminalExitBehavior,
}
use octty.Term.Keyboard.{character, LiveTerminalKeyInput}
use octty.Term.Retach.{ServerMsg, connected}
use octty.Term.Retach.Frames.{Read, bytes}
use octty.Term.Retach.Server.{Outside, return}
use octty.App.Flush.{PendingTerminalInput, App, apply_terminal_flush_snapshots, step_at}
use octty.App.Flush.Ordered.{
  Event, types, task_step, shows, run, typed, inputs, idle, IsFlushed, run-IsFlushed,
}
use octty.App.Flush.Kept.{Keeps, apply_terminal_flush_snapshots-Keeps}
use octty.App.Flush.Sending.{Store}

abbrev payload : TerminalPanePayload
payload = record {
  kind = TerminalKind.shell;
  shell_type = codes "shell";
  inner_session_handler = InnerSessionHandler.none;
  inner_session_id = none;
  session_id = some (codes "s");
  session_state = SessionState.live;
  cwd = codes "/ws";
  command = [];
  command_parameters = [];
  on_exit = TerminalExitBehavior.close;
  default_width_chars = 80;
  exit_code = none;
  auto_start = true;
  restored_buffer = [];
  embedded_session = none;
  embedded_session_correlation_id = none;
  agent_attention_state = none;
}

abbrev workspace : WorkspaceSummary
workspace = record {
  id = codes "w";
  root_id = codes "root";
  root_path = codes "/r";
  project_display_name = codes "r";
  workspace_name = codes "w";
  display_name = codes "w";
  workspace_path = codes "/ws";
  status = default_workspace_status;
  created_at = pos 1;
  updated_at = pos 1;
  last_opened_at = pos 1;
}

abbrev snapshot : WorkspaceSnapshot ℕ
snapshot = record {
  layout_version = 1;
  workspace_id = codes "w";
  active_pane_id = some (codes "p");
  panes =
      (
        codes "p",
        record {
          id = codes "p";
          pane_type = PaneType.shell;
          title = codes "Shell";
          payload = terminal payload;
        },
      )
      ∷ [];
  columns = [];
  center_column_ids = [];
  pinned_left_column_id = none;
  pinned_right_column_id = none;
  updated_at = pos 1;
}

abbrev key_a : LiveTerminalKeyInput
key_a = record {
  key = character b'a';
  text = some (codes "a");
  modifiers = record { shift = false; alt = false; control = false; platform = false };
  unshifted = b'a';
}

abbrev waiting_key : PendingTerminalInput ℕ
waiting_key = record {
  workspace = workspace;
  snapshot = snapshot;
  pane_id = codes "p";
  payload = payload;
  input = key_a;
}

abbrev events : List (Event ℕ)
events =
    shows (some workspace) (some snapshot) []
    ∷ (types key_a (pos 2) ∷ (task_step 0 none (λ n. pos n) ∷ (types key_a (pos 3) ∷ [])))

run-IsFlushed_example :
    IsFlushed (typed events idle) (run events idle)
    × (inputs (step_at 0 none (λ n. pos n) (step_at 0 none (λ n. pos n) (run events idle))).handed
        ≡ typed events idle)
run-IsFlushed_example = run-IsFlushed events none none (λ n. pos n) (λ n. pos n)

abbrev app : App ℕ
app = record {
  active_workspace = some workspace;
  active_snapshot = some snapshot;
  live_terminals = [];
  pending_terminal_inputs = waiting_key ∷ [];
  terminal_flush_active = true;
  tasks = [];
  handed = [];
}

apply_terminal_flush_snapshots-Keeps_example :
    (shown : WorkspaceSnapshot ℕ) × (apply_terminal_flush_snapshots (λ n. pos n) (snapshot ∷ []) app
      ≡ record app { active_snapshot = some shown })
    × Keeps (codes "p" ∷ []) snapshot shown
apply_terminal_flush_snapshots-Keeps_example =
    apply_terminal_flush_snapshots-Keeps (λ n. pos n) (snapshot ∷ []) app snapshot refl

abbrev received : List (List ℕ) → Read × List (List ℕ)
received [] = (bytes [], [])
received (piece ∷ pieces) = (bytes piece, pieces)

abbrev server : Outside
server = record {
  World = List (List ℕ);
  Stream = Unit {0};
  environment = record { var = λ _. none; sibling = none; id_output = none };
  connect = λ path w. inr (tt, w);
  write_all = λ stream frame w. inr (tt, w);
  read = λ stream w. received w;
  read_until = λ deadline stream w. (some (received w).0, (received w).1);
  now_ms = λ w. (0, w);
  create_dir_all = λ path w. inr (tt, w);
  spawn_server = λ program w. inr (tt, w);
  sleep_ms = λ ms w. w;
  serialize = λ msg. inr [];
  deserialize = λ payload. inr (connected payload false);
}

abbrev store : Store (List (List ℕ)) ℕ
store = record {
  upsert_session_state = λ session. return tt;
  save_snapshot = λ snapshot. return tt;
  clock = λ w. (pos 5, w);
}

abbrev pictures : List (WorkspaceSnapshot ℕ)
pictures = record snapshot { updated_at = pos 5 } ∷ []
