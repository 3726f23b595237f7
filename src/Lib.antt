-- ===== src/Lib.antt =====
-- octty: a terminal workspace application. Its crates are octty-core (domain types, pane activity and
-- pane layout), octty-jj (a client of the jj command), octty-store (a database of workspaces),
-- octty-term (live terminals) and octty-app (the window). The application reads the workspaces with
-- octty-jj, keeps them in octty-store, shows the panes of a snapshot of octty-core, sends keys to the
-- terminals of octty-term and merges the pictures that come back.
--
-- Base: names, lists, text and numbers that the parts share. Text is a list of code points, bytes are
--   numbers, `i64` is the type ℤ, `f64` the record Float of operations, a BTreeMap a sorted list of
--   pairs.
-- Core.Types, Core.Activity: crates/octty-core/src/types.rs. PaneActivity and its methods
--   (`record_activity`, `record_seen` and so on) return the new record.
-- Core.Layout: crates/octty-core/src/layout.rs. `add_pane` and `remove_pane` take the clock and the
--   counter of ids as arguments. The loop over the columns is recursion on the map.
-- Core.Shortcuts: crates/octty-core/src/shortcuts.rs.
-- Jj: crates/octty-jj/src/lib.rs. World has what the code uses from outside (processes, canonical
--   paths, the clock) and the chain of calls with errors; Parse and Classify read the output of jj;
--   Command has the calls with their retry and `read_workspace_status`; Workspaces the rest.
-- Store.Codecs: crates/octty-store/src/codecs.rs. `text` and `integer` are `decode_text` and
--   `decode_integer`.
-- Term.Notify, Term.Osc: crates/octty-term/src/live_notifications.rs. Osc.Parser is
--   TerminalOscNotificationParser, Osc.Filter is TerminalOscPassthroughFilter; a step is a function of
--   the machine and a byte, and `push` recursion on the bytes. The field `data` is `data_bytes`.
-- Term.Snapshot, Term.Keyboard: crates/octty-term/src/live_types.rs and live_input.rs.
-- Term.Retach: crates/octty-term/src/retach.rs and lib.rs. Frames is FrameReader and `encode`; Command
--   has the command lines and their quoting; Ansi the text of a screen; Server the start of the server
--   and a request with its answer; Sessions the operations on sessions; Capture the reading of a pane.
--   The network, the clock, the environment and the encoding of messages are parameters.
-- App.Keys: crates/octty-app/src/input.rs. The parts of a key event are the record KeyParts, so
--   `live_terminal_input` is `live_terminal_input_from_key_parts`, and likewise for the others.
-- App.Navigation: crates/octty-app/src/input.rs, the functions on a workspace snapshot.
-- App.Snapshots: crates/octty-app/src/terminal_state.rs. Times are nanoseconds.
-- App.Selection: crates/octty-app/src/terminal_selection.rs, with Paste and Quoting.
-- App.SidebarMenu: crates/octty-app/src/sidebar.rs.
-- App.Lifecycle: crates/octty-app/src/terminal_lifecycle.rs, the keys and the text for a session.
-- App.Flush: crates/octty-app/src/app_panes.rs and terminal_lifecycle.rs, from a typed key to the picture
--   that comes back. The tasks of `schedule_terminal_flush` are a list; Sending has
--   `flush_terminal_inputs`, whose sessions are those of Term.Retach.
-- App.Toasts: crates/octty-app/src/app_core.rs, the notices of errors. A timer is an entry of a list.
-- App.Bootstrap: crates/octty-app/src/bootstrap.rs and workspace.rs. Services is what the code asks of
--   the store, the file system and the environment, in the world of Jj; Loading has the load,
--   Directories `next_workspace_defaults`, Operations the functions that end in a load, and Names the
--   cleaning of a display name. `load` is `load_bootstrap_from_store` with the automatic seed.
-- App.Workspaces: crates/octty-app/src/app_core.rs, opening and navigating. A load is an entry of a list,
--   and `finish_load` is the end of the task. It sets the status of an error; the notice is in
--   App.Toasts.
-- App.ShellConfig: crates/octty-app/src/shell_config.rs, from the parsed configuration on.
-- App.ActivityStore: crates/octty-app/src/app_activity.rs. The tasks that save are a list, with steps
--   from one await to the next.
-- App.StatusRefresh: crates/octty-app/src/app_workspace_status.rs. The tasks that
--   `schedule_workspace_status_refresh` spawns are entries of a list, and a step runs one of them from
--   one await to the next.
--
-- Loops over data are structural recursion. These run on fuel: the digits of a number (Base.Decimal and
-- Base.Bytes), on the number itself or the sixteen digits of a hash, which is enough for every number
-- printed; the text of a screen (Term.Retach.Ansi), on the number of bytes, of which each round takes at
-- least one; the frames in a buffer (Term.Retach.Frames), on the number of bytes; the reading of an
-- answer (Term.Retach.Server), on the longest frame and four more, as each round brings a byte or ends;
-- and the capture of a pane, on the milliseconds left before its deadline and one more, as the clock
-- moves on with each read. The bounds of the fifty polls for the server and of the two hundred names for
-- a workspace are those of the code.
--
-- Not modelled: the window and its painting (GPUI), SQL and the turso database, threads, channels and
-- pseudo terminals, the terminal library ghostty, the command line, the
-- watching of files, the scan of Codex session files, and crates/retach-octty, which is a
-- copy of another program.
pub mod Base
pub mod Core
pub mod Jj
pub mod Store
pub mod Term
pub mod App
