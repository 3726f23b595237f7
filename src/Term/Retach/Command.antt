-- ===== src/Term/Retach/Command.antt =====
-- crates/octty-term/src/retach.rs: the command that a session runs, as words and as a line for a
-- shell, and the launch of `retach open`. The environment is a parameter.
pub mod Quoting
pub mod Launch
use package.octty.Base.{
  ℕ, ltb, leb, ◌==◌, if◌then◌else◌, Bool, true, false, not, ◌&&◌, ◌||◌, Option, none, some,
  unwrap_or, option_map, Text, codes, trim, starts_with, contains, one_of, text_eq, join, List, [],
  ◌∷◌, ◌++◌, map, all, any, is_empty, keep,
}
use package.octty.Base.Decimal.{show, parse_usize}
use package.octty.Base.Bytes.{utf8, fnv, hex16}
use octty.Core.Types.{
  TerminalKind, shell, codex, pi, nvim, jjui, TerminalExitBehavior, restart_auto, restart_manually,
  close, InnerSessionHandler, codex_inner_session_prompt,
}
use octty.Term.Retach.{TerminalSessionSpec, SpawnRequest, RetachLaunch}

-- The environment of the process: its variables, the path of a file `retach-octty` beside the running
-- program, if there is one, and what `id -u` writes, if it succeeds.
pub record Environment : Type 0 where
  pub var : Text → Option Text
  pub sibling : Option Text
  pub id_output : Option Text

abbrev pub is_safe_shell_char : ℕ → Bool
is_safe_shell_char c =
    (leb b'0' c && leb c b'9')
    || (leb b'a' c && leb c b'z')
    || (leb b'A' c && leb c b'Z')
    || any (λ d. c == d) (codes "_-./:=")

-- What `shell_single_quote` writes for one character.
abbrev pub quoted_char : ℕ → Text
quoted_char c = if c == b'\'' then codes "'\\''" else c ∷ []

abbrev pub quoted_chars : Text → Text
quoted_chars [] = []
quoted_chars (c ∷ value) = quoted_char c ++ quoted_chars value

unfoldable pub shell_single_quote : Text → Text
shell_single_quote value = b'\'' ∷ (quoted_chars value ++ (b'\'' ∷ []))

unfoldable pub shell_quote : Text → Text
unfolding shell_single_quote
shell_quote value =
    if is_empty value
    then codes "''"
    else if all is_safe_shell_char value
    then value
    else shell_single_quote value

unfoldable pub shell_command_line : Text → List Text → Text
unfolding shell_quote join
shell_command_line command args = join (codes " ") (shell_quote command ∷ map shell_quote args)

unfoldable pub restart_auto_shell_command : Text → Text
restart_auto_shell_command command_line =
    codes "while true; do "
    ++ (command_line
        ++ codes
            "; status=$?; printf '\n[octty] exited with status %s; restarting in 1s...\n' \"$status\"; sleep 1; done")

unfoldable pub restart_manually_shell_command : Text → Text
restart_manually_shell_command command_line =
    command_line
    ++ codes
        "; status=$?; printf '\n[octty] exited with status %s. Restart manually or exit the shell to close.\n' \"$status\"; exec \"${SHELL:-sh}\" -l"

abbrev pub not_blank : Text → Bool
not_blank t = not (is_empty (trim t))

abbrev pub non_blank : Option Text → Option Text
non_blank none = none
non_blank (some t) = if not_blank t then some t else none

unfoldable pub terminal_kind_command : TerminalKind → Text
terminal_kind_command shell = []
terminal_kind_command codex = codes "codex"
terminal_kind_command pi = codes "pi"
terminal_kind_command nvim = codes "nvim"
terminal_kind_command jjui = codes "jjui"

-- The command of a session, or that of its kind.
unfoldable pub command_of : TerminalSessionSpec → Text
unfolding terminal_kind_command trim
command_of spec =
    let command = trim spec.command in
    if is_empty command then terminal_kind_command spec.kind else command

abbrev pub codex_session_args : Option Text → Text → List Text
codex_session_args none pane_id = codex_inner_session_prompt pane_id ∷ []
codex_session_args (some inner_session_id) pane_id = codes "resume" ∷ (inner_session_id ∷ [])

unfoldable pub codex_terminal_command_args : Text → TerminalSessionSpec → List Text
codex_terminal_command_args command spec =
    (command ∷ spec.command_parameters)
    ++ codex_session_args (non_blank spec.inner_session_id) spec.pane_id

abbrev pub is_codex_handler : InnerSessionHandler → Bool
is_codex_handler InnerSessionHandler.none = false
is_codex_handler InnerSessionHandler.codex = true

module _ (env : Environment) where
  unfoldable pub retach_binary : Text
  retach_binary =
      unwrap_or (non_blank (env.var (codes "OCTTY_RETACH_BIN")))
        (unwrap_or env.sibling (codes "retach-octty"))

  abbrev parsed : Option Text → Option ℕ
  parsed none = none
  parsed (some value) = parse_usize value

  unfoldable pub retach_history : ℕ
  retach_history = unwrap_or (parsed (env.var (codes "OCTTY_RETACH_HISTORY"))) 10000

  abbrev pub shell_of : Text
  shell_of = unwrap_or (non_blank (env.var (codes "SHELL"))) (codes "sh")

  unfoldable pub shell_argv : Text → List Text
  shell_argv command_line = shell_of ∷ (codes "-lc" ∷ (command_line ∷ []))

  -- The words of a command line on its way to its end.
  abbrev pub on_exit_args : TerminalExitBehavior → Text → TerminalSessionSpec → List Text
  on_exit_args restart_auto command spec =
      shell_argv (restart_auto_shell_command (shell_command_line command spec.command_parameters))
  on_exit_args restart_manually command spec =
      shell_argv
        (restart_manually_shell_command (shell_command_line command spec.command_parameters))
  on_exit_args close command spec = command ∷ spec.command_parameters

  unfoldable pub terminal_command_args : TerminalSessionSpec → List Text
  terminal_command_args spec =
      if is_empty (command_of spec)
      then []
      else if is_codex_handler spec.inner_session_handler
      then codex_terminal_command_args (command_of spec) spec
      else on_exit_args spec.on_exit (command_of spec) spec

  unfoldable pub spawn_request : TerminalSessionSpec → SpawnRequest
  spawn_request spec = record { cwd = some spec.cwd; command = terminal_command_args spec }

  abbrev separated : List Text → List Text
  separated command_args = if is_empty command_args then [] else codes "--" ∷ command_args

-- The hash is FNV-1a over the two ids with a zero byte between them.
unfoldable pub stable_retach_session_name : TerminalSessionSpec → Text
stable_retach_session_name spec =
    codes "octty-" ++ hex16 (fnv (utf8 spec.workspace_id ++ (0 ∷ utf8 spec.pane_id)))

unfoldable pub build_retach_launch : Environment → TerminalSessionSpec → RetachLaunch
build_retach_launch env spec = record {
  program = retach_binary env;
  session_name = stable_retach_session_name spec;
  args =
      (codes "open"
        ∷ (stable_retach_session_name spec
            ∷ (codes "--history"
                ∷ (show (retach_history env) ∷ (codes "--cwd" ∷ (spec.cwd ∷ []))))))
      ++ separated env (terminal_command_args env spec);
}
