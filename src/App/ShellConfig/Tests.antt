-- ===== src/App/ShellConfig/Tests.antt =====
-- A configuration with a codex shell that restarts, for crates/octty-app/src/shell_config.rs.
use octty.Base.{
  ◌≡◌, refl, codes, [], ◌∷◌, true, false, any, Text, text_eq, trim, trim_start, trim_end,
  is_whitespace, to_ascii_lowercase, lower,
}
use octty.Core.Types.{InnerSessionHandler, TerminalExitBehavior}
use octty.App.ShellConfig.{
  ShellTypeConfig, ShellTypeConfigFile, refused, is_custom_shell, normalize_loop,
  normalize_custom_shell_exit_behavior,
}
use octty.App.ShellConfig.Laws.{stays, normalize_custom_shell_exit_behavior_lem}

abbrev shell_type : Text → TerminalExitBehavior → ShellTypeConfig
shell_type name on_exit = record {
  name = name;
  shortcut = codes "ctrl-n";
  directory = [];
  command = codes "run";
  command_parameters = [];
  session_handler = InnerSessionHandler.none;
  on_exit = on_exit;
  default_width_chars = 80;
}

abbrev old_config : ShellTypeConfigFile
old_config = record {
  shell_types =
      shell_type (codes "shell") TerminalExitBehavior.restart_auto
      ∷ (shell_type (codes " Codex") TerminalExitBehavior.restart_auto ∷ []);
}

codex_is_changed : (normalize_custom_shell_exit_behavior old_config).1 ≡ true
unfolding normalize_custom_shell_exit_behavior normalize_loop is_custom_shell text_eq trim
    trim_start trim_end is_whitespace to_ascii_lowercase lower
codex_is_changed = refl

normalize_custom_shell_exit_behavior_lem_example :
    (any stays (normalize_custom_shell_exit_behavior old_config).0.shell_types ≡ false)
    × ((normalize_custom_shell_exit_behavior old_config).1 ≡ any stays old_config.shell_types)
    × ((normalize_custom_shell_exit_behavior old_config).1 ≡ false
        → (normalize_custom_shell_exit_behavior old_config).0 ≡ old_config)
    × (normalize_custom_shell_exit_behavior (normalize_custom_shell_exit_behavior old_config).0
        ≡ ((normalize_custom_shell_exit_behavior old_config).0, false))
    × (refused (normalize_custom_shell_exit_behavior old_config).0.shell_types
        ≡ refused old_config.shell_types)
normalize_custom_shell_exit_behavior_lem_example =
    normalize_custom_shell_exit_behavior_lem old_config
