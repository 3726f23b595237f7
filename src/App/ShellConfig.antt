-- ===== src/App/ShellConfig.antt =====
-- crates/octty-app/src/shell_config.rs: the shell types that the user configures. JSON, files and
-- the environment are outside: `parse_shell_type_config` is modelled from the parsed value on.
pub mod Laws
mod Tests
use octty.Base.{
  ℕ, Bool, true, false, ◌&&◌, ◌||◌, not, ◌==◌, Text, codes, text_eq, one_of, trim,
  to_ascii_lowercase, is_empty,
}
use octty.Base.{List, [], ◌∷◌, Option, none, some, unwrap_or, if◌then◌else◌}
use octty.Core.Types.{InnerSessionHandler, TerminalExitBehavior, TerminalKind}
use octty.App.Keys.{lookup}

pub record ShellTypeConfig : Type 0 where
  pub name : Text
  pub shortcut : Text
  pub directory : Text
  pub command : Text
  pub command_parameters : List Text
  pub session_handler : InnerSessionHandler
  pub on_exit : TerminalExitBehavior
  pub default_width_chars : ℕ

pub record ShellTypeConfigFile : Type 0 where
  pub shell_types : List ShellTypeConfig

-- The messages of `parse_shell_type_config`.
pub data ConfigError : Type 0 where
  no_shell_types empty_name : ConfigError
  no_width : Text → ConfigError

-- The first shell type that is refused.
unfoldable pub refused : List ShellTypeConfig → Option ConfigError
unfolding trim
refused [] = none
refused (s ∷ ss) =
    let rest = refused ss in
    if is_empty (trim s.name)
    then some empty_name
    else if s.default_width_chars == 0
    then some (no_width s.name)
    else rest

unfoldable pub parse_shell_type_config : ShellTypeConfigFile → Option ConfigError
unfolding refused
parse_shell_type_config config =
    if is_empty config.shell_types then some no_shell_types else refused config.shell_types

abbrev pub closes : TerminalExitBehavior → Bool
closes behavior = elim behavior [ TerminalExitBehavior.close ↦ true | _ ↦ false ]

unfoldable pub is_custom_shell : ShellTypeConfig → Bool
unfolding text_eq trim to_ascii_lowercase
is_custom_shell s = one_of (to_ascii_lowercase (trim s.name)) (codes "codex" ∷ (codes "jjui" ∷ []))

-- The loop, with the flag `changed`.
unfoldable pub normalize_loop : List ShellTypeConfig → List ShellTypeConfig × Bool
unfolding is_custom_shell
normalize_loop [] = ([], false)
normalize_loop (s ∷ ss) =
    let (rest, changed) = normalize_loop ss in
    if is_custom_shell s && not (closes s.on_exit)
    then (record s { on_exit = TerminalExitBehavior.close } ∷ rest, true)
    else (s ∷ rest, changed)

unfoldable pub normalize_custom_shell_exit_behavior :
    ShellTypeConfigFile → ShellTypeConfigFile × Bool
unfolding normalize_loop
normalize_custom_shell_exit_behavior config =
    let (shell_types, changed) = normalize_loop config.shell_types in
    (record { shell_types = shell_types }, changed)

unfoldable pub terminal_kind_for_shell_type : Text → TerminalKind
unfolding text_eq trim to_ascii_lowercase
terminal_kind_for_shell_type name =
    unwrap_or
      (lookup (to_ascii_lowercase (trim name)) (
        (codes "codex" ∷ [], TerminalKind.codex)
        ∷ ((codes "jjui" ∷ [], TerminalKind.jjui)
            ∷ ((codes "pi" ∷ [], TerminalKind.pi)
                ∷ ((codes "nvim" ∷ [], TerminalKind.nvim) ∷ [])))))
      TerminalKind.shell
