-- ===== src/App/ShellConfig/Laws.antt =====
-- crates/octty-app/src/shell_config.rs: the correction of a configuration that was written before.
use octty.Base.{Bool, false, ◌&&◌, not, List, [], ◌∷◌, any, ◌≡◌, refl, arith}
use octty.App.ShellConfig.{
  ShellTypeConfig, ShellTypeConfigFile, is_custom_shell, closes, refused, normalize_loop,
  normalize_custom_shell_exit_behavior,
}

-- A shell type that must close at its end and does not.
abbrev pub stays : ShellTypeConfig → Bool
stays s = is_custom_shell s && not (closes s.on_exit)

loop_clean : (ss : List ShellTypeConfig) → any stays (normalize_loop ss).0 ≡ false
unfolding normalize_loop is_custom_shell
loop_clean [] = refl
loop_clean (s ∷ ss) = ground (arith, loop_clean ss)

loop_changed : (ss : List ShellTypeConfig) → (normalize_loop ss).1 ≡ any stays ss
unfolding normalize_loop
loop_changed [] = refl
loop_changed (s ∷ ss) = ground (arith, loop_changed ss)

loop_unchanged : (ss : List ShellTypeConfig) → any stays ss ≡ false → (normalize_loop ss).0 ≡ ss
unfolding normalize_loop
loop_unchanged [] h = refl
loop_unchanged (s ∷ ss) h = ground (arith, loop_unchanged ss)

loop_refused : (ss : List ShellTypeConfig) → refused (normalize_loop ss).0 ≡ refused ss
unfolding normalize_loop refused
loop_refused [] = refl
loop_refused (s ∷ ss) = ground (arith, loop_refused ss)

-- The correction of a configuration. Afterwards every codex and jjui shell closes at its end; it
-- reports a change exactly if one of them did not before; without a change the configuration is the
-- same; a second correction changes nothing; and it refuses or accepts no other shell type.
pub normalize_custom_shell_exit_behavior_lem :
    (config : ShellTypeConfigFile)
    → (any stays (normalize_custom_shell_exit_behavior config).0.shell_types ≡ false)
      × ((normalize_custom_shell_exit_behavior config).1 ≡ any stays config.shell_types)
      × ((normalize_custom_shell_exit_behavior config).1 ≡ false
          → (normalize_custom_shell_exit_behavior config).0 ≡ config)
      × (normalize_custom_shell_exit_behavior (normalize_custom_shell_exit_behavior config).0
          ≡ ((normalize_custom_shell_exit_behavior config).0, false))
      × (refused (normalize_custom_shell_exit_behavior config).0.shell_types
          ≡ refused config.shell_types)
unfolding normalize_custom_shell_exit_behavior
normalize_custom_shell_exit_behavior_lem config = (
  loop_clean config.shell_types,
  loop_changed config.shell_types,
  (λ h. ground (arith, loop_unchanged config.shell_types, loop_changed config.shell_types, h)),
  ground (
    arith,
    loop_unchanged (normalize_loop config.shell_types).0 (loop_clean config.shell_types),
    loop_changed (normalize_loop config.shell_types).0,
    loop_clean config.shell_types,
  ),
  loop_refused config.shell_types,
)
