-- ===== src/Core/Shortcuts.antt =====
-- crates/octty-core/src/shortcuts.rs: the labels of the first ten workspaces.
use octty.Base.{ℕ, Text, codes, List, [], ◌∷◌, ◌++◌, map, take, enumerate, get_or}
use octty.Core.Types.{WorkspaceSummary}

pub record WorkspaceShortcutTarget : Type 0 where
  pub workspace_id : Text
  pub label : Text

unfoldable pub shortcut_digit : ℕ → Text
shortcut_digit index =
    get_or
      (codes "1"
        ∷ (codes "2"
            ∷ (codes "3"
                ∷ (codes "4"
                    ∷ (codes "5" ∷ (codes "6" ∷ (codes "7" ∷ (codes "8" ∷ (codes "9" ∷ [])))))))))
      index (codes "0")

abbrev pub target : ℕ × WorkspaceSummary → WorkspaceShortcutTarget
target (index, workspace) = record {
  workspace_id = workspace.id;
  label = codes "Ctrl+Shift+" ++ shortcut_digit index;
}

unfoldable pub workspace_shortcut_targets : List WorkspaceSummary → List WorkspaceShortcutTarget
unfolding shortcut_digit
workspace_shortcut_targets workspaces = map target (enumerate 0 (take 10 workspaces))
