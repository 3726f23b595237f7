-- ===== src/App/Workspaces.antt =====
-- crates/octty-app/src/app_core.rs: opening a workspace, and the task that loads its panes. The terminals,
-- watchers and timers that these calls set off are outside of this state.
pub mod Shown
pub mod Cycle
pub mod Tests
use octty.Base.{
  ℕ, zero, suc, ◌+◌, ◌-◌, ◌%◌, min, leb, ltb, ◌==◌, if◌then◌else◌, Bool, true, false, Option, none,
  some, unwrap_or, and_then, Text, codes, text_eq, is_empty, List, [], ◌∷◌, ◌++◌, length, get_elem?,
}
use octty.Core.Types.{WorkspaceSummary, WorkspaceSnapshot}
use octty.App.Bootstrap.{BootstrapState}

-- A task that loads the snapshot of a workspace, from its start to its end.
pub record Load : Type 0 where
  pub workspace_id : Text
  pub display_name : Text

-- The fields of OcttyApp that opening a workspace reads or writes, and the tasks it has started.
pub record App (F : Type 0) : Type 0 where
  pub status : Text
  pub workspaces : List WorkspaceSummary
  pub active_workspace_index : Option ℕ
  pub active_snapshot : Option (WorkspaceSnapshot F)
  pub sidebar_menu : Bool
  pub loads : List Load

pub data WorkspaceNavigationDirection : Type 0 where
  previous next : WorkspaceNavigationDirection

unfoldable pub display_name_or_workspace_name : WorkspaceSummary → Text
display_name_or_workspace_name w =
    if is_empty w.display_name then w.workspace_name else w.display_name

abbrev pub is_index : ℕ → Option ℕ → Bool
is_index i none = false
is_index i (some j) = j == i

-- Where a move leads.
unfoldable pub navigation_target : WorkspaceNavigationDirection → ℕ → ℕ → ℕ
navigation_target previous current count = if current == 0 then count - 1 else current - 1
navigation_target next current count = (current + 1) % count

abbrev pub still_active : Text → Option WorkspaceSummary → Bool
still_active workspace_id none = false
still_active workspace_id (some workspace) = text_eq workspace.id workspace_id

module _ {F : Type 0} where
  unfoldable pub active_workspace : App F → Option WorkspaceSummary
  active_workspace app = and_then app.active_workspace_index (get_elem? app.workspaces)

  abbrev pub opened : ℕ → App F → Option WorkspaceSummary → App F
  opened index app none = app
  opened index app (some workspace) = record app {
    sidebar_menu = false;
    active_workspace_index = some index;
    active_snapshot = none;
    status = codes "Opening " ++ (display_name_or_workspace_name workspace ++ codes "...");
    loads =
        app.loads
        ++ (record {
          workspace_id = workspace.id;
          display_name = display_name_or_workspace_name workspace;
        }
            ∷ []);
  }

  -- An index that is out of range has no workspace.
  unfoldable pub open_workspace : ℕ → App F → App F
  unfolding display_name_or_workspace_name
  open_workspace index app =
      if leb (length app.workspaces) index
      then app
      else if is_index index app.active_workspace_index
      then record app { sidebar_menu = false }
      else opened index app (get_elem? app.workspaces index)

  unfoldable pub navigate_workspace : WorkspaceNavigationDirection → App F → App F
  unfolding open_workspace navigation_target
  navigate_workspace direction app =
      let current = min (unwrap_or app.active_workspace_index 0) (length app.workspaces - 1) in
      let target = navigation_target direction current (length app.workspaces) in
      if is_empty app.workspaces
      then app
      else if target == current
      then app
      else open_workspace target app

  -- What the load has brought: a snapshot or the text of an error.
  abbrev pub loaded : Text → Option (WorkspaceSnapshot F) → Text → App F → App F
  loaded display_name (some snapshot) error app = record app {
    active_snapshot = some snapshot;
    status = codes "Opened " ++ (display_name ++ codes ".");
  }
  loaded display_name none error app = record app {
    status = codes "Failed to open " ++ (display_name ++ (codes ": " ++ error));
  }

  -- The end of a task.
  unfoldable pub finish_load : Load → Option (WorkspaceSnapshot F) → Text → App F → App F
  unfolding active_workspace
  finish_load load result error app =
      if still_active load.workspace_id (active_workspace app)
      then loaded load.display_name result error app
      else app

  unfoldable pub apply_bootstrap : BootstrapState F → App F → App F
  apply_bootstrap bootstrap app = record app {
    status = bootstrap.status;
    workspaces = bootstrap.workspaces;
    active_workspace_index = bootstrap.active_workspace_index;
    active_snapshot = bootstrap.active_snapshot;
  }
