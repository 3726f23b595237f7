-- ===== src/App/Workspaces/Tests.antt =====
-- crates/octty-app/src/app_core.rs: the theorems on the active workspace at two workspaces.
use octty.Base.{ℕ, ◌++◌, text_eq, pos, true, none, some, codes, List, [], ◌∷◌, ◌≡◌, refl}
use octty.Core.Types.{WorkspaceSummary, WorkspaceSnapshot, default_workspace_status}
use octty.Core.Layout.{create_default_snapshot}
use octty.App.Workspaces.{App, Load, open_workspace, finish_load}
use octty.App.Workspaces.Shown.{IsShown, Reach, here, opens, loads, Reach-IsShown}

abbrev workspace : List ℕ → WorkspaceSummary
workspace id = record {
  id = id;
  root_id = codes "root";
  root_path = codes "/r";
  project_display_name = codes "r";
  workspace_name = id;
  display_name = [];
  workspace_path = codes "/r/" ++ id;
  status = default_workspace_status;
  created_at = pos 0;
  updated_at = pos 0;
  last_opened_at = pos 0;
}

abbrev two : App ℕ
two = record {
  status = [];
  workspaces = workspace (codes "a") ∷ (workspace (codes "b") ∷ []);
  active_workspace_index = some 0;
  active_snapshot = none;
  sidebar_menu = true;
  loads = [];
}

abbrev panes : WorkspaceSnapshot ℕ
panes = create_default_snapshot (codes "a") (pos 7)

abbrev load_a : Load
load_a = record { workspace_id = codes "a"; display_name = codes "a" }

-- The load of the first workspace ends after the second one was opened.
Reach-IsShown_example : IsShown (finish_load load_a (some panes) [] (open_workspace 1 two))
unfolding create_default_snapshot
Reach-IsShown_example =
    Reach-IsShown (Reach.next (Reach.next here (opens two 1)) (loads _ load_a panes refl)) tt

left_alone : (finish_load load_a (some panes) [] (open_workspace 1 two)).active_snapshot ≡ none
unfolding finish_load open_workspace create_default_snapshot text_eq
left_alone = refl
