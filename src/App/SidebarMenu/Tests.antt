-- ===== src/App/SidebarMenu/Tests.antt =====
-- A menu and the groups of the sidebar, for crates/octty-app/src/sidebar.rs.
use octty.Base.{All, pos, ◌≡◌, refl, codes, some, Text, List, [], ◌∷◌, false, true, any}
use octty.Core.Types.{ProjectRootRecord, WorkspaceSummary, default_workspace_status}
use octty.App.SidebarMenu.{
  SidebarMenuEntry, item, separator, rename_workspace, forget_workspace, new, select_up,
  select_down, enabled_from, enabled_indices, confirm, sidebar_workspace_groups,
}
use octty.App.SidebarMenu.Groups.{belongs, lists, sidebar_workspace_groups-lists}

-- A disabled entry, a line, and two entries.
abbrev entries : List SidebarMenuEntry
entries =
    item (codes "Rename") (rename_workspace (codes "a")) true
    ∷ (separator
        ∷ (item (codes "Rename") (rename_workspace (codes "b")) false
            ∷ (item (codes "Forget") (forget_workspace (codes "b")) false ∷ [])))

menu_wraps : (select_up (new entries)).selected_index ≡ some 3
unfolding select_up new enabled_from enabled_indices
menu_wraps = refl

menu_confirms : confirm (select_down (new entries)) ≡ some (forget_workspace (codes "b"))
unfolding select_down new enabled_from enabled_indices confirm
menu_confirms = refl

abbrev summary : Text → Text → WorkspaceSummary
summary id root_id = record {
  id = id;
  root_id = root_id;
  root_path = codes "/r";
  project_display_name = codes "r";
  workspace_name = id;
  display_name = id;
  workspace_path = codes "/r";
  status = default_workspace_status;
  created_at = pos 0;
  updated_at = pos 0;
  last_opened_at = pos 0;
}

abbrev root : ProjectRootRecord
root = record {
  id = codes "r";
  root_path = codes "/r";
  display_name = codes "r";
  created_at = pos 0;
  updated_at = pos 0;
}

abbrev listed : List WorkspaceSummary
listed = summary (codes "a") (codes "r") ∷ (summary (codes "b") (codes "gone") ∷ [])

sidebar_workspace_groups-lists_example :
    (any (lists 1) (sidebar_workspace_groups (root ∷ []) listed) ≡ true)
    × All
        (λ g. lists 1 g ≡ belongs (root ∷ []) (summary (codes "b") (codes "gone")) g)
        (sidebar_workspace_groups (root ∷ []) listed)
sidebar_workspace_groups-lists_example =
    sidebar_workspace_groups-lists (root ∷ []) listed 1 (summary (codes "b") (codes "gone")) refl
