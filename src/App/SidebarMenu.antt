-- ===== src/App/SidebarMenu.antt =====
-- crates/octty-app/src/sidebar.rs: the menu of the sidebar, and the groups of workspaces in it.
pub mod Laws
pub mod Groups
mod Tests
use octty.Base.{
  ℕ, ◌+◌, ◌-◌, ◌%◌, zero, suc, Text, text_eq, Bool, true, false, not, ◌==◌, Option, none, some,
  unwrap_or, and_then, option_map,
}
use octty.Base.{
  List, [], ◌∷◌, ◌++◌, map, any, length, position, first, choose, enumerate, is_empty, get_elem?,
  get_or, if◌then◌else◌,
}
use octty.Core.Types.{ProjectRootRecord, WorkspaceSummary}

pub data SidebarMenuAction : Type 0 where
  create_workspace_for_root : Text → SidebarMenuAction
  rename_project_root : Text → SidebarMenuAction
  remove_project_root : Text → SidebarMenuAction
  rename_workspace : Text → SidebarMenuAction
  forget_workspace : Text → SidebarMenuAction
  delete_and_forget_workspace : Text → SidebarMenuAction

pub data SidebarMenuEntry : Type 0 where
  item : Text → SidebarMenuAction → Bool → SidebarMenuEntry
  separator : SidebarMenuEntry

abbrev pub is_enabled_item : SidebarMenuEntry → Bool
is_enabled_item (item label a disabled) = not disabled
is_enabled_item separator = false

abbrev pub action : SidebarMenuEntry → Option SidebarMenuAction
action (item label a disabled) = if disabled then none else some a
action separator = none

pub record SidebarMenuView : Type 0 where
  pub entries : List SidebarMenuEntry
  pub selected_index : Option ℕ

abbrev index_if_enabled : ℕ × SidebarMenuEntry → Option ℕ
index_if_enabled (index, entry) = if is_enabled_item entry then some index else none

unfoldable pub enabled_from : ℕ → List SidebarMenuEntry → List ℕ
enabled_from from entries = choose index_if_enabled (enumerate from entries)

unfoldable pub enabled_indices : SidebarMenuView → List ℕ
unfolding enabled_from
enabled_indices v = enabled_from 0 v.entries

-- `find_map` gives the first of what `filter_map` gives.
unfoldable pub new : List SidebarMenuEntry → SidebarMenuView
unfolding enabled_from
new entries = record { entries = entries; selected_index = first (enabled_from 0 entries) }

-- The place of the selected entry among the enabled ones.
abbrev pub place : SidebarMenuView → List ℕ → ℕ
place v enabled =
    let current = unwrap_or v.selected_index (get_or enabled 0 0) in
    unwrap_or (position (λ index. index == current) enabled) 0

abbrev pub above : List ℕ → ℕ → ℕ
above enabled zero = length enabled - 1
above enabled (suc n) = n

-- An index into the list is in range here; the model's default is not reached.
unfoldable pub select_up : SidebarMenuView → SidebarMenuView
unfolding enabled_indices
select_up v =
    let enabled = enabled_indices v in
    if is_empty enabled
    then v
    else record v { selected_index = some (get_or enabled (above enabled (place v enabled)) 0) }

unfoldable pub select_down : SidebarMenuView → SidebarMenuView
unfolding enabled_indices
select_down v =
    let enabled = enabled_indices v in
    if is_empty enabled then v else record v {
      selected_index = some (get_or enabled ((place v enabled + 1) % length enabled) 0);
    }

-- `confirm`: the action that the application is told to execute.
unfoldable pub confirm : SidebarMenuView → Option SidebarMenuAction
confirm v = and_then v.selected_index (λ index. and_then (get_elem? v.entries index) action)

pub record SidebarWorkspaceGroup : Type 0 where
  pub root : Option ProjectRootRecord
  pub workspace_indices : List ℕ

abbrev pub indices_where : (WorkspaceSummary → Bool) → ℕ → List WorkspaceSummary → List ℕ
indices_where p from [] = []
indices_where p from (w ∷ ws) =
    let rest = indices_where p (suc from) ws in if p w then from ∷ rest else rest

abbrev pub of_root : ProjectRootRecord → WorkspaceSummary → Bool
of_root root workspace = text_eq workspace.root_id root.id

abbrev pub is_orphan : List ProjectRootRecord → WorkspaceSummary → Bool
is_orphan project_roots workspace = not (any (λ root. of_root root workspace) project_roots)

abbrev group_of : List WorkspaceSummary → ProjectRootRecord → SidebarWorkspaceGroup
group_of workspaces root = record {
  root = some root;
  workspace_indices = indices_where (of_root root) 0 workspaces;
}

abbrev orphans : List ℕ → List SidebarWorkspaceGroup
orphans [] = []
orphans (i ∷ is) = record { root = none; workspace_indices = i ∷ is } ∷ []

unfoldable pub sidebar_workspace_groups :
    List ProjectRootRecord → List WorkspaceSummary → List SidebarWorkspaceGroup
unfolding text_eq
sidebar_workspace_groups project_roots workspaces =
    map (group_of workspaces) project_roots
    ++ orphans (indices_where (is_orphan project_roots) 0 workspaces)
