-- ===== src/App/Bootstrap/Operations.antt =====
-- crates/octty-app/src/bootstrap.rs: the operations of the sidebar that end in a load. Paths are text.
use octty.Base.{
  split, join, keep, is_empty, [], ◌∷◌, if◌then◌else◌, Bool, true, false, not, ◌&&◌, Option, none,
  some, unwrap_or, option_map, or_else, Text, codes, text_eq, List, ◌++◌, any, find, first,
}
use octty.Core.Types.{ProjectRootRecord, WorkspaceSummary, has_recorded_workspace_path}
use octty.Jj.World.{FilePath, Outside, str_path, M, ◌>>=◌, ◌>>◌, return, attempt}
use octty.Jj.Workspaces.{
  resolve_repo_root, discover_workspaces, create_workspace, rename_workspace, forget_workspace,
  workspace_id_for,
}
use octty.App.Bootstrap.{BootstrapState, Services, project_root_from_path}
use octty.App.Bootstrap.Loading.{load_bootstrap_from_store, clock}
use octty.App.Bootstrap.Directories.{bail, next_workspace_defaults}

-- `==` of two `Path`s compares their components: whether they begin at the root or at the present
-- directory, and the names, which neither doubled slashes nor single dots change.
abbrev pub is_component : Text → Bool
is_component c = not (is_empty c) && not (text_eq c (codes "."))

abbrev pub begins : List Text → Text
begins [] = []
begins (c ∷ []) = if text_eq c (codes ".") then codes "./" else []
begins (c ∷ (d ∷ cs)) =
    if is_empty c then codes "/" else if text_eq c (codes ".") then codes "./" else []

unfoldable pub components : Text → Text
unfolding split join text_eq
components path =
    let names = split b'/' path in begins names ++ join (codes "/") (keep is_component names)

unfoldable pub path_eq : Text → Text → Bool
unfolding components
path_eq path other = text_eq (components path) (components other)

module _ (outside : Outside) {F : Type 0} (services : Services outside.World F) where
  open outside use {World}
  open services use {
    upsert_project_root, delete_project_root, list_workspaces, delete_workspace,
    update_project_root_display_name, update_workspace_project_display_name,
    rename_stored_workspace, canonicalize, remove_dir_all,
  }

  -- The canonical path, or the path as it is.
  abbrev pub canonical_or_same : Text → M World Text
  canonical_or_same path = do found ← attempt (canonicalize path); return (unwrap_or found path)

  abbrev pub bail_for : WorkspaceSummary → M World (Unit {0})
  bail_for workspace =
      bail (codes "refusing to delete the repo root for workspace " ++ workspace.workspace_name)

  abbrev pub not_recorded : WorkspaceSummary → M World (Unit {0})
  not_recorded workspace = bail (
      codes "workspace "
      ++ (workspace.workspace_name
          ++ codes " was forgotten, but its directory path is not recorded"))

  abbrev pub removal : WorkspaceSummary → M World (Unit {0})
  removal workspace = do
    workspace_path ← canonical_or_same workspace.workspace_path
    root_path ← canonical_or_same workspace.root_path
    if path_eq workspace_path root_path then bail_for workspace else remove_dir_all workspace_path

  unfoldable pub delete_workspace_directory : WorkspaceSummary → M World (Unit {0})
  unfolding path_eq
  delete_workspace_directory workspace =
      if has_recorded_workspace_path workspace.workspace_path
      then removal workspace
      else not_recorded workspace

  abbrev pub load : Option Text → M World (BootstrapState F)
  load active_workspace_id = load_bootstrap_from_store outside services true active_workspace_id

  unfoldable pub create_workspace_for_root_and_reload :
      ProjectRootRecord → M World (BootstrapState F)
  create_workspace_for_root_and_reload root = do
    made ← next_workspace_defaults outside services root
    create_workspace outside (str_path root.root_path) (str_path made.1) made.0
    root_path ← canonicalize root.root_path
    load (some (workspace_id_for root_path made.0))

  -- The first workspace of a root, if it can be listed.
  abbrev first_id : Option (List WorkspaceSummary) → Option Text
  first_id none = none
  first_id (some workspaces) = option_map (λ workspace. workspace.id) (first workspaces)

  unfoldable pub add_project_root_and_reload : FilePath → Option Text → M World (BootstrapState F)
  add_project_root_and_reload selected_path active_workspace_id = do
    root_path ← resolve_repo_root outside selected_path
    now ← clock outside services
    upsert_project_root (project_root_from_path root_path now)
    found ← attempt (discover_workspaces outside (project_root_from_path root_path now))
    load (or_else (first_id found) active_workspace_id)

  unfoldable pub rename_project_root_and_reload :
      Text → Text → Option Text → M World (BootstrapState F)
  rename_project_root_and_reload root_id display_name active_workspace_id = do
    update_project_root_display_name root_id display_name
    update_workspace_project_display_name root_id display_name
    load active_workspace_id

  unfoldable pub remove_project_root_and_reload : Text → Option Text → M World (BootstrapState F)
  remove_project_root_and_reload root_id active_workspace_id = do
    delete_project_root root_id
    load active_workspace_id

  abbrev pub deleted : WorkspaceSummary → Bool → M World (Unit {0})
  deleted workspace true = delete_workspace_directory workspace
  deleted workspace false = return tt

  unfoldable pub forget_workspace_and_reload :
      WorkspaceSummary → Option Text → Bool → M World (BootstrapState F)
  unfolding delete_workspace_directory
  forget_workspace_and_reload workspace active_workspace_id delete_directory = do
    forget_workspace outside (str_path workspace.root_path) workspace.workspace_name
    deleted workspace delete_directory
    delete_workspace workspace.id
    load active_workspace_id

  abbrev the_workspace : Option WorkspaceSummary → M World WorkspaceSummary
  the_workspace none = bail (codes "Workspace not found")
  the_workspace (some workspace) = return workspace

  abbrev unless : Bool → Text → M World (Unit {0})
  unless true message = bail message
  unless false message = return tt

  abbrev renamed_in_jj : WorkspaceSummary → Text → Bool → M World (Unit {0})
  renamed_in_jj workspace display_name true = return tt
  renamed_in_jj workspace display_name false =
      rename_workspace outside (str_path workspace.workspace_path) display_name

  abbrev pub follow : Text → Text → Option Text → Option Text
  follow from to none = none
  follow from to (some active_id) = some (if text_eq active_id from then to else active_id)

  -- Another workspace that has the id already.
  abbrev pub is_taken : Text → Text → List WorkspaceSummary → Bool
  is_taken next_workspace_id workspace_id workspaces =
      any
        (λ workspace.
          text_eq workspace.id next_workspace_id && not (text_eq workspace.id workspace_id))
        workspaces

  unfoldable pub rename_workspace_and_reload :
      Text → Text → Option Text → M World (BootstrapState F)
  rename_workspace_and_reload workspace_id display_name active_workspace_id = do
    stored ← list_workspaces
    workspace ← the_workspace (find (λ workspace. text_eq workspace.id workspace_id) stored)
    unless (not (has_recorded_workspace_path workspace.workspace_path))
        (codes "Workspace path is not available; cannot rename JJ workspace")
    others ← list_workspaces
    unless (is_taken (workspace_id_for workspace.root_path display_name) workspace_id others)
        (codes "Workspace \"" ++ (display_name ++ codes "\" already exists"))
    renamed_in_jj workspace display_name (text_eq display_name workspace.workspace_name)
    rename_stored_workspace workspace_id (workspace_id_for workspace.root_path display_name)
        display_name display_name
    load (
        follow workspace_id (workspace_id_for workspace.root_path display_name) active_workspace_id)
