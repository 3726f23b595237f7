-- ===== src/App/Bootstrap/Loading.antt =====
-- crates/octty-app/src/bootstrap.rs: loading the state from jj and the store.
use octty.Base.{
  ℤ, Bool, true, false, ◌==◌, ◌⊎◌, inl, inr, Option, none, some, Text, codes, List, [], ◌∷◌, ◌++◌,
}
use octty.Base.BTreeMap.{BTreeMap, get}
use octty.Core.Types.{
  ProjectRootRecord, WorkspaceSummary, WorkspaceSnapshot, has_recorded_workspace_path,
}
use octty.Core.Layout.{create_default_snapshot, layout_version}
use octty.Jj.World.{JjError, ok, FilePath, Outside, str_path, M, ◌>>=◌, ◌>>◌, return, attempt}
use octty.Jj.Command.{read_workspace_status}
use octty.Jj.Workspaces.{resolve_repo_root, discover_workspaces}
use octty.App.StatusRefresh.{reset_jj_workspace_status}
use octty.App.Bootstrap.{
  BootstrapState, Services, project_root_from_path, by_id, with_existing, settle, jj_error_text,
  with_status, active_index, workspace_at, bootstrap_state,
}

module _ (outside : Outside) {F : Type 0} (services : Services outside.World F) where
  open outside use {World, now_ms}
  open services use {
    list_project_roots, upsert_project_root, list_workspaces, upsert_workspace, get_snapshot,
    save_snapshot, list_pane_activity, current_dir,
  }

  abbrev pub clock : M World ℤ
  clock w = (ok (now_ms w).0, (now_ms w).1)

  abbrev pub current : Option (WorkspaceSnapshot F) → Bool
  current none = false
  current (some snapshot) = snapshot.layout_version == layout_version

  abbrev pub stored_or_new :
      WorkspaceSummary → Option (WorkspaceSnapshot F) → Bool → M World (WorkspaceSnapshot F)
  stored_or_new workspace (some snapshot) true = return snapshot
  stored_or_new workspace _ _ = do
    now ← clock
    save_snapshot (create_default_snapshot workspace.id now)
    return (create_default_snapshot workspace.id now)

  unfoldable pub load_workspace_snapshot : WorkspaceSummary → M World (WorkspaceSnapshot F)
  load_workspace_snapshot workspace = do
    stored ← get_snapshot workspace.id
    stored_or_new workspace stored (current stored)

  -- The roots of the store, or that of the current repository if there are none.
  abbrev pub seed : Option FilePath → M World (List ProjectRootRecord)
  seed none = return []
  seed (some root_path) = do
    now ← clock
    upsert_project_root (project_root_from_path root_path now)
    return (project_root_from_path root_path now ∷ [])

  abbrev pub seeded : Bool → List ProjectRootRecord → M World (List ProjectRootRecord)
  seeded true [] = do dir ← current_dir; found ← attempt (resolve_repo_root outside dir); seed found
  seeded auto_seed roots = return roots

  -- The status of a workspace whose path is recorded or not, with the errors.
  abbrev pub refreshed : WorkspaceSummary → Bool → M World (WorkspaceSummary × List Text)
  refreshed workspace true = do
    status ←
        settle (
          read_workspace_status outside (str_path workspace.workspace_path)
            workspace.workspace_name)
    return (with_status workspace status)
  refreshed workspace false = do
    now ← clock
    return (record workspace { status = reset_jj_workspace_status workspace.status now }, [])

  unfoldable pub refresh_workspace :
      BTreeMap WorkspaceSummary → WorkspaceSummary → M World (WorkspaceSummary × List Text)
  refresh_workspace existing discovered = do
    now ← clock
    done ←
        refreshed (with_existing (get discovered.id existing) now discovered)
          (has_recorded_workspace_path discovered.workspace_path)
    upsert_workspace done.0
    return done

  unfoldable pub refresh_workspaces :
      BTreeMap WorkspaceSummary
      → List WorkspaceSummary
      → M World (List WorkspaceSummary × List Text)
  unfolding refresh_workspace
  refresh_workspaces existing [] = return ([], [])
  refresh_workspaces existing (discovered ∷ rest) =
      let others = refresh_workspaces existing rest in
      do
        done ← refresh_workspace existing discovered
        more ← others
        return (done.0 ∷ more.0, done.1 ++ more.1)

  abbrev root_workspaces :
      BTreeMap WorkspaceSummary
      → ProjectRootRecord
      → JjError ⊎ List WorkspaceSummary
      → M World (List WorkspaceSummary × List Text)
  root_workspaces existing root (inr discovered) = refresh_workspaces existing discovered
  root_workspaces existing root (inl error) = return (
    [],
    (root.root_path ++ (codes ": failed to discover workspaces: " ++ jj_error_text error)) ∷ [],
  )

  unfoldable pub load_roots :
      BTreeMap WorkspaceSummary
      → List ProjectRootRecord
      → M World (List WorkspaceSummary × List Text)
  unfolding refresh_workspaces
  load_roots existing [] = return ([], [])
  load_roots existing (root ∷ roots) =
      let others = load_roots existing roots in
      do
        discovered ← settle (discover_workspaces outside root)
        here ← root_workspaces existing root discovered
        more ← others
        return (here.0 ++ more.0, here.1 ++ more.1)

  abbrev pub or_stored : List WorkspaceSummary → M World (List WorkspaceSummary)
  or_stored [] = list_workspaces
  or_stored (w ∷ ws) = return (w ∷ ws)

  abbrev pub snapshot_of : Option WorkspaceSummary → M World (Option (WorkspaceSnapshot F))
  snapshot_of none = return none
  snapshot_of (some workspace) = do
    snapshot ← load_workspace_snapshot workspace
    return (some snapshot)

  -- The last part: the active workspace and its snapshot.
  unfoldable pub finish_bootstrap :
      List ProjectRootRecord
      → List WorkspaceSummary
      → List Text
      → Option Text
      → M World (BootstrapState F)
  unfolding load_workspace_snapshot
  finish_bootstrap roots workspaces errors active_workspace_id = do
    snapshot ← snapshot_of (workspace_at workspaces (active_index active_workspace_id workspaces))
    activity ← list_pane_activity
    return (bootstrap_state roots workspaces errors active_workspace_id snapshot activity)

  unfoldable pub load_bootstrap_from_store : Bool → Option Text → M World (BootstrapState F)
  unfolding finish_bootstrap load_roots by_id
  load_bootstrap_from_store auto_seed_current_repo active_workspace_id = do
    stored_roots ← list_project_roots
    roots ← seeded auto_seed_current_repo stored_roots
    stored ← list_workspaces
    found ← load_roots (by_id stored []) roots
    workspaces ← or_stored found.0
    finish_bootstrap roots workspaces found.1 active_workspace_id
