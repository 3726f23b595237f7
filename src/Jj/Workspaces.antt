-- ===== src/Jj/Workspaces.antt =====
-- crates/octty-jj/src/lib.rs: finding, creating, renaming and forgetting the workspaces of a root.
use package.octty.Base.{pos, Text, codes, text_eq, trim, Bool, false}
use package.octty.Base.{◌⊎◌, inl, inr, Option, none, some, unwrap_or, or_else, List, [], ◌∷◌, ◌++◌}
use package.octty.Base.{if◌then◌else◌}
use package.octty.Base.Bytes.{fnv, hex16, utf8}
use octty.Core.Types.{
  ProjectRootRecord, WorkspaceSummary, default_workspace_status, encode_missing_workspace_path,
}
use octty.Jj.World.{
  io, Result, ok, err, FilePath, Outside, str_path, M, ◌>>=◌, ◌>>◌, return, attempt, path_str,
}
use octty.Jj.Parse.{DiscoveredWorkspace, parse_workspace_list_output}
use octty.Jj.Command.{run_jj, with_stale_retry}

-- The id of a workspace: a hash of the root's path, a zero byte, and the name.
unfoldable pub workspace_id_for : Text → Text → Text
workspace_id_for root_path workspace_name =
    codes "workspace-" ++ hex16 (fnv (utf8 root_path ++ (0 ∷ utf8 workspace_name)))

abbrev workspace_list_template : Text
workspace_list_template = codes "name ++ \"\t\" ++ target.change_id().short() ++ \"\\n\""

-- `current_change_id.as_deref() == Some(id)`
abbrev is_change : Text → Option Text → Bool
is_change id none = false
is_change id (some current) = text_eq current id

module _ (outside : Outside) where
  open outside use {World, canonicalize}

  abbrev found : (Text × World) ⊎ (FilePath × World) → Result FilePath × World
  found (inl (e, w)) = (err (io e), w)
  found (inr (p, w)) = (ok p, w)

  canonical : Text → M World FilePath
  canonical p w = found (canonicalize p w)

  unfoldable pub resolve_repo_root : FilePath → M World FilePath
  unfolding with_stale_retry canonical trim
  resolve_repo_root input_path = do
    text ← path_str input_path
    root ← with_stale_retry outside input_path (codes "root" ∷ codes "-R" ∷ text ∷ [])
    canonical (trim root)

  -- A path that `jj workspace root` printed, resolved and read lossily.
  workspace_root : Text → List Text → M World Text
  unfolding run_jj canonical trim
  workspace_root root_path args = do
    output ← run_jj outside (str_path root_path) args
    path ← canonical (trim output)
    return path.display

  unfoldable pub workspace_path : Text → Text → M World Text
  unfolding workspace_root
  workspace_path root_path workspace_name = workspace_root root_path (
      codes "workspace"
      ∷ codes "root"
      ∷ codes "-R"
      ∷ root_path
      ∷ codes "--name"
      ∷ workspace_name
      ∷ [])

  unfoldable pub current_workspace_path : Text → M World Text
  unfolding workspace_root
  current_workspace_path root_path =
      workspace_root root_path (codes "workspace" ∷ codes "root" ∷ codes "-R" ∷ root_path ∷ [])

  unfoldable pub current_workspace_change_id : Text → M World Text
  unfolding run_jj trim
  current_workspace_change_id root_path = do
    output ← run_jj outside (str_path root_path) (
        codes "log"
        ∷ codes "-R"
        ∷ root_path
        ∷ codes "-r"
        ∷ codes "@"
        ∷ codes "--no-graph"
        ∷ codes "-T"
        ∷ codes "change_id.short()"
        ∷ [])
    return (trim output)

  -- The path of a discovered workspace: the recorded one, the current one if the change ids agree,
  -- or the mark of a missing one.
  abbrev path_or_missing : DiscoveredWorkspace → Option Text → Option Text → Option Text → Text
  path_or_missing entry recorded current_change_id current_path =
      unwrap_or
        (or_else recorded
          (if is_change entry.target_change_id current_change_id then current_path else none))
        (encode_missing_workspace_path entry.workspace_name)

  summaries :
      ProjectRootRecord
      → Text
      → Option Text
      → Option Text
      → List DiscoveredWorkspace
      → M World (List WorkspaceSummary)
  unfolding workspace_path text_eq workspace_id_for
  summaries root root_path current_change_id current_path [] = return []
  summaries root root_path current_change_id current_path (entry ∷ entries) =
      let rest = summaries root root_path current_change_id current_path entries in
      do
        recorded ← attempt (workspace_path root_path entry.workspace_name)
        more ← rest
        return (
            record {
              id = workspace_id_for root_path entry.workspace_name;
              root_id = root.id;
              root_path = root_path;
              project_display_name = root.display_name;
              workspace_name = entry.workspace_name;
              display_name = entry.workspace_name;
              workspace_path = path_or_missing entry recorded current_change_id current_path;
              status = default_workspace_status;
              created_at = pos 0;
              updated_at = pos 0;
              last_opened_at = pos 0;
            }
            ∷ more)

  unfoldable pub discover_workspaces : ProjectRootRecord → M World (List WorkspaceSummary)
  unfolding canonical run_jj parse_workspace_list_output summaries
  discover_workspaces root = do
    path ← canonical root.root_path
    root_path ← path_str path
    output ← run_jj outside (str_path root_path) (
        codes "workspace"
        ∷ codes "list"
        ∷ codes "-R"
        ∷ root_path
        ∷ codes "--template"
        ∷ workspace_list_template
        ∷ [])
    current_change_id ← attempt (current_workspace_change_id root_path)
    current_path ← attempt (current_workspace_path root_path)
    summaries root root_path current_change_id current_path (parse_workspace_list_output output)

  unfoldable pub create_workspace : FilePath → FilePath → Text → M World (Unit {0})
  unfolding run_jj
  create_workspace root_path destination_path workspace_name = do
    root ← path_str root_path
    destination ← path_str destination_path
    run_jj outside root_path (
        codes "workspace"
        ∷ codes "add"
        ∷ codes "-R"
        ∷ root
        ∷ codes "--name"
        ∷ workspace_name
        ∷ destination
        ∷ [])
    return tt

  unfoldable pub rename_workspace : FilePath → Text → M World (Unit {0})
  unfolding run_jj
  rename_workspace workspace_path workspace_name = do
    run_jj outside workspace_path (codes "workspace" ∷ codes "rename" ∷ workspace_name ∷ [])
    return tt

  unfoldable pub forget_workspace : FilePath → Text → M World (Unit {0})
  unfolding run_jj
  forget_workspace root_path workspace_name = do
    root ← path_str root_path
    run_jj outside root_path
        (codes "workspace" ∷ codes "forget" ∷ codes "-R" ∷ root ∷ workspace_name ∷ [])
    return tt
