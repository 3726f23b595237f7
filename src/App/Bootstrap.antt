-- ===== src/App/Bootstrap.antt =====
-- crates/octty-app/src/bootstrap.rs and workspace.rs: what the application starts from. The store and
-- the directories are parameters, in the world of the jj client. An error of theirs is the `io` of its
-- text.
pub mod Loading
pub mod Loaded
pub mod Kept
pub mod Directories
pub mod Operations
pub mod Names
pub mod Spared
pub mod Tests
use octty.Base.{
  ℕ, zero, suc, ◌+◌, ℤ, pos, eq_ℤ, if◌then◌else◌, Bool, true, false, not, ◌&&◌, ◌||◌, ◌==◌, ◌⊎◌,
  inl, inr, Option, none, some, unwrap_or, or_else, and_then, Text, codes, text_eq, is_empty, join,
  split, List, [], ◌∷◌, ◌++◌, length, any, keep, map, position, get_elem?, is_whitespace,
}
use octty.Base.BTreeMap.{BTreeMap, get, insert}
use octty.Base.Bytes.{fnv, hex16, utf8}
use octty.Base.Decimal.{show}
use octty.Core.Types.{
  ProjectRootRecord, WorkspaceSummary, WorkspaceStatus, WorkspaceSnapshot,
  has_recorded_workspace_path,
}
use octty.Core.Activity.{PaneActivity}
use octty.Core.Layout.{create_default_snapshot, layout_version}
use octty.Jj.World.{
  JjError, command, io, Result, ok, err, FilePath, Outside, str_path, M, after, ◌>>=◌, ◌>>◌, return,
  fail, attempt,
}
use octty.Jj.Command.{read_workspace_status}
use octty.Jj.Workspaces.{resolve_repo_root, discover_workspaces, forget_workspace}
use octty.App.StatusRefresh.{merge_jj_workspace_status, reset_jj_workspace_status}

pub record BootstrapState (F : Type 0) : Type 0 where
  pub status : Text
  pub project_roots : List ProjectRootRecord
  pub workspaces : List WorkspaceSummary
  pub active_workspace_index : Option ℕ
  pub active_snapshot : Option (WorkspaceSnapshot F)
  pub pane_activity : List PaneActivity

-- The store, and what the code asks of the file system and the environment.
pub record Services (World F : Type 0) : Type 0 where
  pub list_project_roots : M World (List ProjectRootRecord)
  pub upsert_project_root : ProjectRootRecord → M World (Unit {0})
  pub delete_project_root : Text → M World (Unit {0})
  pub list_workspaces : M World (List WorkspaceSummary)
  pub upsert_workspace : WorkspaceSummary → M World (Unit {0})
  pub delete_workspace : Text → M World (Unit {0})
  pub update_project_root_display_name : Text → Text → M World (Unit {0})
  pub update_workspace_project_display_name : Text → Text → M World (Unit {0})
  -- the store's `rename_workspace`
  pub rename_stored_workspace : Text → Text → Text → Text → M World (Unit {0})
  pub get_snapshot : Text → M World (Option (WorkspaceSnapshot F))
  pub save_snapshot : WorkspaceSnapshot F → M World (Unit {0})
  pub list_pane_activity : M World (List PaneActivity)
  pub current_dir : M World FilePath
  pub home : Option Text
  pub create_dir_all : Text → M World (Unit {0})
  pub try_exists : Text → M World Bool
  pub canonicalize : Text → M World Text
  pub remove_dir_all : Text → M World (Unit {0})

-- `Path::file_name` of a path that is text: the last component, if it is not that of a parent.
abbrev pub last_component : List Text → Option Text → Option Text
last_component [] found = found
last_component (c ∷ cs) found = last_component cs (
    if is_empty c || text_eq c (codes ".")
    then found
    else if text_eq c (codes "..")
    then none
    else some c)

unfoldable pub file_name : Text → Option Text
unfolding split text_eq
file_name path = last_component (split b'/' path) none

unfoldable pub stable_project_root_id : Text → Text
stable_project_root_id root_path = codes "root-" ++ hex16 (fnv (utf8 root_path))

-- The display name is that of a path which is UTF-8 as a whole.
unfoldable pub project_root_from_path : FilePath → ℤ → ProjectRootRecord
unfolding stable_project_root_id file_name
project_root_from_path root_path now_ms = record {
  id = stable_project_root_id root_path.display;
  root_path = root_path.display;
  display_name = unwrap_or (and_then root_path.to_str file_name) (codes "repo");
  created_at = now_ms;
  updated_at = now_ms;
}

-- The `HashMap` of the stored workspaces by their ids: the last one of an id stays.
unfoldable pub by_id : List WorkspaceSummary → BTreeMap WorkspaceSummary → BTreeMap WorkspaceSummary
by_id [] found = found
by_id (w ∷ ws) found = by_id ws (insert w.id w found)

-- What a workspace keeps of the stored one.
unfoldable pub with_existing : Option WorkspaceSummary → ℤ → WorkspaceSummary → WorkspaceSummary
with_existing (some existing) now w = record w {
  display_name = existing.display_name;
  created_at = existing.created_at;
  last_opened_at = existing.last_opened_at;
  updated_at = now;
}
with_existing none now w = record w {
  created_at = if eq_ℤ w.created_at (pos 0) then now else w.created_at;
  updated_at = now;
}

abbrev pub settled : {World A : Type 0} → Result A × World → Result (JjError ⊎ A) × World
settled (ok a, w) = (ok (inr a), w)
settled (err e, w) = (ok (inl e), w)

-- The result of a call whose error the caller looks at.
abbrev pub settle : {World A : Type 0} → M World A → M World (JjError ⊎ A)
settle m w = settled (m w)

abbrev pub jj_error_text : JjError → Text
jj_error_text (command message) = codes "jj command failed: " ++ message
jj_error_text (io message) = codes "io error: " ++ message

abbrev pub with_status : WorkspaceSummary → JjError ⊎ WorkspaceStatus → WorkspaceSummary × List Text
with_status w (inr status) = (record w { status = merge_jj_workspace_status w.status status }, [])
with_status w (inl error) =
    (w, (w.workspace_name ++ (codes ": failed to read status: " ++ jj_error_text error)) ∷ [])

abbrev pub loaded_status : ℕ → List Text → Text
loaded_status zero errors =
    codes "No project roots yet. Run from inside a JJ repo to auto-seed the first root."
loaded_status (suc n) [] = codes "Loaded " ++ (show (suc n) ++ codes " JJ workspace(s).")
loaded_status (suc n) (e ∷ errors) =
    codes "Loaded "
    ++ (show (suc n)
        ++ (codes " JJ workspace(s), with "
            ++ (show (length (e ∷ errors)) ++ codes " refresh warning(s).")))

abbrev pub position_of : Option Text → List WorkspaceSummary → Option ℕ
position_of none workspaces = none
position_of (some id) workspaces = position (λ workspace. text_eq workspace.id id) workspaces

-- The active workspace: the one asked for, or else the first one.
abbrev pub active_index : Option Text → List WorkspaceSummary → Option ℕ
active_index id [] = none
active_index id (w ∷ ws) = or_else (position_of id (w ∷ ws)) (some 0)

-- The workspace at the index, which is in range.
abbrev pub workspace_at : List WorkspaceSummary → Option ℕ → Option WorkspaceSummary
workspace_at workspaces none = none
workspace_at workspaces (some index) = get_elem? workspaces index

abbrev pub bootstrap_state :
    {F : Type 0}
    → List ProjectRootRecord
    → List WorkspaceSummary
    → List Text
    → Option Text
    → Option (WorkspaceSnapshot F)
    → List PaneActivity
    → BootstrapState F
bootstrap_state roots workspaces errors active_workspace_id snapshot activity = record {
  status = loaded_status (length workspaces) errors;
  project_roots = roots;
  workspaces = workspaces;
  active_workspace_index = active_index active_workspace_id workspaces;
  active_snapshot = snapshot;
  pane_activity = activity;
}
