-- ===== src/App/Bootstrap/Tests.antt =====
-- crates/octty-app/src/bootstrap.rs: the theorems at a store in memory and a jj that answers from a list.
use octty.Base.{
  ℕ, pos, ◌==◌, if◌then◌else◌, Bool, true, false, ◌⊎◌, inl, inr, Option, none, some, Text, codes,
  text_eq, List, [], ◌∷◌, ◌++◌, ◌≡◌, ◌≢◌, refl, arith,
}
use octty.Base.BTreeMap.{BTreeMap, get, insert}
use octty.App.StatusRefresh.{reset_jj_workspace_status}
use octty.Core.Types.{
  ProjectRootRecord, WorkspaceSummary, WorkspaceSnapshot, default_workspace_status,
  encode_missing_workspace_path, has_recorded_workspace_path,
}
use octty.Core.Layout.{create_default_snapshot}
use octty.Jj.World.{ok, Output, Outside, return, after, str_path}
use octty.Jj.Workspaces.{forget_workspace}
use octty.App.Bootstrap.{BootstrapState, Services, bootstrap_state}
use octty.App.Bootstrap.Loading.{load_bootstrap_from_store, refresh_workspaces}
use octty.App.Bootstrap.Loaded.{IsLoaded, load_bootstrap_from_store-IsLoaded}
use octty.App.Bootstrap.Kept.{KeepsAll, refresh_workspaces-KeepsAll}
use octty.App.Bootstrap.Directories.{
  next_workspace_defaults, default_workspace_directory, names_of, IsFree,
  next_workspace_defaults-IsFree,
}
use octty.App.Bootstrap.Operations.{forget_workspace_and_reload, load}
use octty.App.Bootstrap.Spared.{Removed, forget_workspace_and_reload-Removed}

abbrev answer : List Output → (Text × List Output) ⊎ (Output × List Output)
answer [] = inl (codes "no more answers", [])
answer (out ∷ outs) = inr (out, outs)

abbrev scripted : Outside
scripted = record {
  World = List Output;
  spawn = λ cwd args w. answer w;
  canonicalize = λ path w. inr (str_path path, w);
  now_ms = λ w. (pos 5, w);
}

abbrev workspace : Text → WorkspaceSummary
workspace name = record {
  id = codes "id-" ++ name;
  root_id = codes "root";
  root_path = codes "/r";
  project_display_name = codes "r";
  workspace_name = name;
  display_name = name;
  workspace_path = codes "/ws/" ++ name;
  status = default_workspace_status;
  created_at = pos 1;
  updated_at = pos 1;
  last_opened_at = pos 1;
}

abbrev first : WorkspaceSummary
first = workspace (codes "workspace-1")

abbrev second : WorkspaceSummary
second = workspace (codes "b")

abbrev root : ProjectRootRecord
root = record {
  id = codes "root";
  root_path = codes "/r";
  display_name = codes "r";
  created_at = pos 1;
  updated_at = pos 1;
}

abbrev store : Services (List Output) ℕ
store = record {
  list_project_roots = return [];
  upsert_project_root = λ r. return tt;
  delete_project_root = λ id. return tt;
  list_workspaces = return (first ∷ (second ∷ []));
  upsert_workspace = λ w. return tt;
  delete_workspace = λ id. return tt;
  update_project_root_display_name = λ id name. return tt;
  update_workspace_project_display_name = λ id name. return tt;
  rename_stored_workspace = λ from to name display. return tt;
  get_snapshot = λ id. return none;
  save_snapshot = λ s. return tt;
  list_pane_activity = return [];
  current_dir = return (str_path (codes "/here"));
  home = some (codes "/home/u");
  create_dir_all = λ path. return tt;
  try_exists = λ path. return false;
  canonicalize = λ path. return path;
  remove_dir_all = λ path. return tt;
}

keyed :
    (id : Text) (v : List Output) (s : WorkspaceSnapshot ℕ) (v' : List Output)
    → store.get_snapshot id v ≡ (ok (some s), v')
    → s.workspace_id ≡ id
keyed id v s v' e = absurd (cc (e))

abbrev from_second : BootstrapState ℕ
from_second =
    bootstrap_state [] (first ∷ (second ∷ [])) [] (some second.id)
      (some (create_default_snapshot second.id (pos 5))) []

load_bootstrap_from_store-IsLoaded_example :
    IsLoaded scripted store keyed (some second.id) from_second
unfolding load_bootstrap_from_store after text_eq
load_bootstrap_from_store-IsLoaded_example =
    load_bootstrap_from_store-IsLoaded scripted store keyed false (some second.id) [] from_second []
      refl

-- A workspace whose path jj has lost, and that the store knows by another display name.
abbrev lost : WorkspaceSummary
lost = record second {
  workspace_path = encode_missing_workspace_path second.id;
  status = default_workspace_status;
}

abbrev known : BTreeMap WorkspaceSummary
known = insert lost.id (record second { display_name = codes "Mine"; created_at = pos 3 }) []

abbrev kept : List WorkspaceSummary × List Text
kept = (
  record lost {
    display_name = codes "Mine";
    created_at = pos 3;
    updated_at = pos 5;
    status = reset_jj_workspace_status default_workspace_status (pos 5);
  }
      ∷ [],
  [],
)

refresh_workspaces-KeepsAll_example : KeepsAll known (lost ∷ []) kept.0
unfolding refresh_workspaces after has_recorded_workspace_path encode_missing_workspace_path
    octty.App.Bootstrap.with_existing get insert text_eq
refresh_workspaces-KeepsAll_example =
    refresh_workspaces-KeepsAll scripted store known (lost ∷ []) [] kept [] refl

abbrev made : Text × Text
made = (codes "workspace-2", codes "/home/u/workspaces/r/workspace-2")

next_workspace_defaults-IsFree_example :
    (workspaces : List WorkspaceSummary) × (v : List Output) × (v' : List Output)
    × (store.list_workspaces v ≡ (ok workspaces, v'))
    × IsFree scripted store
        (default_workspace_directory scripted store root)
        (names_of scripted store root workspaces)
        1
        201
        made
unfolding next_workspace_defaults after octty.Base.Decimal.show octty.Base.ends_with
next_workspace_defaults-IsFree_example =
    next_workspace_defaults-IsFree scripted store root [] made [] refl

abbrev from_first : BootstrapState ℕ
from_first =
    bootstrap_state [] (first ∷ (second ∷ [])) [] none
      (some (create_default_snapshot first.id (pos 5))) []

abbrev forgot : Output
forgot = record { success = true; stdout = codes ""; stderr = codes "" }

forget_workspace_and_reload-Removed_example :
    (forgotten : List Output) × (gone : List Output) × (unlisted : List Output) × (forget_workspace
        scripted
        (str_path second.root_path)
        second.workspace_name
        (forgot ∷ [])
      ≡ (ok tt, forgotten))
    × Removed scripted store second forgotten gone
    × (store.delete_workspace second.id gone ≡ (ok tt, unlisted))
    × (load scripted store none unlisted ≡ (ok from_first, []))
unfolding forget_workspace_and_reload after text_eq forget_workspace has_recorded_workspace_path
    load_bootstrap_from_store octty.Jj.Workspaces.resolve_repo_root
forget_workspace_and_reload-Removed_example =
    forget_workspace_and_reload-Removed scripted store second none (forgot ∷ []) from_first [] refl
