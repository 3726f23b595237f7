-- ===== src/App/Bootstrap/Spared.antt =====
-- crates/octty-app/src/bootstrap.rs: which directory goes when a workspace is forgotten.
use octty.Base.{if◌then◌else◌, Bool, true, false, Option, Text, ◌≡◌, refl, sym, ap, ◌∙◌, unwrap_or}
use octty.Core.Types.{WorkspaceSummary, has_recorded_workspace_path}
use octty.Jj.World.{JjError, Result, ok, err, after, return, caught, Outside, str_path}
use octty.Jj.Workspaces.{forget_workspace}
use octty.App.Bootstrap.{BootstrapState, Services}
use octty.App.Bootstrap.Loaded.{after-eq-ok}
use octty.App.Bootstrap.Operations.{
  path_eq, canonical_or_same, bail_for, not_recorded, removal, forget_workspace_and_reload, deleted,
  load,
}

module _ (outside : Outside) {F : Type 0} (services : Services outside.World F) where
  open outside use {World}
  open services use {canonicalize, remove_dir_all, delete_workspace}

  -- The canonical path, or the path as it is where there is none.
  pub data Resolves (path : Text) (from : World) (found : Text) (to : World) : Type 0 where
    canonical : canonicalize path from ≡ (ok found, to) → Resolves path from found to
    unknown :
        (e : JjError)
        → canonicalize path from ≡ (err e, to)
        → found ≡ path
        → Resolves path from found to

  resolved :
      (path : Text) (from : World) (answer : Result Text × World) {found : Text} {to : World}
      → canonicalize path from ≡ answer
      → after (λ a. return (unwrap_or a path)) (caught answer) ≡ (ok found, to)
      → Resolves path from found to
  unfolding after
  resolved path from (ok a, v) {found} {to} e h = canonical (e ∙ h)
  resolved path from (err x, v) {found} {to} e h =
      let same : path ≡ found = cc (h) in
      let ends : v ≡ to = cc (h) in unknown x (e ∙ ap (λ w. (err x, w)) ends) (sym same)

  -- A directory that was removed, and that of the root, from which it differs as a path.
  pub record Removed (workspace : WorkspaceSummary) (from to : World) : Type 0 where
    pub path : Text
    pub root_path : Text
    pub before : World
    pub looked : World
    pub is_path : Resolves workspace.workspace_path from path looked
    pub is_root : Resolves workspace.root_path looked root_path before
    pub differs : path_eq path root_path ≡ false
    pub removed : remove_dir_all path before ≡ (ok tt, to)

  unless_root :
      (workspace : WorkspaceSummary) (path root_path : Text) (same : Bool) (v : World) {w' : World}
      → path_eq path root_path ≡ same
      → (if same then bail_for outside services workspace else remove_dir_all path) v ≡ (ok tt, w')
      → (path_eq path root_path ≡ false) × (remove_dir_all path v ≡ (ok tt, w'))
  unless_root workspace path root_path true v e h = absurd (cc (h))
  unless_root workspace path root_path false v e h = (e, h)

  recorded-Removed :
      (workspace : WorkspaceSummary) (recorded : Bool) (w : World) {w' : World}
      → (if recorded
            then removal outside services workspace
            else not_recorded outside services workspace)
          w
        ≡ (ok tt, w')
      → Removed workspace w w'
  recorded-Removed workspace false w h = absurd (cc (h))
  recorded-Removed workspace true w h =
      let (path, v, found, rest) =
        after-eq-ok _ (canonical_or_same outside services workspace.workspace_path w) h in
      let (root_path, v', found', rest') =
        after-eq-ok _ (canonical_or_same outside services workspace.root_path v) rest in
      let (differs, removed) =
        unless_root workspace path root_path (path_eq path root_path) v' refl rest' in
      record {
        path = path;
        root_path = root_path;
        before = v';
        looked = v;
        is_path =
            resolved workspace.workspace_path w (canonicalize workspace.workspace_path w) refl
              found;
        is_root = resolved workspace.root_path v (canonicalize workspace.root_path v) refl found';
        differs = differs;
        removed = removed;
      }

  -- A workspace is forgotten and its directory deleted in this order: jj forgets it, the directory is
  -- removed, and then its row. The directory is the canonical path of the workspace, or the
  -- recorded one if it has none, and as a path it differs from that of the repository, likewise
  -- canonical if there is one. So where both have a canonical path these differ, whatever links led
  -- to them.
  pub forget_workspace_and_reload-Removed :
      (workspace : WorkspaceSummary) (active : Option Text) (w : World) (b : BootstrapState F)
      (w' : World)
      → forget_workspace_and_reload outside services workspace active true w ≡ (ok b, w')
      → (forgotten : World) × (gone : World) × (unlisted : World) × (forget_workspace outside
            (str_path workspace.root_path)
            workspace.workspace_name
            w
          ≡ (ok tt, forgotten))
        × Removed workspace forgotten gone
        × (delete_workspace workspace.id gone ≡ (ok tt, unlisted))
        × (load outside services active unlisted ≡ (ok b, w'))
  unfolding forget_workspace_and_reload
  forget_workspace_and_reload-Removed workspace active w b w' h =
      let (_, forgotten, did, rest) =
        after-eq-ok _
          (forget_workspace outside (str_path workspace.root_path) workspace.workspace_name w) h in
      let (_, gone, deleting, rest') =
        after-eq-ok _ (deleted outside services workspace true forgotten) rest in
      let (_, unlisted, dropped, rest'') =
        after-eq-ok _ (delete_workspace workspace.id gone) rest' in
      (
        forgotten,
        gone,
        unlisted,
        did,
        recorded-Removed workspace (has_recorded_workspace_path workspace.workspace_path) forgotten
            deleting,
        dropped,
        rest'',
      )
