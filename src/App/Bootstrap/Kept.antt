-- ===== src/App/Bootstrap/Kept.antt =====
-- crates/octty-app/src/bootstrap.rs: what discovered workspaces keep of the stored ones.
use mathlib.Core.Path.{subst}
use mathlib.Core.Option.{some-injective}
use octty.Base.{
  ℤ, Bool, true, false, ◌⊎◌, inl, inr, Option, none, some, Text, List, [], ◌∷◌, ◌++◌, ◌≡◌, refl,
  sym, ap, ◌∙◌,
}
use octty.Base.BTreeMap.{BTreeMap, get}
use octty.Core.Types.{WorkspaceSummary, WorkspaceStatus, has_recorded_workspace_path}
use octty.Jj.World.{JjError, ok, Outside, after, str_path}
use octty.Jj.Command.{read_workspace_status}
use octty.App.StatusRefresh.{reset_jj_workspace_status}
use octty.App.Bootstrap.{Services, with_existing, with_status, settle}
use octty.App.Bootstrap.Loading.{refreshed, refresh_workspace, refresh_workspaces}
use octty.App.Bootstrap.Loaded.{after-eq-ok}

-- The same workspace, but for its status.
record SameButStatus (v w : WorkspaceSummary) : Type 0 where
  ids : w.id ≡ v.id
  paths : w.workspace_path ≡ v.workspace_path
  names : w.display_name ≡ v.display_name
  created : w.created_at ≡ v.created_at
  opened : w.last_opened_at ≡ v.last_opened_at

-- A workspace that was discovered as `d`: its path is the present one, and what the user has set is
-- that of the stored workspace, if there is one.
pub record Keeps (existing : BTreeMap WorkspaceSummary) (d w : WorkspaceSummary) : Type 0 where
  pub ids : w.id ≡ d.id
  pub paths : w.workspace_path ≡ d.workspace_path
  pub known :
      (e : WorkspaceSummary)
      → get d.id existing ≡ some e
      → (w.display_name ≡ e.display_name)
        × (w.created_at ≡ e.created_at)
        × (w.last_opened_at ≡ e.last_opened_at)

abbrev pub KeepsAll :
    BTreeMap WorkspaceSummary → List WorkspaceSummary → List WorkspaceSummary → Type 0
KeepsAll existing [] [] = Unit {0}
KeepsAll existing [] (w ∷ ws) = ⊥
KeepsAll existing (d ∷ ds) [] = ⊥
KeepsAll existing (d ∷ ds) (w ∷ ws) = Keeps existing d w × KeepsAll existing ds ws

with_status-SameButStatus :
    (v : WorkspaceSummary) (s : JjError ⊎ WorkspaceStatus) → SameButStatus v (with_status v s).0
with_status-SameButStatus v (inl e) = record {
  ids = refl;
  paths = refl;
  names = refl;
  created = refl;
  opened = refl;
}
with_status-SameButStatus v (inr s) = record {
  ids = refl;
  paths = refl;
  names = refl;
  created = refl;
  opened = refl;
}

with_existing-Keeps :
    (existing : BTreeMap WorkspaceSummary) (stored : Option WorkspaceSummary) (now : ℤ)
    (d w : WorkspaceSummary)
    → get d.id existing ≡ stored
    → SameButStatus (with_existing stored now d) w
    → Keeps existing d w
unfolding with_existing
with_existing-Keeps existing none now d w g s = record {
  ids = s.ids;
  paths = s.paths;
  known = λ e k. absurd (cc (g, k));
}
with_existing-Keeps existing (some x) now d w g s = record {
  ids = s.ids;
  paths = s.paths;
  known = λ e k.
      let same = some-injective x e (sym g ∙ k) in
      (
        s.names ∙ ap (λ (v : WorkspaceSummary). v.display_name) same,
        s.created ∙ ap (λ (v : WorkspaceSummary). v.created_at) same,
        s.opened ∙ ap (λ (v : WorkspaceSummary). v.last_opened_at) same,
      );
}

module _ (outside : Outside) {F : Type 0} (services : Services outside.World F) where
  refreshed-SameButStatus :
      (v : WorkspaceSummary) (recorded : Bool) (u : outside.World)
      {done : WorkspaceSummary × List Text} {u' : outside.World}
      → refreshed outside services v recorded u ≡ (ok done, u')
      → SameButStatus v done.0
  unfolding after
  refreshed-SameButStatus v true u {done} h =
      let (status, t, read, rest) =
        after-eq-ok _
          (settle (read_workspace_status outside (str_path v.workspace_path) v.workspace_name) u)
          h in
      let e : with_status v status ≡ done = cc (rest) in
      subst (λ (d : WorkspaceSummary × List Text). SameButStatus v d.0) e
        (with_status-SameButStatus v status)
  refreshed-SameButStatus v false u {done} h =
      let reset = record v { status = reset_jj_workspace_status v.status (outside.now_ms u).0 } in
      let e : (reset, []) ≡ done = cc (h) in
      subst (λ (d : WorkspaceSummary × List Text). SameButStatus v d.0) e
        (record { ids = refl; paths = refl; names = refl; created = refl; opened = refl })

  refresh_workspace-Keeps :
      (existing : BTreeMap WorkspaceSummary) (d : WorkspaceSummary) (u : outside.World)
      {done : WorkspaceSummary × List Text} {u' : outside.World}
      → refresh_workspace outside services existing d u ≡ (ok done, u')
      → Keeps existing d done.0
  unfolding refresh_workspace after
  refresh_workspace-Keeps existing d u {done} h =
      let now = (outside.now_ms u).0 in
      let v = with_existing (get d.id existing) now d in
      let (done', t, refreshing, rest) =
        after-eq-ok _
          (refreshed outside services v (has_recorded_workspace_path d.workspace_path)
            (outside.now_ms u).1)
          h in
      let (saved, t', saving, rest') = after-eq-ok _ (services.upsert_workspace done'.0 t) rest in
      let e : done' ≡ done = cc (rest') in
      subst (λ (x : WorkspaceSummary × List Text). Keeps existing d x.0) e
        (with_existing-Keeps existing (get d.id existing) now d done'.0 refl (
          refreshed-SameButStatus v (has_recorded_workspace_path d.workspace_path)
            (outside.now_ms u).1 refreshing))

  -- When the workspaces of a root are refreshed, whatever jj answers on their status, each discovered
  -- workspace is returned once and in its place, at the path where it was discovered, and one that the
  -- store knows keeps its display name, the time it was created, and the time it was last opened.
  pub refresh_workspaces-KeepsAll :
      (existing : BTreeMap WorkspaceSummary) (ds : List WorkspaceSummary) (u : outside.World)
      (done : List WorkspaceSummary × List Text) (u' : outside.World)
      → refresh_workspaces outside services existing ds u ≡ (ok done, u')
      → KeepsAll existing ds done.0
  unfolding refresh_workspaces
  refresh_workspaces-KeepsAll existing [] u done u' h =
      let e : ([], []) ≡ done = cc (h) in
      subst (λ (x : List WorkspaceSummary × List Text). KeepsAll existing [] x.0) e tt
  refresh_workspaces-KeepsAll existing (d ∷ ds) u done u' h =
      let (one, t, first, rest) =
        after-eq-ok _ (refresh_workspace outside services existing d u) h in
      let (more, t', others, built) =
        after-eq-ok _ (refresh_workspaces outside services existing ds t) rest in
      let e : (one.0 ∷ more.0, one.1 ++ more.1) ≡ done = cc (built) in
      subst (λ (x : List WorkspaceSummary × List Text). KeepsAll existing (d ∷ ds) x.0) e
        (
          refresh_workspace-Keeps existing d u first,
          refresh_workspaces-KeepsAll existing ds t more t' others,
        )
