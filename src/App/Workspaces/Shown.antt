-- ===== src/App/Workspaces/Shown.antt =====
-- crates/octty-app/src/app_core.rs: the snapshot that is shown is that of the active workspace.
use mathlib.Core.Path.{subst}
use mathlib.Core.Option.{some-injective}
use octty.Base.{
  ℕ, ◌-◌, min, leb, ◌==◌, true, Bool-cases, inl, inr, Option, none, some, and_then, Text,
  text_eq_iff, is_empty, List, [], length, get_elem?, ◌≡◌, refl, sym, ap, ◌∙◌, unwrap_or,
}
use octty.Core.Types.{WorkspaceSummary, WorkspaceSnapshot}
use octty.App.Bootstrap.{BootstrapState, workspace_at}
use octty.App.Bootstrap.Loaded.{Shows}
use octty.App.Workspaces.{
  Load, App, WorkspaceNavigationDirection, is_index, navigation_target, active_workspace, opened,
  open_workspace, navigate_workspace, still_active, finish_load, apply_bootstrap,
}

active-workspace_at :
    (ws : List WorkspaceSummary) (index : Option ℕ)
    → and_then index (get_elem? ws) ≡ workspace_at ws index
active-workspace_at ws none = refl
active-workspace_at ws (some i) = refl

module _ {F : Type 0} where
  abbrev pub Fits : Option WorkspaceSummary → Option (WorkspaceSnapshot F) → Type 0
  Fits workspace none = Unit {0}
  Fits none (some s) = ⊥
  Fits (some workspace) (some s) = s.workspace_id ≡ workspace.id

  abbrev pub IsShown : App F → Type 0
  IsShown app = Fits (active_workspace app) app.active_snapshot

  -- What the user and the tasks do, in any order. A load brings a snapshot of its workspace; a
  -- change of the panes keeps the workspace of the snapshot; and a bootstrap fits together.
  pub data Step : App F → App F → Type 0 where
    opens : (app : App F) (index : ℕ) → Step app (open_workspace index app)
    navigates :
        (app : App F) (direction : WorkspaceNavigationDirection)
        → Step app (navigate_workspace direction app)
    loads :
        (app : App F) (load : Load) (s : WorkspaceSnapshot F)
        → s.workspace_id ≡ load.workspace_id
        → Step app (finish_load load (some s) [] app)
    fails : (app : App F) (load : Load) (e : Text) → Step app (finish_load load none e app)
    changes :
        (app : App F) (old new : WorkspaceSnapshot F)
        → app.active_snapshot ≡ some old
        → new.workspace_id ≡ old.workspace_id
        → Step app (record app { active_snapshot = some new })
    reloads :
        (app : App F) (b : BootstrapState F)
        → Shows (workspace_at b.workspaces b.active_workspace_index) b.active_snapshot
        → Step app (apply_bootstrap b app)

  pub data Reach (from : App F) : App F → Type 0 where
    here : Reach from from
    next : {app app' : App F} → Reach from app → Step app app' → Reach from app'

  opened-IsShown :
      (index : ℕ) (app : App F) (w : Option WorkspaceSummary)
      → IsShown app
      → IsShown (opened index app w)
  opened-IsShown index app none h = h
  opened-IsShown index app (some w) h = tt

  open_workspace-IsShown :
      (index : ℕ) (app : App F) → IsShown app → IsShown (open_workspace index app)
  unfolding open_workspace active_workspace
  open_workspace-IsShown index app h = elim (Bool-cases (leb (length app.workspaces) index)) [
    | inl e ↦ rw e h
    | inr e ↦ elim (Bool-cases (is_index index app.active_workspace_index)) [
      | inl e' ↦ rw e (rw e' h)
      | inr e' ↦ rw e (rw e' (opened-IsShown index app (get_elem? app.workspaces index) h))
    ]
  ]

  navigate_workspace-IsShown :
      (direction : WorkspaceNavigationDirection) (app : App F)
      → IsShown app
      → IsShown (navigate_workspace direction app)
  unfolding navigate_workspace
  navigate_workspace-IsShown direction app h =
      let current = min (unwrap_or app.active_workspace_index 0) (length app.workspaces - 1) in
      let target = navigation_target direction current (length app.workspaces) in
      elim (Bool-cases (is_empty app.workspaces)) [
        | inl e ↦ rw e h
        | inr e ↦ elim (Bool-cases (target == current)) [
          | inl e' ↦ rw e (rw e' h)
          | inr e' ↦ rw e (rw e' (open_workspace-IsShown target app h))
        ]
      ]

  -- The active workspace is that of the task.
  still_active-Fits :
      (id : Text) (workspace : Option WorkspaceSummary) (s : WorkspaceSnapshot F)
      → still_active id workspace ≡ true
      → s.workspace_id ≡ id
      → Fits workspace (some s)
  still_active-Fits id none s h e = cc (h)
  still_active-Fits id (some w) s h e = e ∙ sym ((text_eq_iff w.id id).0 h)

  finish_load-IsShown :
      (load : Load) (s : WorkspaceSnapshot F) (app : App F)
      → s.workspace_id ≡ load.workspace_id
      → IsShown app
      → IsShown (finish_load load (some s) [] app)
  unfolding finish_load
  finish_load-IsShown load s app same h =
      elim (Bool-cases (still_active load.workspace_id (active_workspace app))) [
        | inl e ↦ rw e (still_active-Fits load.workspace_id (active_workspace app) s e same)
        | inr e ↦ rw e h
      ]

  failed_load-IsShown :
      (load : Load) (e : Text) (app : App F) → IsShown app → IsShown (finish_load load none e app)
  unfolding finish_load
  failed_load-IsShown load message app h =
      elim (Bool-cases (still_active load.workspace_id (active_workspace app))) [
        | inl e ↦ rw e h
        | inr e ↦ rw e h
      ]

  changed-Fits :
      (workspace : Option WorkspaceSummary) (shown : Option (WorkspaceSnapshot F))
      (old new : WorkspaceSnapshot F)
      → Fits workspace shown
      → shown ≡ some old
      → new.workspace_id ≡ old.workspace_id
      → Fits workspace (some new)
  changed-Fits workspace none old new h e same = absurd (cc (e))
  changed-Fits none (some s) old new h e same = h
  changed-Fits (some w) (some s) old new h e same =
      same ∙ ap (λ (t : WorkspaceSnapshot F). t.workspace_id) (sym (some-injective s old e)) ∙ h

  Shows-Fits :
      (w : Option WorkspaceSummary) (s : Option (WorkspaceSnapshot F)) → Shows w s → Fits w s
  Shows-Fits none none h = tt
  Shows-Fits none (some s) h = h
  Shows-Fits (some w) none h = tt
  Shows-Fits (some w) (some s) h = h.0

  Step-IsShown : {app app' : App F} → Step app app' → IsShown app → IsShown app'
  unfolding active_workspace apply_bootstrap
  Step-IsShown (opens app index) h = open_workspace-IsShown index app h
  Step-IsShown (navigates app direction) h = navigate_workspace-IsShown direction app h
  Step-IsShown (loads app load s same) h = finish_load-IsShown load s app same h
  Step-IsShown (fails app load e) h = failed_load-IsShown load e app h
  Step-IsShown (changes app old new e same) h =
      changed-Fits (active_workspace app) app.active_snapshot old new h e same
  Step-IsShown (reloads app b shows) h =
      subst (λ w. Fits w b.active_snapshot)
        (sym (active-workspace_at b.workspaces b.active_workspace_index))
        (Shows-Fits (workspace_at b.workspaces b.active_workspace_index) b.active_snapshot shows)

  -- The panes that are shown are always those of the active workspace. This holds after any sequence
  -- of opening and navigating, of loads that end or fail in any order, also of workspaces that are no
  -- longer active, of changes of the panes and of reloads of the list of workspaces, if a load brings
  -- a snapshot of its workspace and a reload fits together.
  pub Reach-IsShown : {from app : App F} → Reach from app → IsShown from → IsShown app
  Reach-IsShown here h = h
  Reach-IsShown (next r s) h = Step-IsShown s (Reach-IsShown r h)
