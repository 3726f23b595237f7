-- ===== src/App/Bootstrap/Loaded.antt =====
-- crates/octty-app/src/bootstrap.rs: the state that the application starts from fits together.
use mathlib.Core.Path.{subst}
use mathlib.Core.Option.{some-injective}
use octty.Base.{
  any, ℤ, ℕ, suc, ==_iff, Bool, true, false, ◌⊎◌, inl, inr, Option, none, some, Text, text_eq,
  text_eq_iff, List, [], ◌∷◌, position, get_elem?, ◌≡◌, refl, sym, ap, ◌∙◌, Bool-cases,
}
use octty.Core.Types.{WorkspaceSummary, WorkspaceSnapshot, ProjectRootRecord}
use octty.Core.Layout.{create_default_snapshot, layout_version}
use octty.Jj.World.{Result, ok, err, Outside, M, after}
use octty.App.Bootstrap.{
  BootstrapState, Services, active_index, workspace_at, bootstrap_state, by_id,
}
use octty.App.Bootstrap.Loading.{
  load_workspace_snapshot, stored_or_new, current, snapshot_of, finish_bootstrap,
  load_bootstrap_from_store, seeded, load_roots, or_stored,
}

-- A chain of calls succeeds only if both parts do.
pub after-eq-ok :
    {W A B : Type 0} (f : A → M W B) (p : Result A × W) {b : B} {w : W}
    → after f p ≡ (ok b, w)
    → (a : A) × (v : W) × (p ≡ (ok a, v)) × (f a v ≡ (ok b, w))
unfolding after
after-eq-ok f (ok a, v) h = (a, v, refl, h)
after-eq-ok f (err e, v) h = absurd (cc h)

-- The place of the first workspace of an id, if there is one.
placed :
    (id : Text) (ws : List WorkspaceSummary)
    → ((position (λ workspace. text_eq workspace.id id) ws ≡ none)
        × (any (λ workspace. text_eq workspace.id id) ws ≡ false))
      ⊎ ((i : ℕ) × (workspace : WorkspaceSummary) × (position
              (λ workspace. text_eq workspace.id id)
              ws
            ≡ some i)
          × (get_elem? ws i ≡ some workspace)
          × (workspace.id ≡ id))
placed id [] = inl (refl, refl)
placed id (w ∷ ws) = elim (Bool-cases (text_eq w.id id)) [
  | inl e ↦ inr (0, w, rw e refl, refl, (text_eq_iff w.id id).0 e)
  | inr e ↦ elim (placed id ws) [
    | inl (p, q) ↦ inl (rw e (rw p refl), rw e q)
    | inr (i, workspace, p, at, same) ↦ inr (suc i, workspace, rw e (rw p refl), at, same)
  ]
]

-- The workspace that is active at the start: none if there are no workspaces, or else one of them,
-- and the one of the id asked for, if it is among them.
abbrev pub Picks : Option Text → List WorkspaceSummary → Option WorkspaceSummary → Type 0
Picks asked ws none = ws ≡ []
Picks asked ws (some workspace) =
    (i : ℕ) × (get_elem? ws i ≡ some workspace)
    × ((id : Text) → asked ≡ some id → any (λ w. text_eq w.id id) ws ≡ true → workspace.id ≡ id)

picks :
    (asked : Option Text) (ws : List WorkspaceSummary)
    → Picks asked ws (workspace_at ws (active_index asked ws))
picks asked [] = refl
picks none (w ∷ ws) = (0, refl, λ id e. absurd (cc (e)))
picks (some id) (w ∷ ws) = elim (placed id (w ∷ ws)) [
  | inl (p, q) ↦ rw p (
    0,
    refl,
    λ id' e known.
        absurd
          (cc (q, known, ap (λ i. any (λ v. text_eq v.id i) (w ∷ ws)) (some-injective id id' e))),
  )
  | inr (i, workspace, p, at, same) ↦
      rw p (rw at (i, at, λ id' e known. same ∙ some-injective id id' e))
]

-- A snapshot of the workspace that is active, in the layout of this version.
abbrev pub Shows : Option WorkspaceSummary → {F : Type 0} → Option (WorkspaceSnapshot F) → Type 0
Shows none none = Unit {0}
Shows none (some s) = ⊥
Shows (some w) none = ⊥
Shows (some w) (some s) = (s.workspace_id ≡ w.id) × (s.layout_version ≡ layout_version)

module _ (outside : Outside) {F : Type 0} (services : Services outside.World F)
    (keyed : (id : Text) (v : outside.World) (s : WorkspaceSnapshot F) (v' : outside.World)
      → services.get_snapshot id v ≡ (ok (some s), v')
      → s.workspace_id ≡ id) where
  saved-Shows :
      (workspace : WorkspaceSummary) (now : ℤ) (v : outside.World) {s : WorkspaceSnapshot F}
      {v' : outside.World}
      → after
          (λ _ u. (ok (create_default_snapshot workspace.id now), u))
          (services.save_snapshot (create_default_snapshot workspace.id now) v)
        ≡ (ok s, v')
      → Shows (some workspace) (some s)
  unfolding create_default_snapshot
  saved-Shows workspace now v {s} h =
      let (done, u, saved, rest) =
        after-eq-ok (λ _ u. (ok (create_default_snapshot workspace.id now), u))
          (services.save_snapshot (create_default_snapshot workspace.id now) v) h in
      let e : create_default_snapshot workspace.id now ≡ s = cc (rest) in
      (
        ap (λ (t : WorkspaceSnapshot F). t.workspace_id) (sym e),
        ap (λ (t : WorkspaceSnapshot F). t.layout_version) (sym e),
      )

  stored_or_new-Shows :
      (workspace : WorkspaceSummary) (stored : Option (WorkspaceSnapshot F)) (c : Bool)
      (v : outside.World) {s : WorkspaceSnapshot F} {v' : outside.World}
      → current outside services stored ≡ c
      → ((x : WorkspaceSnapshot F) → stored ≡ some x → x.workspace_id ≡ workspace.id)
      → stored_or_new outside services workspace stored c v ≡ (ok s, v')
      → Shows (some workspace) (some s)
  unfolding after
  stored_or_new-Shows workspace (some x) true v {s} is_current key h =
      let e : x ≡ s = cc (h) in
      (
        ap (λ (t : WorkspaceSnapshot F). t.workspace_id) (sym e) ∙ key x refl,
        ap (λ (t : WorkspaceSnapshot F). t.layout_version) (sym e)
            ∙ (==_iff x.layout_version layout_version).0 is_current,
      )
  stored_or_new-Shows workspace (some x) false v is_current key h =
      saved-Shows workspace (outside.now_ms v).0 (outside.now_ms v).1 h
  stored_or_new-Shows workspace none c v is_current key h =
      saved-Shows workspace (outside.now_ms v).0 (outside.now_ms v).1 h

  load_workspace_snapshot-Shows :
      (workspace : WorkspaceSummary) (v : outside.World) {s : WorkspaceSnapshot F}
      {v' : outside.World}
      → load_workspace_snapshot outside services workspace v ≡ (ok s, v')
      → Shows (some workspace) (some s)
  unfolding load_workspace_snapshot
  load_workspace_snapshot-Shows workspace v h =
      let (stored, u, got, rest) = after-eq-ok _ (services.get_snapshot workspace.id v) h in
      stored_or_new-Shows workspace stored (current outside services stored) u refl
        (λ x e. keyed workspace.id v x u (got ∙ ap (λ o. (ok o, u)) e)) rest

  snapshot_of-Shows :
      (workspace : Option WorkspaceSummary) (v : outside.World) {s : Option (WorkspaceSnapshot F)}
      {v' : outside.World}
      → snapshot_of outside services workspace v ≡ (ok s, v')
      → Shows workspace s
  snapshot_of-Shows none v h = subst (Shows none) (let e : none ≡ _ = cc (h) in e) tt
  snapshot_of-Shows (some workspace) v h =
      let (s, u, loaded, rest) =
        after-eq-ok _ (load_workspace_snapshot outside services workspace v) h in
      subst (Shows (some workspace)) (let e : some s ≡ _ = cc (rest) in e)
        (load_workspace_snapshot-Shows workspace v loaded)

  -- What is shown at the start fits together.
  pub record IsLoaded (asked : Option Text) (b : BootstrapState F) : Type 0 where
    pub picked : Picks asked b.workspaces (workspace_at b.workspaces b.active_workspace_index)
    pub shown : Shows (workspace_at b.workspaces b.active_workspace_index) b.active_snapshot

  finish_bootstrap-IsLoaded :
      (roots : List ProjectRootRecord) (ws : List WorkspaceSummary) (errors : List Text)
      (asked : Option Text) (v : outside.World) {b : BootstrapState F} {v' : outside.World}
      → finish_bootstrap outside services roots ws errors asked v ≡ (ok b, v')
      → IsLoaded asked b
  unfolding finish_bootstrap
  finish_bootstrap-IsLoaded roots ws errors asked v h =
      let (s, u, loaded, rest) =
        after-eq-ok _ (snapshot_of outside services (workspace_at ws (active_index asked ws)) v)
          h in
      let (activity, t, listed, built) = after-eq-ok _ (services.list_pane_activity u) rest in
      let e : bootstrap_state roots ws errors asked s activity ≡ _ = cc (built) in
      subst (IsLoaded asked) e (record {
        picked = picks asked ws;
        shown = snapshot_of-Shows (workspace_at ws (active_index asked ws)) v loaded;
      })

  -- Whatever jj and the store answer, what a load returns fits together, if the store returns a
  -- snapshot only under the id of its workspace. A workspace is active exactly if there is one; it is
  -- the one asked for, if that is still among them; and the snapshot is that of the active workspace,
  -- in the present version of the layout.
  pub load_bootstrap_from_store-IsLoaded :
      (auto_seed : Bool) (asked : Option Text) (w : outside.World) (b : BootstrapState F)
      (w' : outside.World)
      → load_bootstrap_from_store outside services auto_seed asked w ≡ (ok b, w')
      → IsLoaded asked b
  unfolding load_bootstrap_from_store
  load_bootstrap_from_store-IsLoaded auto_seed asked w b w' h =
      let (stored_roots, w1, got1, rest1) = after-eq-ok _ (services.list_project_roots w) h in
      let (roots, w2, got2, rest2) =
        after-eq-ok _ (seeded outside services auto_seed stored_roots w1) rest1 in
      let (stored, w3, got3, rest3) = after-eq-ok _ (services.list_workspaces w2) rest2 in
      let (found, w4, got4, rest4) =
        after-eq-ok _ (load_roots outside services (by_id stored []) roots w3) rest3 in
      let (ws, w5, got5, rest5) = after-eq-ok _ (or_stored outside services found.0 w4) rest4 in
      finish_bootstrap-IsLoaded roots ws found.1 asked w5 rest5
