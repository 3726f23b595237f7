-- ===== src/App/Flush/Kept.antt =====
-- crates/octty-app/src/app_panes.rs: what the pictures of a flush leave as it is.
use mathlib.Core.Path.{subst}
use octty.Base.{
  ℕ, suc, ℤ, if◌then◌else◌, Bool, true, false, Bool-cases, inl, inr, Option, none, some, Text,
  text_eq, text_eq_iff, one_of, List, [], ◌∷◌, map, option_map, ◌≡◌, refl, sym, ap, ◌∙◌,
}
use octty.Base.BTreeMap.{BTreeMap, get, adjust, get-adjust}
use octty.Core.Types.{
  PanePayload, terminal, note, browser, diff, PaneState, WorkspaceSnapshot, live,
}
use octty.App.Flush.{
  App, session_of, with_session, apply_panes, apply_snapshot, apply_snapshots,
  apply_terminal_flush_snapshots,
}

module _ {F : Type 0} where
  -- A payload without what a flush may bring.
  abbrev pub settings : PanePayload F → PanePayload F
  settings (terminal payload) = terminal (record payload {
    session_id = none;
    inner_session_id = none;
    session_state = live;
    exit_code = none;
    restored_buffer = [];
  })
  settings payload = payload

  -- A pane with keys that wait is the same; of another one, at most the session changes.
  pub record KeepsPane (waits : Bool) (before after : PaneState F) : Type 0 where
    pub untouched : waits ≡ true → after ≡ before
    pub ids : after.id ≡ before.id
    pub types : after.pane_type ≡ before.pane_type
    pub titles : after.title ≡ before.title
    pub payloads : settings after.payload ≡ settings before.payload

  abbrev pub KeepsFound : Bool → Option (PaneState F) → Option (PaneState F) → Type 0
  KeepsFound waits none none = Unit {0}
  KeepsFound waits none (some after) = ⊥
  KeepsFound waits (some before) none = ⊥
  KeepsFound waits (some before) (some after) = KeepsPane waits before after

  abbrev pub KeepsPanes : List Text → BTreeMap (PaneState F) → BTreeMap (PaneState F) → Type 0
  KeepsPanes pending_panes before after =
      (id : Text) → KeepsFound (one_of id pending_panes) (get id before) (get id after)

  -- The layout is the same, and so are the panes but for their sessions.
  pub record Keeps (pending_panes : List Text) (before after : WorkspaceSnapshot F) : Type 0 where
    pub layout :
        record after { panes = []; updated_at = before.updated_at } ≡ record before { panes = [] }
    pub panes : KeepsPanes pending_panes before.panes after.panes

  KeepsFound-refl : (waits : Bool) (p : Option (PaneState F)) → KeepsFound waits p p
  KeepsFound-refl waits none = tt
  KeepsFound-refl waits (some p) = record {
    untouched = λ _. refl;
    ids = refl;
    types = refl;
    titles = refl;
    payloads = refl;
  }

  KeepsFound-trans :
      (waits : Bool) (p q r : Option (PaneState F))
      → KeepsFound waits p q
      → KeepsFound waits q r
      → KeepsFound waits p r
  KeepsFound-trans waits none none none h k = tt
  KeepsFound-trans waits none none (some r) h k = elim k [ ]
  KeepsFound-trans waits none (some q) r h k = elim h [ ]
  KeepsFound-trans waits (some p) none r h k = elim h [ ]
  KeepsFound-trans waits (some p) (some q) none h k = elim k [ ]
  KeepsFound-trans waits (some p) (some q) (some r) h k = record {
    untouched = λ w. k.untouched w ∙ h.untouched w;
    ids = k.ids ∙ h.ids;
    types = k.types ∙ h.types;
    titles = k.titles ∙ h.titles;
    payloads = k.payloads ∙ h.payloads;
  }

  settings-session_of :
      (updated current : PanePayload F) → settings (session_of updated current) ≡ settings current
  settings-session_of (terminal u) (terminal c) = refl
  settings-session_of (terminal u) (note c) = refl
  settings-session_of (terminal u) (browser c) = refl
  settings-session_of (terminal u) (diff c) = refl
  settings-session_of (note u) c = refl
  settings-session_of (browser u) c = refl
  settings-session_of (diff u) c = refl

  changed-KeepsFound :
      (payload : PanePayload F) (p : Option (PaneState F))
      → KeepsFound false p (option_map (with_session payload) p)
  changed-KeepsFound payload none = tt
  changed-KeepsFound payload (some p) = record {
    untouched = λ w. absurd (cc (w));
    ids = refl;
    types = refl;
    titles = refl;
    payloads = settings-session_of payload p.payload;
  }

  adjust-KeepsPanes :
      (pending_panes : List Text) (pane_id : Text) (payload : PanePayload F)
      (panes : BTreeMap (PaneState F))
      → one_of pane_id pending_panes ≡ false
      → KeepsPanes pending_panes panes (adjust pane_id (with_session payload) panes)
  adjust-KeepsPanes pending_panes pane_id payload panes free id =
      subst (KeepsFound (one_of id pending_panes) (get id panes))
        (sym (get-adjust id pane_id (with_session payload) panes))
        (found-KeepsFound (text_eq pane_id id) refl)
    where
      found-KeepsFound :
          (same : Bool)
          → text_eq pane_id id ≡ same
          → KeepsFound
              (one_of id pending_panes)
              (get id panes)
              (if same then option_map (with_session payload) (get id panes) else get id panes)
      found-KeepsFound true e =
          let free' =
            ap (λ i. one_of i pending_panes) (sym ((text_eq_iff pane_id id).0 e)) ∙ free in
          subst
            (λ w. KeepsFound w (get id panes) (option_map (with_session payload) (get id panes)))
            (sym free') (changed-KeepsFound payload (get id panes))
      found-KeepsFound false e = KeepsFound-refl (one_of id pending_panes) (get id panes)

  apply_panes-KeepsPanes :
      (pending_panes : List Text) (updated panes : BTreeMap (PaneState F))
      → KeepsPanes pending_panes panes (apply_panes pending_panes updated panes)
  unfolding apply_panes
  apply_panes-KeepsPanes pending_panes [] panes id =
      KeepsFound-refl (one_of id pending_panes) (get id panes)
  apply_panes-KeepsPanes pending_panes ((pane_id, pane) ∷ rest) panes id =
      elim (Bool-cases (one_of pane_id pending_panes)) [
        | inl e ↦ rw e (apply_panes-KeepsPanes pending_panes rest panes id)
        | inr e ↦ rw e (
            let changed = adjust pane_id (with_session pane.payload) panes in
            KeepsFound-trans (one_of id pending_panes) (get id panes) (get id changed)
              (get id (apply_panes pending_panes rest changed))
              (adjust-KeepsPanes pending_panes pane_id pane.payload panes e id)
              (apply_panes-KeepsPanes pending_panes rest changed id))
      ]

  apply_snapshot-Keeps :
      (pending_panes : List Text) (now : ℤ) (snapshot active : WorkspaceSnapshot F)
      → Keeps pending_panes active (apply_snapshot pending_panes now snapshot active)
  apply_snapshot-Keeps pending_panes now snapshot active =
      elim (Bool-cases (text_eq snapshot.workspace_id active.workspace_id)) [
        | inl e ↦ rw e (record {
          layout = refl;
          panes = apply_panes-KeepsPanes pending_panes snapshot.panes active.panes;
        })
        | inr e ↦ rw e (record {
          layout = refl;
          panes = λ id. KeepsFound-refl (one_of id pending_panes) (get id active.panes);
        })
      ]

  apply_snapshots-Keeps :
      (pending_panes : List Text) (clock : ℕ → ℤ) (snapshots : List (WorkspaceSnapshot F))
      (active : WorkspaceSnapshot F)
      → Keeps pending_panes active (apply_snapshots pending_panes clock snapshots active)
  unfolding apply_snapshots
  apply_snapshots-Keeps pending_panes clock [] active = record {
    layout = refl;
    panes = λ id. KeepsFound-refl (one_of id pending_panes) (get id active.panes);
  }
  apply_snapshots-Keeps pending_panes clock (snapshot ∷ snapshots) active =
      let first = apply_snapshot pending_panes (clock 0) snapshot active in
      let h = apply_snapshot-Keeps pending_panes (clock 0) snapshot active in
      let k = apply_snapshots-Keeps pending_panes (λ n. clock (suc n)) snapshots first in
      record {
        layout =
            ap (λ (s : WorkspaceSnapshot F). record s { updated_at = active.updated_at }) k.layout
            ∙ h.layout;
        panes = λ id.
            KeepsFound-trans (one_of id pending_panes) (get id active.panes) (get id first.panes)
              (get id (apply_snapshots pending_panes (λ n. clock (suc n)) snapshots first).panes)
              (h.panes id) (k.panes id);
      }

  -- Pictures that come back late do not undo what the user does. Whatever snapshots a flush brings,
  -- of the workspace that is shown or of others, old or new: the layout, the panes that there are,
  -- and the active one stay as they are; of a terminal at most its session and its screen change; and
  -- a pane for which keys wait is not changed at all, so their preview stays.
  pub apply_terminal_flush_snapshots-Keeps :
      (clock : ℕ → ℤ) (snapshots : List (WorkspaceSnapshot F)) (a : App F)
      (active : WorkspaceSnapshot F)
      → a.active_snapshot ≡ some active
      → (shown : WorkspaceSnapshot F) × (apply_terminal_flush_snapshots clock snapshots a
          ≡ record a { active_snapshot = some shown })
        × Keeps (map (λ p. p.pane_id) a.pending_terminal_inputs) active shown
  unfolding apply_terminal_flush_snapshots
  apply_terminal_flush_snapshots-Keeps clock snapshots a active e =
      let pending_panes = map (λ p. p.pane_id) a.pending_terminal_inputs in
      (
        apply_snapshots pending_panes clock snapshots active,
        rw e refl,
        apply_snapshots-Keeps pending_panes clock snapshots active,
      )
