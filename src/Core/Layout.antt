-- ===== src/Core/Layout.antt =====
-- crates/octty-core/src/layout.rs: the panes of a workspace in columns. `now_ms` is an argument where
-- the code reads the clock, and the process's id counter an argument and a result. `f64` is a
-- parameter.
pub mod Wellformed
pub mod Remove
mod Tests
use package.octty.Base.{
  ℕ, zero, suc, ◌+◌, ◌%◌, ◌^◌, ℤ, ltb, ◌==◌, Text, codes, text_eq, Bool, true, false, not,
}
use package.octty.Base.{
  ◌&&◌, ◌||◌, Option, none, some, unwrap_or, and_then, List, [], ◌∷◌, ◌++◌, length, position,
}
use package.octty.Base.{remove_at, keep, choose, flat, first, is_empty, replicate, if◌then◌else◌}
use package.octty.Base.BTreeMap
use package.octty.Base.BTreeMap.{BTreeMap}
use package.octty.Base.Float.{Float}
use package.octty.Base.Decimal.{show_ℤ, show}
use octty.Core.Types.{
  PaneType, TerminalKind, TerminalExitBehavior, InnerSessionHandler, SessionState,
  TerminalPanePayload, NotePanePayload, BrowserPanePayload, DiffPanePayload, PanePayload, PaneState,
  WorkspaceColumn, WorkspaceSnapshot, default_terminal_width_chars, default_shell_type_name,
}

abbrev pub layout_version : ℕ
layout_version = 2

-- `fetch_add` on the counter, which wraps at 2^64.
unfoldable pub next_id : Text → ℤ → ℕ → Text × ℕ
unfolding show_ℤ show
next_id prefix now_ms counter =
    (prefix ++ codes "-" ++ show_ℤ now_ms ++ codes "-" ++ show counter, (counter + 1) % 2 ^ 64)

unfoldable pub terminal_title : TerminalKind → Text
terminal_title TerminalKind.shell = codes "Shell"
terminal_title TerminalKind.codex = codes "Codex"
terminal_title TerminalKind.pi = codes "PI"
terminal_title TerminalKind.nvim = codes "Nvim"
terminal_title TerminalKind.jjui = codes "JJ UI"

unfoldable pub terminal_command : TerminalKind → Text
terminal_command TerminalKind.shell = codes ""
terminal_command TerminalKind.codex = codes "codex"
terminal_command TerminalKind.pi = codes "pi"
terminal_command TerminalKind.nvim = codes "nvim"
terminal_command TerminalKind.jjui = codes "jjui"

unfoldable pub terminal_payload : TerminalKind → Text → TerminalPanePayload
unfolding terminal_command
terminal_payload kind cwd = record {
  kind = kind;
  shell_type = default_shell_type_name;
  inner_session_handler = InnerSessionHandler.none;
  inner_session_id = none;
  session_id = none;
  session_state = SessionState.stopped;
  cwd = cwd;
  command = terminal_command kind;
  command_parameters = [];
  on_exit = TerminalExitBehavior.close;
  default_width_chars = default_terminal_width_chars;
  exit_code = none;
  auto_start = true;
  restored_buffer = [];
  embedded_session = none;
  embedded_session_correlation_id = none;
  agent_attention_state = none;
}

-- `normalize_heights` and the rest of `remove_pane` end in a panic where an index is out of range.
pub data Removal (F : Type 0) : Type 0 where
  removed : WorkspaceSnapshot F → Removal F
  missing_pane : Text → Removal F
  panic : Removal F

-- `x.as_deref() == Some(id)`
abbrev pub is_id : Text → Option Text → Bool
is_id id none = false
is_id id (some other) = text_eq other id

abbrev unpin : Text → Option Text → Option Text
unpin column_id pinned = if is_id column_id pinned then none else pinned

module _ {F : Type 0} where
  abbrev column_pane_ids : Option (WorkspaceColumn F) → Option (List Text)
  column_pane_ids none = none
  column_pane_ids (some c) = some c.pane_ids

  unfoldable pub create_default_snapshot : Text → ℤ → WorkspaceSnapshot F
  create_default_snapshot workspace_id now_ms = record {
    layout_version = layout_version;
    workspace_id = workspace_id;
    active_pane_id = none;
    panes = [];
    columns = [];
    center_column_ids = [];
    pinned_left_column_id = none;
    pinned_right_column_id = none;
    updated_at = now_ms;
  }

  -- The loop body of `remove_pane` before the test for an empty column; `none` is a panic in
  -- `height_fractions.remove`.
  unfoldable pub drop_from_column : Text → WorkspaceColumn F → Option (WorkspaceColumn F)
  drop_from_column pane_id c = elim (position (λ id. text_eq id pane_id) c.pane_ids) [
    | none ↦ some c
    | some index ↦
        if ltb index (length c.height_fractions)
        then some (record c {
          pane_ids = remove_at c.pane_ids index;
          height_fractions = remove_at c.height_fractions index;
        })
        else none
  ]

  -- One empty column taken out of the snapshot.
  unfoldable pub drop_column : Text → WorkspaceSnapshot F → WorkspaceSnapshot F
  unfolding text_eq BTreeMap.remove
  drop_column column_id s = record s {
    columns = BTreeMap.remove column_id s.columns;
    center_column_ids = keep (λ id. not (text_eq id column_id)) s.center_column_ids;
    pinned_left_column_id = unpin column_id s.pinned_left_column_id;
    pinned_right_column_id = unpin column_id s.pinned_right_column_id;
  }

  unfoldable pub drop_columns : List Text → WorkspaceSnapshot F → WorkspaceSnapshot F
  unfolding drop_column
  drop_columns [] s = s
  drop_columns (id ∷ ids) s = drop_columns ids (drop_column id s)

  unfoldable pub first_center_pane_id : WorkspaceSnapshot F → Option Text
  unfolding BTreeMap.get text_eq
  first_center_pane_id s = first (
      flat (
        choose (λ column_id. column_pane_ids (BTreeMap.get column_id s.columns))
          s.center_column_ids))

  -- The active pane is chosen anew if it was the removed one.
  abbrev reselect : Text → WorkspaceSnapshot F → WorkspaceSnapshot F
  reselect pane_id s =
      if is_id pane_id s.active_pane_id
      then record s { active_pane_id = first_center_pane_id s }
      else s

abbrev shell_contents : {F : Type 0} → TerminalKind → Text → Text × PanePayload F
shell_contents kind workspace_path =
    (terminal_title kind, PanePayload.terminal (terminal_payload kind workspace_path))

-- The title and the payload that `create_pane_state` chooses.
abbrev pane_contents :
    (fl : Float) → PaneType → Text → Option TerminalKind → Text × PanePayload fl.F
pane_contents fl PaneType.shell workspace_path terminal_kind =
    shell_contents (unwrap_or terminal_kind TerminalKind.shell) workspace_path
pane_contents fl PaneType.agent_shell workspace_path terminal_kind =
    shell_contents (unwrap_or terminal_kind TerminalKind.codex) workspace_path
pane_contents fl PaneType.note workspace_path terminal_kind =
    (codes "Note", PanePayload.note (record { note_path = none }))
pane_contents fl PaneType.browser workspace_path terminal_kind = (
  codes "Browser",
  PanePayload.browser (record {
    url = codes "about:blank";
    title = codes "Browser";
    zoom_factor = fl.of_ℕ 1;
    pending_popup_id = none;
  }),
)
pane_contents fl PaneType.diff workspace_path terminal_kind =
    (codes "Diff", PanePayload.diff (record { pinned = false }))

module _ (fl : Float) where
  open fl use {F, of_ℕ, add, mul, div}

  -- The four results of `create_pane_state`: the id is made first.
  unfoldable pub create_pane_state : PaneType → Text → Option TerminalKind → ℤ → ℕ → PaneState F × ℕ
  unfolding next_id terminal_title terminal_payload
  create_pane_state pane_type workspace_path terminal_kind now_ms counter =
      let (id, counter') = next_id (codes "pane") now_ms counter in
      (
        record {
          id = id;
          pane_type = pane_type;
          title = (pane_contents fl pane_type workspace_path terminal_kind).0;
          payload = (pane_contents fl pane_type workspace_path terminal_kind).1;
        },
        counter',
      )

  abbrev width_by_type : PaneType → F
  width_by_type PaneType.shell = of_ℕ 720
  width_by_type PaneType.agent_shell = of_ℕ 840
  width_by_type PaneType.note = of_ℕ 420
  width_by_type PaneType.browser = of_ℕ 960
  width_by_type PaneType.diff = of_ℕ 900

  abbrev width_by_payload : PanePayload F → F → F
  width_by_payload (PanePayload.terminal p) otherwise =
      if ltb 0 p.default_width_chars
      then add (mul (of_ℕ p.default_width_chars) (of_ℕ 8)) (of_ℕ 24)
      else otherwise
  width_by_payload _ otherwise = otherwise

  unfoldable pub default_column_width_px : PaneState F → F
  default_column_width_px pane = width_by_payload pane.payload (width_by_type pane.pane_type)

  -- `now_ms` is read for the column's id, and once more for the time of the update.
  unfoldable pub add_pane : WorkspaceSnapshot F → PaneState F → ℤ → ℕ → ℤ → WorkspaceSnapshot F × ℕ
  unfolding next_id default_column_width_px BTreeMap.insert text_eq
  add_pane s pane id_ms counter now_ms =
      let (column_id, counter') = next_id (codes "column") id_ms counter in
      (
        record s {
          panes = BTreeMap.insert pane.id pane s.panes;
          columns =
              BTreeMap.insert column_id
                (record {
                  id = column_id;
                  pane_ids = pane.id ∷ [];
                  width_px = default_column_width_px pane;
                  height_fractions = of_ℕ 1 ∷ [];
                  pinned = none;
                })
                s.columns;
          center_column_ids = s.center_column_ids ++ (column_id ∷ []);
          active_pane_id = some pane.id;
          updated_at = now_ms;
        },
        counter',
      )

  unfoldable pub normalize_heights : WorkspaceColumn F → WorkspaceColumn F
  normalize_heights c =
      if not (length c.height_fractions == length c.pane_ids) || is_empty c.height_fractions
      then record c {
        height_fractions = replicate (length c.pane_ids) (div (of_ℕ 1) (of_ℕ (length c.pane_ids)));
      }
      else c

  -- The loop over the columns, with the ids of those that became empty.
  unfoldable pub drop_from_columns :
      Text → BTreeMap (WorkspaceColumn F) → Option (BTreeMap (WorkspaceColumn F) × List Text)
  unfolding drop_from_column normalize_heights text_eq
  drop_from_columns pane_id [] = some ([], [])
  drop_from_columns pane_id ((column_id, c) ∷ rest) = and_then (drop_from_column pane_id c) λ c'.
      and_then (drop_from_columns pane_id rest) λ (columns, empty).
        if is_empty c'.pane_ids
        then some ((column_id, c') ∷ columns, column_id ∷ empty)
        else some ((column_id, normalize_heights c') ∷ columns, empty)

  unfoldable pub remove_pane : WorkspaceSnapshot F → Text → ℤ → Removal F
  unfolding drop_from_columns drop_columns first_center_pane_id BTreeMap.get BTreeMap.remove text_eq
  remove_pane s pane_id now_ms = elim (BTreeMap.get pane_id s.panes) [
    | none ↦ missing_pane pane_id
    | some pane ↦ elim (drop_from_columns pane_id s.columns) [
      | none ↦ panic
      | some (columns, empty) ↦
          let dropped =
            drop_columns empty
              (record s { panes = BTreeMap.remove pane_id s.panes; columns = columns }) in
          removed (record (reselect pane_id dropped) { updated_at = now_ms })
    ]
  ]
