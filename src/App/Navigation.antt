-- ===== src/App/Navigation.antt =====
-- crates/octty-app/src/input.rs: moving between panes, the width of columns, and the preview of
-- terminal input. `first_center_pane_id` of that file is the function of the same name in
-- crates/octty-core/src/layout.rs. `now_ms` is an argument, and `f64` a parameter.
pub mod Laws
pub mod Beside
pub mod Moves
mod Tests
use octty.Base.{
  ℕ, ◌+◌, ◌-◌, min, zero, suc, ℤ, Text, codes, text_eq, Bool, true, false, ◌==◌, Option, none, some,
  or_else, and_then, option_map, is_some, unwrap_or,
}
use octty.Base.{List, [], ◌∷◌, ◌++◌, length, position, find, any, first, get_elem?, if◌then◌else◌}
use octty.Base.BTreeMap
use octty.Base.BTreeMap.{BTreeMap}
use octty.Base.Float.{Float, clamp}
use octty.Core.Types.{
  PanePayload, PaneState, WorkspaceColumn, WorkspaceSnapshot, TerminalPanePayload,
}
use octty.Core.Layout.{first_center_pane_id}
use octty.Term.Keyboard.{LiveTerminalKeyInput, LiveTerminalKey}

pub data PaneNavigationDirection : Type 0 where
  left right : PaneNavigationDirection

pub data ColumnResizeDirection : Type 0 where
  slimmer wider : ColumnResizeDirection

module _ {F : Type 0} where
  abbrev pub is_terminal : PaneState F → Bool
  is_terminal pane = elim pane.payload [ PanePayload.terminal _ ↦ true | _ ↦ false ]

  abbrev terminal_id : Option (PaneState F) → Option Text
  terminal_id none = none
  terminal_id (some pane) = if is_terminal pane then some pane.id else none

  unfoldable pub active_terminal_pane_id : WorkspaceSnapshot F → Option Text
  unfolding BTreeMap.get
  active_terminal_pane_id s =
      or_else (and_then s.active_pane_id (λ id. terminal_id (BTreeMap.get id s.panes)))
        (option_map (λ pane. pane.id) (find is_terminal (BTreeMap.values s.panes)))

  unfoldable pub center_column : WorkspaceSnapshot F → ℕ → Option (WorkspaceColumn F)
  unfolding BTreeMap.get
  center_column s column_index =
      and_then (get_elem? s.center_column_ids column_index) (λ id. BTreeMap.get id s.columns)

  -- The loop over the columns from an index on; a column that is missing ends it.
  unfoldable pub position_in_columns :
      BTreeMap (WorkspaceColumn F) → Text → List Text → ℕ → Option (ℕ × ℕ)
  unfolding BTreeMap.get text_eq
  position_in_columns columns pane_id [] column_index = none
  position_in_columns columns pane_id (column_id ∷ ids) column_index =
      let rest = position_in_columns columns pane_id ids (suc column_index) in
      and_then (BTreeMap.get column_id columns) (λ column.
        elim (position (λ id. text_eq id pane_id) column.pane_ids) [
          | none ↦ rest
          | some pane_index ↦ some (column_index, pane_index)
        ])

  unfoldable pub pane_layout_position : WorkspaceSnapshot F → Text → Option (ℕ × ℕ)
  unfolding position_in_columns
  pane_layout_position s pane_id = position_in_columns s.columns pane_id s.center_column_ids 0

  unfoldable pub pane_in_neighbor_column : WorkspaceSnapshot F → ℕ → ℕ → Option Text
  unfolding center_column
  pane_in_neighbor_column s column_index source_pane_index =
      and_then (center_column s column_index)
        (λ column. get_elem? column.pane_ids (min source_pane_index (length column.pane_ids - 1)))

  abbrev pub neighbor : WorkspaceSnapshot F → PaneNavigationDirection → ℕ × ℕ → Option Text
  neighbor s left (zero, pane_index) = none
  neighbor s left (suc column_index, pane_index) = pane_in_neighbor_column s column_index pane_index
  neighbor s right (column_index, pane_index) =
      pane_in_neighbor_column s (column_index + 1) pane_index

  -- The pane that the keys refer to: the active one, or the first in the center.
  abbrev pub current_pane_id : WorkspaceSnapshot F → Option Text
  current_pane_id s = or_else s.active_pane_id (first_center_pane_id s)

  unfoldable pub pane_navigation_target :
      WorkspaceSnapshot F → PaneNavigationDirection → Option Text
  unfolding pane_layout_position pane_in_neighbor_column
  pane_navigation_target s direction =
      and_then (current_pane_id s)
        (λ pane_id. and_then (pane_layout_position s pane_id) (neighbor s direction))

  abbrev column_has : WorkspaceSnapshot F → Text → Text → Bool
  column_has s pane_id column_id = elim (BTreeMap.get column_id s.columns) [
    | none ↦ false
    | some column ↦ any (λ id. text_eq id pane_id) column.pane_ids
  ]

  unfoldable pub active_column_id : WorkspaceSnapshot F → Option Text
  unfolding BTreeMap.get text_eq
  active_column_id s =
      and_then (current_pane_id s) (λ pane_id. find (column_has s pane_id) s.center_column_ids)

  abbrev pub with_width : F → WorkspaceColumn F → WorkspaceColumn F
  with_width width column = record column { width_px = width }

  abbrev pub set_width : Text → F → ℤ → WorkspaceSnapshot F → WorkspaceSnapshot F
  set_width column_id width now_ms s = record s {
    columns = BTreeMap.adjust column_id (with_width width) s.columns;
    updated_at = now_ms;
  }

module _ (fl : Float) where
  abbrev pub min_column_width_px : fl.F
  min_column_width_px = fl.of_ℕ 240

  abbrev pub max_column_width_px : fl.F
  max_column_width_px = fl.of_ℕ 1600

  -- A step of 80 pixels down is the sum with the negated step.
  abbrev pub resized : ColumnResizeDirection → fl.F → fl.F
  resized slimmer width =
      clamp fl (fl.sub width (fl.of_ℕ 80)) min_column_width_px max_column_width_px
  resized wider width = clamp fl (fl.add width (fl.of_ℕ 80)) min_column_width_px max_column_width_px

  unfoldable pub resize_column :
      ColumnResizeDirection
      → ℤ
      → Text
      → WorkspaceColumn fl.F
      → WorkspaceSnapshot fl.F
      → WorkspaceSnapshot fl.F × Option fl.F
  unfolding BTreeMap.adjust
  resize_column direction now_ms column_id column s =
      let next_width = resized direction column.width_px in
      if fl.lt (fl.abs (fl.sub next_width column.width_px)) fl.epsilon
      then (s, none)
      else (set_width column_id next_width now_ms s, some next_width)

  abbrev pub resize_found :
      ColumnResizeDirection
      → ℤ
      → WorkspaceSnapshot fl.F
      → Text
      → Option (WorkspaceColumn fl.F)
      → WorkspaceSnapshot fl.F × Option fl.F
  resize_found direction now_ms s column_id none = (s, none)
  resize_found direction now_ms s column_id (some column) =
      resize_column direction now_ms column_id column s

  abbrev pub resize_at :
      ColumnResizeDirection
      → ℤ
      → WorkspaceSnapshot fl.F
      → Option Text
      → WorkspaceSnapshot fl.F × Option fl.F
  resize_at direction now_ms s none = (s, none)
  resize_at direction now_ms s (some column_id) =
      resize_found direction now_ms s column_id (BTreeMap.get column_id s.columns)

  unfoldable pub resize_focused_column_in_snapshot :
      WorkspaceSnapshot fl.F → ColumnResizeDirection → ℤ → WorkspaceSnapshot fl.F × Option fl.F
  unfolding active_column_id resize_column BTreeMap.get
  resize_focused_column_in_snapshot s direction now_ms =
      resize_at direction now_ms s (active_column_id s)

-- `pop` of a `String`
abbrev pub pop : Text → Text
pop [] = []
pop (c ∷ []) = []
pop (c ∷ (d ∷ t)) = c ∷ pop (d ∷ t)

abbrev typed : LiveTerminalKey → Text → Text
typed LiveTerminalKey.enter buffer = buffer ++ codes "\n"
typed LiveTerminalKey.backspace buffer = pop buffer
typed LiveTerminalKey.tab buffer = buffer ++ codes "\t"
typed key buffer = buffer

-- The buffer of a terminal pane with the input shown in it.
abbrev pub previewed : LiveTerminalKeyInput → Text → Text
previewed input buffer = elim input.text [ none ↦ typed input.key buffer | some t ↦ buffer ++ t ]

abbrev pub preview_payload : LiveTerminalKeyInput → TerminalPanePayload → TerminalPanePayload
preview_payload input payload = record payload {
  restored_buffer = previewed input payload.restored_buffer;
}

abbrev pub preview_pane : {F : Type 0} → LiveTerminalKeyInput → PaneState F → PaneState F
preview_pane input pane = record pane {
  payload = elim pane.payload [
    | PanePayload.terminal payload ↦ PanePayload.terminal (preview_payload input payload)
    | other ↦ other
  ];
}

abbrev pub preview_found :
    {F : Type 0}
    → WorkspaceSnapshot F
    → Text
    → LiveTerminalKeyInput
    → ℤ
    → Option (PaneState F)
    → WorkspaceSnapshot F
preview_found s pane_id input now_ms none = s
preview_found s pane_id input now_ms (some pane) =
    if is_terminal pane
    then record s {
      panes = BTreeMap.adjust pane_id (preview_pane input) s.panes;
      updated_at = now_ms;
    }
    else s

unfoldable pub preview_terminal_input :
    {F : Type 0} → WorkspaceSnapshot F → Text → LiveTerminalKeyInput → ℤ → WorkspaceSnapshot F
unfolding BTreeMap.get BTreeMap.adjust
preview_terminal_input s pane_id input now_ms =
    preview_found s pane_id input now_ms (BTreeMap.get pane_id s.panes)
