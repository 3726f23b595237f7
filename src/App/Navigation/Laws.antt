-- ===== src/App/Navigation/Laws.antt =====
-- crates/octty-app/src/input.rs: the keys of the application keep a workspace well-formed and lead
-- to panes that exist.
use octty.Base.{
  ℕ, ◌+◌, ◌-◌, min, zero, suc, ℤ, Text, Option, none, some, length, get_elem?, and_then,
}
use octty.Base.{◌≡◌, refl, arith, Bool-cases, inl, inr, All-mono, All-get_elem?}
use octty.Base.BTreeMap
use octty.Base.BTreeMap.{BTreeMap, get, Has, AllEntries, adjust}
use octty.Base.Float.{Float}
use octty.Core.Types.{PaneState, WorkspaceColumn, WorkspaceSnapshot}
use octty.Core.Layout.Wellformed.{IsWellformed, IsColumn, Resolves}
use octty.Term.Keyboard.{LiveTerminalKeyInput}
use octty.App.Navigation.{
  ColumnResizeDirection, PaneNavigationDirection, left, right, with_width, set_width, resize_column,
  resized, resize_focused_column_in_snapshot, active_column_id, pane_navigation_target,
  pane_in_neighbor_column, center_column, neighbor, current_pane_id, pane_layout_position,
  resize_found, resize_at, preview_found, preview_terminal_input, preview_pane, is_terminal,
}

module _ {F : Type 0} where
  resolves_adjust :
      (o : Option Text) (k : Text) (f : WorkspaceColumn F → WorkspaceColumn F)
      (m : BTreeMap (WorkspaceColumn F))
      → Resolves o m
      → Resolves o (adjust k f m)
  resolves_adjust none k f m h = tt
  resolves_adjust (some id) k f m h = BTreeMap.Has-adjust k f id m h

  set_width-IsWellformed :
      (column_id : Text) (width : F) (now_ms : ℤ) (s : WorkspaceSnapshot F)
      → IsWellformed s
      → IsWellformed (set_width column_id width now_ms s)
  set_width-IsWellformed column_id width now_ms s w = record {
    panes_sorted = w.panes_sorted;
    columns_sorted =
        BTreeMap.adjust-IsSorted column_id (with_width width) s.columns w.columns_sorted;
    columns_valid =
        BTreeMap.adjust-AllEntries column_id (with_width width) (λ id. IsColumn s.panes)
          (λ id. IsColumn s.panes) s.columns
          (λ j v c. (c, record { heights = c.heights; unique = c.unique; known = c.known }))
          w.columns_valid;
    columns_filled =
        BTreeMap.adjust-AllEntries column_id (with_width width) _ _ s.columns (λ j v c. (c, c))
          w.columns_filled;
    center =
        All-mono s.center_column_ids
          (λ id h. BTreeMap.Has-adjust column_id (with_width width) id s.columns h) w.center;
    left = resolves_adjust s.pinned_left_column_id column_id (with_width width) s.columns w.left;
    right = resolves_adjust s.pinned_right_column_id column_id (with_width width) s.columns w.right;
    active = w.active;
  }

column_shown :
    (fl : Float) (d : ColumnResizeDirection) (now_ms : ℤ) (column_id : Text)
    (column : WorkspaceColumn fl.F) (s : WorkspaceSnapshot fl.F)
    → IsWellformed s
    → IsWellformed (resize_column fl d now_ms column_id column s).0
unfolding resize_column
column_shown fl d now_ms column_id column s w =
    elim (Bool-cases
      (fl.lt (fl.abs (fl.sub (resized fl d column.width_px) column.width_px)) fl.epsilon)) [
        | inl e ↦ rw e w
        | inr e ↦ rw e (set_width-IsWellformed column_id (resized fl d column.width_px) now_ms s w)
      ]

found_shown :
    (fl : Float) (d : ColumnResizeDirection) (now_ms : ℤ) (s : WorkspaceSnapshot fl.F)
    (column_id : Text) (o : Option (WorkspaceColumn fl.F))
    → IsWellformed s
    → IsWellformed (resize_found fl d now_ms s column_id o).0
found_shown fl d now_ms s column_id none w = w
found_shown fl d now_ms s column_id (some column) w = column_shown fl d now_ms column_id column s w

at_shown :
    (fl : Float) (d : ColumnResizeDirection) (now_ms : ℤ) (s : WorkspaceSnapshot fl.F)
    (o : Option Text)
    → IsWellformed s
    → IsWellformed (resize_at fl d now_ms s o).0
at_shown fl d now_ms s none w = w
at_shown fl d now_ms s (some id) w = found_shown fl d now_ms s id (get id s.columns) w

-- Making the focused column wider or slimmer keeps the workspace well-formed, whatever the numbers
-- `f64` are.
pub resize_focused_column_in_snapshot-IsWellformed :
    (fl : Float) (s : WorkspaceSnapshot fl.F) (d : ColumnResizeDirection) (now_ms : ℤ)
    → IsWellformed s
    → IsWellformed (resize_focused_column_in_snapshot fl s d now_ms).0
unfolding resize_focused_column_in_snapshot
resize_focused_column_in_snapshot-IsWellformed fl s d now_ms w =
    at_shown fl d now_ms s (active_column_id s) w

module _ {F : Type 0} where
  in_neighbor :
      (s : WorkspaceSnapshot F) (column_index pane_index : ℕ) (id : Text)
      → IsWellformed s
      → pane_in_neighbor_column s column_index pane_index ≡ some id
      → Has id s.panes
  unfolding pane_in_neighbor_column center_column
  in_neighbor s column_index pane_index id w = through (get_elem? s.center_column_ids column_index)
    where
      inside :
          (o : Option (WorkspaceColumn F))
          → ((c : WorkspaceColumn F) → o ≡ some c → IsColumn s.panes c)
          → and_then o (λ c. get_elem? c.pane_ids (min pane_index (length c.pane_ids - 1)))
            ≡ some id
          → Has id s.panes
      inside none v e = absurd (ground arith)
      inside (some c) v e = All-get_elem? (λ i. Has i s.panes) c.pane_ids _ id (v c refl).known e

      through :
          (o : Option Text)
          → and_then
              (and_then o (λ i. get i s.columns))
              (λ c. get_elem? c.pane_ids (min pane_index (length c.pane_ids - 1)))
            ≡ some id
          → Has id s.panes
      through none e = absurd (ground arith)
      through (some i) e =
          inside (get i s.columns)
            (λ c f. BTreeMap.get-AllEntries (λ j. IsColumn s.panes) i s.columns c w.columns_valid f)
            e

  in_direction :
      (s : WorkspaceSnapshot F) (d : PaneNavigationDirection) (at : ℕ × ℕ) (id : Text)
      → IsWellformed s
      → neighbor s d at ≡ some id
      → Has id s.panes
  in_direction s left (zero, pane_index) id w e = absurd (ground arith)
  in_direction s left (suc i, pane_index) id w e = in_neighbor s i pane_index id w e
  in_direction s right (i, pane_index) id w e = in_neighbor s (i + 1) pane_index id w e

  -- Moving left or right in a well-formed workspace leads to one of its panes, if anywhere.
  pub pane_navigation_target-Has :
      (s : WorkspaceSnapshot F) (d : PaneNavigationDirection) (id : Text)
      → IsWellformed s
      → pane_navigation_target s d ≡ some id
      → Has id s.panes
  unfolding pane_navigation_target
  pane_navigation_target-Has s d id w = from_current (current_pane_id s)
    where
      from_position : (o : Option (ℕ × ℕ)) → and_then o (neighbor s d) ≡ some id → Has id s.panes
      from_position none e = absurd (ground arith)
      from_position (some at) e = in_direction s d at id w e

      from_current :
          (o : Option Text)
          → and_then o (λ pane_id. and_then (pane_layout_position s pane_id) (neighbor s d))
            ≡ some id
          → Has id s.panes
      from_current none e = absurd (ground arith)
      from_current (some pane_id) e = from_position (pane_layout_position s pane_id) e

  shown_pane-IsWellformed :
      (s : WorkspaceSnapshot F) (pane_id : Text) (input : LiveTerminalKeyInput) (now_ms : ℤ)
      → IsWellformed s
      → IsWellformed
          (record s { panes = adjust pane_id (preview_pane input) s.panes; updated_at = now_ms })
  shown_pane-IsWellformed s pane_id input now_ms w = record {
    panes_sorted = BTreeMap.adjust-IsSorted pane_id (preview_pane input) s.panes w.panes_sorted;
    columns_sorted = w.columns_sorted;
    columns_valid =
        BTreeMap.AllEntries-mono s.columns
          (λ j c v. record {
            heights = v.heights;
            unique = v.unique;
            known =
                All-mono c.pane_ids
                  (λ id h. BTreeMap.Has-adjust pane_id (preview_pane input) id s.panes h) v.known;
          })
          w.columns_valid;
    columns_filled = w.columns_filled;
    center = w.center;
    left = w.left;
    right = w.right;
    active = λ id e. BTreeMap.Has-adjust pane_id (preview_pane input) id s.panes (w.active id e);
  }

  found_pane-IsWellformed :
      (s : WorkspaceSnapshot F) (pane_id : Text) (input : LiveTerminalKeyInput) (now_ms : ℤ)
      (o : Option (PaneState F))
      → IsWellformed s
      → IsWellformed (preview_found s pane_id input now_ms o)
  found_pane-IsWellformed s pane_id input now_ms none w = w
  found_pane-IsWellformed s pane_id input now_ms (some pane) w =
      elim (Bool-cases (is_terminal pane)) [
        | inl e ↦ rw e (shown_pane-IsWellformed s pane_id input now_ms w)
        | inr e ↦ rw e w
      ]

  -- Showing typed input in the buffer of a pane keeps the workspace well-formed.
  pub preview_terminal_input-IsWellformed :
      (s : WorkspaceSnapshot F) (pane_id : Text) (input : LiveTerminalKeyInput) (now_ms : ℤ)
      → IsWellformed s
      → IsWellformed (preview_terminal_input s pane_id input now_ms)
  unfolding preview_terminal_input
  preview_terminal_input-IsWellformed s pane_id input now_ms w =
      found_pane-IsWellformed s pane_id input now_ms (get pane_id s.panes) w
