-- ===== src/App/Navigation/Tests.antt =====
-- Moving between two panes, for crates/octty-app/src/input.rs, with whole numbers for `f64`.
use octty.Base.{ℕ, ℤ, pos, ◌+ℤ◌, ◌-ℤ◌, ◌≡◌, refl, codes, none, some, text_eq, text_lt}
use octty.Base.BTreeMap
use octty.Base.BTreeMap.{Has}
use octty.Base.Float.{whole}
use octty.Core.Types.{PaneType, PaneState, WorkspaceSnapshot}
use octty.Core.Layout.{create_default_snapshot, create_pane_state, add_pane}
use octty.Core.Layout.Wellformed.{
  IsWellformed, create_default_snapshot-IsWellformed, add_pane-IsWellformed,
}
use octty.App.Navigation.{
  left, wider, pane_navigation_target, resize_focused_column_in_snapshot, pane_layout_position,
  pane_in_neighbor_column, position_in_columns, center_column, active_column_id, resize_column,
}
use octty.App.Navigation.Beside.{IsBeside}
use octty.App.Navigation.Moves.{pane_navigation_target-Leads}

abbrev pane_of : PaneType → ℕ → PaneState ℤ
pane_of type counter = (create_pane_state whole type (codes "/ws") none (pos 7) counter).0

abbrev empty_snapshot : WorkspaceSnapshot ℤ
empty_snapshot = create_default_snapshot (codes "w") (pos 1)

abbrev one_pane : WorkspaceSnapshot ℤ
one_pane = (add_pane whole empty_snapshot (pane_of PaneType.shell 1) (pos 7) 2 (pos 8)).0

abbrev two_panes : WorkspaceSnapshot ℤ
two_panes = (add_pane whole one_pane (pane_of PaneType.diff 3) (pos 7) 4 (pos 9)).0

two_panes-IsWellformed : IsWellformed two_panes
two_panes-IsWellformed =
    add_pane-IsWellformed whole one_pane (pane_of PaneType.diff 3) (pos 7) 4 (pos 9) (
      add_pane-IsWellformed whole empty_snapshot (pane_of PaneType.shell 1) (pos 7) 2 (pos 8)
        (create_default_snapshot-IsWellformed (codes "w") (pos 1)))

to_the_left : pane_navigation_target two_panes left ≡ some (codes "pane-7-1")
unfolding pane_navigation_target pane_layout_position position_in_columns pane_in_neighbor_column
    center_column add_pane create_pane_state create_default_snapshot BTreeMap.get BTreeMap.insert
    text_lt text_eq
to_the_left = refl

pane_navigation_target-Leads_example : IsBeside two_panes left (codes "pane-7-1")
unfolding pane_navigation_target pane_layout_position position_in_columns pane_in_neighbor_column
    center_column add_pane create_pane_state create_default_snapshot BTreeMap.get BTreeMap.insert
    text_lt text_eq
pane_navigation_target-Leads_example =
    pane_navigation_target-Leads two_panes left two_panes-IsWellformed

wider_by_a_step :
    (resize_focused_column_in_snapshot whole two_panes wider (pos 9)).1 ≡ some (pos 980)
unfolding resize_focused_column_in_snapshot active_column_id resize_column add_pane
    create_pane_state create_default_snapshot BTreeMap.get BTreeMap.insert text_lt text_eq ◌+ℤ◌ ◌-ℤ◌
wider_by_a_step = refl
