-- ===== src/Core/Layout/Tests.antt =====
-- Runs of crates/octty-core/src/layout.rs with whole numbers for `f64`.
use octty.Base.{text_lt, ◌+ℤ◌, ℕ, ℤ, pos, ◌≡◌, refl, codes, none, some, List, [], ◌∷◌}
use octty.Base.BTreeMap
use octty.Base.BTreeMap.{BTreeMap, AllEntries}
use octty.Base.Float.{whole}
use octty.Core.Types.{PaneType, PaneState, WorkspaceSnapshot, WorkspaceColumn}
use octty.Core.Layout.{create_default_snapshot, create_pane_state, add_pane}
use octty.Core.Layout.Wellformed.{
  IsWellformed, create_default_snapshot-IsWellformed, add_pane-IsWellformed,
}

abbrev pane_of : PaneType → ℕ → PaneState ℤ
pane_of type counter = (create_pane_state whole type (codes "/ws") none (pos 7) counter).0

abbrev empty_snapshot : WorkspaceSnapshot ℤ
empty_snapshot = create_default_snapshot (codes "w") (pos 1)

abbrev one_pane : WorkspaceSnapshot ℤ
one_pane = (add_pane whole empty_snapshot (pane_of PaneType.shell 1) (pos 7) 2 (pos 8)).0

abbrev two_panes : WorkspaceSnapshot ℤ
two_panes = (add_pane whole one_pane (pane_of PaneType.diff 3) (pos 7) 4 (pos 9)).0

abbrev widths : BTreeMap (WorkspaceColumn ℤ) → List ℤ
widths [] = []
widths ((id, c) ∷ m) = c.width_px ∷ widths m

pane_widths : widths two_panes.columns ≡ pos 744 ∷ pos 900 ∷ []
unfolding add_pane create_pane_state create_default_snapshot text_lt ◌+ℤ◌
pane_widths = refl

second_is_active : two_panes.active_pane_id ≡ some (codes "pane-7-3")
unfolding add_pane create_pane_state
second_is_active = refl

one_pane-IsWellformed : IsWellformed one_pane
one_pane-IsWellformed =
    add_pane-IsWellformed whole empty_snapshot (pane_of PaneType.shell 1) (pos 7) 2 (pos 8)
      (create_default_snapshot-IsWellformed (codes "w") (pos 1))

add_pane-IsWellformed_example : IsWellformed two_panes
add_pane-IsWellformed_example =
    add_pane-IsWellformed whole one_pane (pane_of PaneType.diff 3) (pos 7) 4 (pos 9)
      one_pane-IsWellformed
