-- ===== src/Core/Layout/Remove.antt =====
-- `remove_pane` (crates/octty-core/src/layout.rs) on well-formed snapshots.
mod Columns
mod Column
mod Closing
use octty.Base.{ℕ, ℤ, ◌≡◌, refl, Text, text_eq, Bool, true, false, not, Bool-cases}
use octty.Base.{Option, none, List, [], ◌∷◌, ◌++◌, ◌⊎◌, All, any, keep, is_empty, is_some}
use mathlib.Core.Option.{some-injective}
use octty.Base.{if◌then◌else◌, first, flat, choose, ◌≢◌, ◌↔◌}
use octty.Base.BTreeMap
use octty.Base.BTreeMap.{BTreeMap, get, AllEntries, IsSorted}
use octty.Base.Float.{Float}
use octty.Core.Types.{PaneState, WorkspaceColumn, WorkspaceSnapshot}
use octty.Core.Layout.{
  drop_column, unpin, is_id, remove_pane, Removal, removed, missing_pane, panic,
  first_center_pane_id, column_pane_ids,
}
use octty.Core.Layout.Wellformed.{IsColumn, IsWellformed}
use octty.Core.Layout.Remove.Column.{Others}

-- What `remove_pane` promises of a pane that is there.
pub record Removes {F : Type 0} (s : WorkspaceSnapshot F) (pane_id : Text) (r : Removal F)
    : Type 0 where
  pub after : WorkspaceSnapshot F
  pub returns : r ≡ removed after
  pub wellformed : IsWellformed after
  pub gone : get pane_id after.panes ≡ none
  pub others : (id : Text) → text_eq id pane_id ≡ false → get id after.panes ≡ get id s.panes
  pub placed_nowhere : AllEntries (λ id c. Others pane_id c.pane_ids) after.columns
  pub selected :
      after.active_pane_id
      ≡ (if is_id pane_id s.active_pane_id then first_center_pane_id after else s.active_pane_id)

module _ (fl : Float) (s : WorkspaceSnapshot fl.F) (pane_id : Text) (now_ms : ℤ) where
  open fl use {F}

  -- A pane that is not there is an error, and nothing else happens.
  pub remove_pane_missing :
      get pane_id s.panes ≡ none → remove_pane fl s pane_id now_ms ≡ missing_pane pane_id
  unfolding remove_pane
  remove_pane_missing e = rw (e, remove_pane)
