-- ===== src/Core/Layout/Wellformed.antt =====
-- The invariant of a `WorkspaceSnapshot` (crates/octty-core/src/types.rs), and that the
-- constructors of crates/octty-core/src/layout.rs establish and keep it.
use octty.Base.{ℕ, ℤ, ◌≡◌, refl, Text, text_eq, false, Option, none, some, List, [], ◌∷◌}
use mathlib.Core.Path.{subst}
use mathlib.Core.Option.{some-injective}
use octty.Base.{codes, All-mono, All-append, length, All, any, is_empty}
use octty.Base.BTreeMap
use octty.Base.BTreeMap.{BTreeMap, get, insert, IsSorted, Has, AllEntries}
use octty.Base.Float.{Float}
use octty.Core.Types.{PaneState, WorkspaceColumn, WorkspaceSnapshot}
use octty.Core.Layout.{create_default_snapshot, add_pane, next_id}

-- No id stands twice.
abbrev pub NodupIds : List Text → Type 0
NodupIds [] = Unit
NodupIds (id ∷ ids) = (any (λ j. text_eq j id) ids ≡ false) × NodupIds ids

module _ {F : Type 0} where
  -- A column has a height for each of its panes, no pane twice, and panes of the snapshot only.
  pub record IsColumn (panes : BTreeMap (PaneState F)) (c : WorkspaceColumn F) : Type 0 where
    pub heights : length c.height_fractions ≡ length c.pane_ids
    pub unique : NodupIds c.pane_ids
    pub known : All (λ id. Has id panes) c.pane_ids

  abbrev pub Resolves : Option Text → BTreeMap (WorkspaceColumn F) → Type 0
  Resolves none m = Unit
  Resolves (some id) m = Has id m

  -- All references of the snapshot can be followed, and no column is empty.
  pub record IsWellformed (s : WorkspaceSnapshot F) : Type 0 where
    pub panes_sorted : IsSorted s.panes
    pub columns_sorted : IsSorted s.columns
    pub columns_valid : AllEntries (λ id. IsColumn s.panes) s.columns
    pub columns_filled : AllEntries (λ id c. is_empty c.pane_ids ≡ false) s.columns
    pub center : All (λ id. Has id s.columns) s.center_column_ids
    pub left : Resolves s.pinned_left_column_id s.columns
    pub right : Resolves s.pinned_right_column_id s.columns
    pub active : (id : Text) → s.active_pane_id ≡ some id → Has id s.panes

  -- A new workspace is well-formed.
  pub create_default_snapshot-IsWellformed :
      (workspace_id : Text) (now_ms : ℤ)
      → IsWellformed (create_default_snapshot workspace_id now_ms)
  unfolding create_default_snapshot
  create_default_snapshot-IsWellformed workspace_id now_ms = record {
    panes_sorted = tt;
    columns_sorted = tt;
    columns_valid = tt;
    columns_filled = tt;
    center = tt;
    left = tt;
    right = tt;
    active = λ id e. cc;
  }

  abbrev resolves_insert :
      (id : Option Text) (k : Text) (c : WorkspaceColumn F) (m : BTreeMap (WorkspaceColumn F))
      → Resolves id m
      → Resolves id (insert k c m)
  resolves_insert none k c m h = tt
  resolves_insert (some id) k c m h = BTreeMap.Has-insert id k c m h

  pub IsColumn-mono :
      {panes panes' : BTreeMap (PaneState F)} (c : WorkspaceColumn F)
      → ((id : Text) → Has id panes → Has id panes')
      → IsColumn panes c
      → IsColumn panes' c
  IsColumn-mono c grow v = record {
    heights = v.heights;
    unique = v.unique;
    known = All-mono c.pane_ids grow v.known;
  }

-- `add_pane` keeps a snapshot well-formed, for any pane and whatever the clock and the counter say.
pub add_pane-IsWellformed :
    (fl : Float) (s : WorkspaceSnapshot fl.F) (pane : PaneState fl.F) (id_ms : ℤ) (counter : ℕ)
    (now_ms : ℤ)
    → IsWellformed s
    → IsWellformed (add_pane fl s pane id_ms counter now_ms).0
unfolding add_pane
add_pane-IsWellformed fl s pane id_ms counter now_ms w = record {
  panes_sorted = BTreeMap.insert-IsSorted pane.id pane s.panes w.panes_sorted;
  columns_sorted = BTreeMap.insert-IsSorted id _ s.columns w.columns_sorted;
  columns_valid =
      BTreeMap.insert-AllEntries _ id _ s.columns
        (record { heights = refl; unique = (refl, tt); known = (new_known, tt) })
        (BTreeMap.AllEntries-mono s.columns (λ k c. IsColumn-mono c grow) w.columns_valid);
  columns_filled = BTreeMap.insert-AllEntries _ id _ s.columns refl w.columns_filled;
  center =
      All-append _ s.center_column_ids (id ∷ [])
        (All-mono s.center_column_ids (λ k. BTreeMap.Has-insert k id _ s.columns) w.center)
        (BTreeMap.Has-insert_self id _ s.columns, tt);
  left = resolves_insert s.pinned_left_column_id id _ s.columns w.left;
  right = resolves_insert s.pinned_right_column_id id _ s.columns w.right;
  active = λ k e.
      subst (λ k. Has k (insert pane.id pane s.panes)) (some-injective pane.id k e) new_known;
}
  where
    id : Text
    id = (next_id (codes "column") id_ms counter).0

    new_known : Has pane.id (insert pane.id pane s.panes)
    new_known = BTreeMap.Has-insert_self pane.id pane s.panes

    grow : (k : Text) → Has k s.panes → Has k (insert pane.id pane s.panes)
    grow k = BTreeMap.Has-insert k pane.id pane s.panes
