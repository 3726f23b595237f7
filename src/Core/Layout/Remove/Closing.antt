-- ===== src/Core/Layout/Remove/Closing.antt =====
-- `remove_pane` (crates/octty-core/src/layout.rs): the columns that are dropped, and the pane that is selected after.
use octty.Base.{ℤ, ◌≡◌, refl, Text, text_eq, text_eq_iff, true, false, not, Bool-cases}
use octty.Base.{
  Option, none, some, List, [], ◌∷◌, ◌++◌, inl, inr, ◌⊎◌, All, any, keep, is_empty, arith,
}
use mathlib.Core.Path.{subst}
use mathlib.Core.Option.{some-injective}
use octty.Base.{if◌then◌else◌, first, flat, choose, Option-cases}
use octty.Base.BTreeMap
use octty.Base.BTreeMap.{BTreeMap, get, remove, Has, AllEntries, IsSorted}
use octty.Core.Types.{WorkspaceColumn, WorkspaceSnapshot}
use octty.Core.Layout.{
  drop_column, drop_columns, unpin, is_id, reselect, first_center_pane_id, column_pane_ids,
}
use octty.Core.Layout.Wellformed.{IsColumn, Resolves, IsWellformed}
use octty.Core.Layout.Remove.Column.{Others}

module _ {F : Type 0} where
  -- The invariant while the columns named by `empty` are still to go.
  pub record IsClosing (empty : List Text) (pane_id : Text) (s : WorkspaceSnapshot F) : Type 0 where
    pub panes_sorted : IsSorted s.panes
    pub columns_sorted : IsSorted s.columns
    pub valid : AllEntries (λ id. IsColumn s.panes) s.columns
    pub without : AllEntries (λ id c. Others pane_id c.pane_ids) s.columns
    pub filled :
        AllEntries
          (λ id c. (is_empty c.pane_ids ≡ false) ⊎ (any (λ j. text_eq j id) empty ≡ true))
          s.columns
    pub center : All (λ id. Has id s.columns) s.center_column_ids
    pub left : Resolves s.pinned_left_column_id s.columns
    pub right : Resolves s.pinned_right_column_id s.columns

  keep-Has :
      (k : Text) (m : BTreeMap (WorkspaceColumn F)) (ids : List Text)
      → All (λ id. Has id m) ids
      → All (λ id. Has id (remove k m)) (keep (λ id. not (text_eq id k)) ids)
  keep-Has k m [] a = tt
  keep-Has k m (id ∷ ids) a = elim (Bool-cases (text_eq id k)) [
    | inl e ↦ rw e (keep-Has k m ids a.1)
    | inr e ↦ rw e (BTreeMap.Has-remove id k m e a.0, keep-Has k m ids a.1)
  ]

  unpin-Resolves :
      (k : Text) (m : BTreeMap (WorkspaceColumn F)) (id : Option Text)
      → Resolves id m
      → Resolves (unpin k id) (remove k m)
  unpin-Resolves k m none r = tt
  unpin-Resolves k m (some id) r = elim (Bool-cases (text_eq id k)) [
    | inl e ↦ rw e tt
    | inr e ↦ rw e (BTreeMap.Has-remove id k m e r)
  ]

  drop_column-IsClosing :
      (k : Text) (empty : List Text) (pane_id : Text) (s : WorkspaceSnapshot F)
      → IsClosing (k ∷ empty) pane_id s
      → IsClosing empty pane_id (drop_column k s)
  unfolding drop_column
  drop_column-IsClosing k empty pane_id s i = record {
    panes_sorted = i.panes_sorted;
    columns_sorted = BTreeMap.remove-IsSorted k s.columns i.columns_sorted;
    valid = BTreeMap.remove-AllEntries k s.columns (λ j c e v. v) i.valid;
    without = BTreeMap.remove-AllEntries k s.columns (λ j c e o. o) i.without;
    filled =
        BTreeMap.remove-AllEntries k s.columns
          (λ j c e. elim [
            | inl f ↦ inl f
            | inr m ↦ inr (ground (arith, text_eq_iff j k, text_eq_iff k j))
          ])
          i.filled;
    center = keep-Has k s.columns s.center_column_ids i.center;
    left = unpin-Resolves k s.columns s.pinned_left_column_id i.left;
    right = unpin-Resolves k s.columns s.pinned_right_column_id i.right;
  }

  pub drop_columns-IsClosing :
      (empty : List Text) (pane_id : Text) (s : WorkspaceSnapshot F)
      → IsClosing empty pane_id s
      → IsClosing [] pane_id (drop_columns empty s)
  unfolding drop_columns
  drop_columns-IsClosing [] pane_id s i = i
  drop_columns-IsClosing (k ∷ empty) pane_id s i =
      drop_columns-IsClosing empty pane_id (drop_column k s)
        (drop_column-IsClosing k empty pane_id s i)

  pub drop_columns-panes :
      (ids : List Text) (s : WorkspaceSnapshot F) → (drop_columns ids s).panes ≡ s.panes
  unfolding drop_columns
  drop_columns-panes [] s = refl
  drop_columns-panes (k ∷ ids) s = drop_columns-panes ids (drop_column k s)

  pub drop_columns-active :
      (ids : List Text) (s : WorkspaceSnapshot F)
      → (drop_columns ids s).active_pane_id ≡ s.active_pane_id
  unfolding drop_columns
  drop_columns-active [] s = refl
  drop_columns-active (k ∷ ids) s = drop_columns-active ids (drop_column k s)

  -- The first pane of the center columns is a pane of the snapshot.
  first_center_pane_id-Has :
      (s : WorkspaceSnapshot F) (id : Text)
      → AllEntries (λ k. IsColumn s.panes) s.columns
      → first_center_pane_id s ≡ some id
      → Has id s.panes
  unfolding first_center_pane_id
  first_center_pane_id-Has s id v = search_columns s.center_column_ids
    where
      search_pane :
          (ids more : List Text)
          → All (λ k. Has k s.panes) ids
          → (first more ≡ some id → Has id s.panes)
          → first (ids ++ more) ≡ some id
          → Has id s.panes
      search_pane [] more a f e = f e
      search_pane (k ∷ ids) more a f e = subst (λ x. Has x s.panes) (some-injective k id e) a.0

      search_columns :
          (ids : List Text)
          → first (flat (choose (λ k. column_pane_ids (get k s.columns)) ids)) ≡ some id
          → Has id s.panes
      search_columns [] e = cc
      search_columns (k ∷ ids) e = elim (Option-cases (get k s.columns)) [
        | inl gone ↦ search_columns ids (ground arith)
        | inr (c, found) ↦
            search_pane c.pane_ids _ (BTreeMap.get-AllEntries _ k s.columns c v found).known
              (search_columns ids) (ground arith)
      ]

  pub reselect-panes :
      (pane_id : Text) (t : WorkspaceSnapshot F) → (reselect pane_id t).panes ≡ t.panes
  reselect-panes pane_id t = ground arith

  pub reselect-without :
      (pane_id : Text) (t : WorkspaceSnapshot F)
      → IsClosing [] pane_id t
      → AllEntries (λ id c. Others pane_id c.pane_ids) (reselect pane_id t).columns
  reselect-without pane_id t i = elim (Bool-cases (is_id pane_id t.active_pane_id)) [
    | inl e ↦ rw e i.without
    | inr e ↦ rw e i.without
  ]

  pub reselect-selected :
      (pane_id : Text) (t : WorkspaceSnapshot F) (now_ms : ℤ)
      → (reselect pane_id t).active_pane_id ≡ (
          if is_id pane_id t.active_pane_id
          then first_center_pane_id (record (reselect pane_id t) { updated_at = now_ms })
          else t.active_pane_id)
  unfolding first_center_pane_id
  reselect-selected pane_id t now_ms = elim (Bool-cases (is_id pane_id t.active_pane_id)) [
    | inl e ↦ rw e
    | inr e ↦ rw e
  ]

  all_filled :
      (m : BTreeMap (WorkspaceColumn F))
      → AllEntries (λ id c. (is_empty c.pane_ids ≡ false) ⊎ (any (λ j. text_eq j id) [] ≡ true)) m
      → AllEntries (λ id c. is_empty c.pane_ids ≡ false) m
  all_filled m = BTreeMap.AllEntries-mono m (λ id c. elim [ inl f ↦ f | inr impossible ↦ cc ])

  pub reselect-IsWellformed :
      (pane_id : Text) (t : WorkspaceSnapshot F) (now_ms : ℤ)
      → IsClosing [] pane_id t
      → ((id : Text) → t.active_pane_id ≡ some id → text_eq id pane_id ≡ false → Has id t.panes)
      → IsWellformed (record (reselect pane_id t) { updated_at = now_ms })
  reselect-IsWellformed pane_id t now_ms i kept =
      elim (Bool-cases (is_id pane_id t.active_pane_id)) [
        | inl e ↦
            rw e
              (with_active (first_center_pane_id t) (λ id. first_center_pane_id-Has t id i.valid))
        | inr e ↦ rw e (with_active t.active_pane_id (λ id a. kept id a (ground arith)))
      ]
    where
      with_active :
          (active : Option Text)
          → ((id : Text) → active ≡ some id → Has id t.panes)
          → IsWellformed (record t { active_pane_id = active; updated_at = now_ms })
      with_active active h = record {
        panes_sorted = i.panes_sorted;
        columns_sorted = i.columns_sorted;
        columns_valid = i.valid;
        columns_filled = all_filled t.columns i.filled;
        center = i.center;
        left = i.left;
        right = i.right;
        active = h;
      }
