-- ===== src/App/Navigation/Beside.antt =====
-- crates/octty-app/src/input.rs: the pane that a move to the left or to the right leads to.
use octty.Base.{
  ℕ, ◌+◌, ◌-◌, ◌≤◌, min, leb, zero, suc, Bool-cases, Text, text_eq, text_eq_iff, Option, none, some,
  List, [], ◌∷◌, length, position, get_elem?, and_then, or_else, ◌≡◌, refl, sym, ap, ◌∙◌, arith,
  ◌⊎◌, inl, inr,
}
use octty.Base.BTreeMap.{BTreeMap, get, Has}
use octty.Core.Types.{WorkspaceColumn, WorkspaceSnapshot}
use octty.Core.Layout.{first_center_pane_id}
use octty.Core.Layout.Wellformed.{IsWellformed}
use octty.App.Navigation.{
  PaneNavigationDirection, left, right, current_pane_id, neighbor, pane_navigation_target,
  pane_layout_position, position_in_columns, pane_in_neighbor_column, center_column,
}
use octty.App.Navigation.Laws.{pane_navigation_target-Has}

and_then-some {ℓ κ} :
    {A : Type ℓ} {B : Type κ} (o : Option A) (f : A → Option B) {b : B}
    → and_then o f ≡ some b
    → (a : A) × (o ≡ some a) × (f a ≡ some b)
and_then-some none f h = absurd (cc (h))
and_then-some (some a) f h = (a, refl, h)

position-finds :
    (id : Text) (ids : List Text) (i : ℕ)
    → position (λ j. text_eq j id) ids ≡ some i
    → get_elem? ids i ≡ some id
position-finds id [] i h = absurd (cc (h))
position-finds id (j ∷ ids) zero h = ground (arith, text_eq_iff j id, h)
position-finds id (j ∷ ids) (suc i) h = ground (arith, h, position-finds id ids i)

abbrev pub Side : PaneNavigationDirection → ℕ → ℕ → Type 0
Side left from to = suc to ≡ from
Side right from to = to ≡ suc from

placed :
    (ids : List Text) (row : ℕ) (id : Text)
    → get_elem? ids (min row (length ids - 1)) ≡ some id
    → (get_elem? ids row ≡ some id)
      ⊎ ((length ids ≤ row) × (get_elem? ids (length ids - 1) ≡ some id))
placed ids row id h = elim (Bool-cases (leb (length ids) row)) [
  | inl e ↦
      let m : min row (length ids - 1) ≡ length ids - 1 = ground (arith, e) in
      inr (ground (arith, e), ap (get_elem? ids) (sym m) ∙ h)
  | inr e ↦
      let m : min row (length ids - 1) ≡ row = ground (arith, e) in
      inl (ap (get_elem? ids) (sym m) ∙ h)
]

current_from :
    (active first : Option Text) (current : Text)
    → or_else active first ≡ some current
    → (active ≡ some current) ⊎ ((active ≡ none) × (first ≡ some current))
current_from none first current h = inr (refl, h)
current_from (some a) first current h = inl h

module _ {F : Type 0} where
  -- The column at an index of the center.
  abbrev pub ColumnAt : WorkspaceSnapshot F → ℕ → WorkspaceColumn F → Type 0
  ColumnAt s index column =
      (id : Text) × (get_elem? s.center_column_ids index ≡ some id)
      × (get id s.columns ≡ some column)

  -- A pane in the column next to that of the current one: in the same row, or in the last one if the
  -- column has fewer.
  pub record IsBeside (s : WorkspaceSnapshot F) (direction : PaneNavigationDirection) (id : Text)
      : Type 0 where
    pub current : Text
    pub from : ℕ
    pub to : ℕ
    pub row : ℕ
    pub source : WorkspaceColumn F
    pub target : WorkspaceColumn F
    pub is_current :
        (s.active_pane_id ≡ some current)
        ⊎ ((s.active_pane_id ≡ none) × (first_center_pane_id s ≡ some current))
    pub source_at : ColumnAt s from source
    pub current_at : get_elem? source.pane_ids row ≡ some current
    pub side : Side direction from to
    pub target_at : ColumnAt s to target
    pub place :
        (get_elem? target.pane_ids row ≡ some id)
        ⊎ ((length target.pane_ids ≤ row)
            × (get_elem? target.pane_ids (length target.pane_ids - 1) ≡ some id))
    pub known : Has id s.panes

  -- What the search over the columns finds.
  abbrev pub Found : BTreeMap (WorkspaceColumn F) → Text → List Text → ℕ → ℕ × ℕ → Type 0
  Found columns pane_id ids start p =
      (index : ℕ) × (column_id : Text) × (column : WorkspaceColumn F) × (p.0 ≡ start + index)
      × (get_elem? ids index ≡ some column_id)
      × (get column_id columns ≡ some column)
      × (get_elem? column.pane_ids p.1 ≡ some pane_id)

  later :
      (columns : BTreeMap (WorkspaceColumn F)) (pane_id k : Text) (ids : List Text) (start : ℕ)
      (p : ℕ × ℕ)
      → Found columns pane_id ids (suc start) p
      → Found columns pane_id (k ∷ ids) start p
  later columns pane_id k ids start p (index, column_id, column, at, listed, found, holds) =
      (suc index, column_id, column, omega (arith, at), listed, found, holds)

  here :
      (columns : BTreeMap (WorkspaceColumn F)) (pane_id k : Text) (ids : List Text) (start : ℕ)
      (column : WorkspaceColumn F) (rest o : Option (ℕ × ℕ)) (row : Option ℕ) (p : ℕ × ℕ)
      → get k columns ≡ some column
      → position (λ id. text_eq id pane_id) column.pane_ids ≡ row
      → (rest ≡ some p → Found columns pane_id ids (suc start) p)
      → (elim row [ none ↦ rest | some pane_index ↦ some (start, pane_index) ]) ≡ some p
      → Found columns pane_id (k ∷ ids) start p
  here columns pane_id k ids start column rest o none p g e more h =
      later columns pane_id k ids start p (more h)
  here columns pane_id k ids start column rest o (some row) p g e more h =
      let at : start ≡ p.0 = cc (h) in
      let same : row ≡ p.1 = cc (h) in
      (
        0,
        k,
        column,
        omega (arith, at),
        refl,
        g,
        ap (get_elem? column.pane_ids) (sym same) ∙ position-finds pane_id column.pane_ids row e,
      )

  pub position_in_columns-Found :
      (columns : BTreeMap (WorkspaceColumn F)) (pane_id : Text) (ids : List Text) (start : ℕ)
      (p : ℕ × ℕ)
      → position_in_columns columns pane_id ids start ≡ some p
      → Found columns pane_id ids start p
  unfolding position_in_columns
  position_in_columns-Found columns pane_id [] start p h = absurd (cc (h))
  position_in_columns-Found columns pane_id (k ∷ ids) start p h =
      let (column, g, rest) = and_then-some (get k columns) _ h in
      here columns pane_id k ids start column (position_in_columns columns pane_id ids (suc start))
        none (position (λ id. text_eq id pane_id) column.pane_ids) p g refl
        (position_in_columns-Found columns pane_id ids (suc start) p) rest

  neighbor_at :
      (s : WorkspaceSnapshot F) (to row : ℕ) (id : Text)
      → pane_in_neighbor_column s to row ≡ some id
      → (target : WorkspaceColumn F) × ColumnAt s to target
        × ((get_elem? target.pane_ids row ≡ some id)
            ⊎ ((length target.pane_ids ≤ row)
                × (get_elem? target.pane_ids (length target.pane_ids - 1) ≡ some id)))
  unfolding pane_in_neighbor_column center_column
  neighbor_at s to row id h =
      let (target, g, e) = and_then-some (center_column s to) _ h in
      let (k, listed, found) = and_then-some (get_elem? s.center_column_ids to) _ g in
      (target, (k, listed, found), placed target.pane_ids row id e)

  beside_at :
      (s : WorkspaceSnapshot F) (direction : PaneNavigationDirection) (from row : ℕ) (id : Text)
      → neighbor s direction (from, row) ≡ some id
      → (to : ℕ) × Side direction from to × (pane_in_neighbor_column s to row ≡ some id)
  beside_at s left zero row id h = absurd (cc (h))
  beside_at s left (suc from) row id h = (from, refl, h)
  beside_at s right from row id h = (from + 1, omega arith, h)

  -- In a well-formed workspace, a move to the left or to the right that leads to a pane leads to one of
  -- the workspace, in the column next to that of the current pane, on that side: to the one in the same
  -- row, or to the last one if that column has fewer rows. The current pane is the active one, or the
  -- first one of the center if none is active.
  pub pane_navigation_target-IsBeside :
      (s : WorkspaceSnapshot F) (direction : PaneNavigationDirection) (id : Text)
      → IsWellformed s
      → pane_navigation_target s direction ≡ some id
      → IsBeside s direction id
  unfolding pane_navigation_target pane_layout_position
  pane_navigation_target-IsBeside s direction id w h =
      let (current, is_current, e) = and_then-some (current_pane_id s) _ h in
      let (p, at, e') = and_then-some (pane_layout_position s current) _ e in
      let (from, k, source, same, listed, found, holds) =
        position_in_columns-Found s.columns current s.center_column_ids 0 p at in
      let (to, side, inside) = beside_at s direction p.0 p.1 id e' in
      let (target, target_at, place) = neighbor_at s to p.1 id inside in
      let index : p.0 ≡ from = omega (arith, same) in
      record {
        current = current;
        from = p.0;
        to = to;
        row = p.1;
        source = source;
        target = target;
        is_current = current_from s.active_pane_id (first_center_pane_id s) current is_current;
        source_at = (k, ap (get_elem? s.center_column_ids) index ∙ listed, found);
        current_at = holds;
        side = side;
        target_at = target_at;
        place = place;
        known = pane_navigation_target-Has s direction id w h;
      }
