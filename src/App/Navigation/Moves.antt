-- ===== src/App/Navigation/Moves.antt =====
-- crates/octty-app/src/input.rs: where a move to the left or to the right leads to, and when nowhere.
use octty.Base.{
  ℕ, ◌+◌, ◌-◌, ◌≤◌, ◌<◌, min, leb, zero, suc, true, false, Bool-cases, Text, text_eq, Option, none,
  some, List, [], ◌∷◌, length, is_some, is_empty, position, any, get_elem?, and_then, All,
  All-get_elem?, ◌≡◌, refl, sym, ap, ◌∙◌, arith, ◌⊎◌, inl, inr,
}
use octty.Base.BTreeMap
use octty.Base.BTreeMap.{BTreeMap, get, Has}
use octty.Core.Types.{WorkspaceColumn, WorkspaceSnapshot}
use octty.Core.Layout.Wellformed.{IsWellformed}
use octty.App.Navigation.{
  PaneNavigationDirection, left, right, current_pane_id, neighbor, pane_navigation_target,
  pane_layout_position, position_in_columns, pane_in_neighbor_column, center_column, column_has,
}
use octty.App.Navigation.Beside.{
  IsBeside, ColumnAt, position_in_columns-Found, pane_navigation_target-IsBeside,
}

is_some-some {ℓ} : {A : Type ℓ} (o : Option A) → is_some o ≡ true → (a : A) × (o ≡ some a)
is_some-some none h = absurd (cc (h))
is_some-some (some a) h = (a, refl)

get_elem?-below {ℓ} :
    {A : Type ℓ} (xs : List A) (i : ℕ) → i < length xs → (x : A) × (get_elem? xs i ≡ some x)
get_elem?-below [] i h = absurd (omega (arith, h))
get_elem?-below (x ∷ xs) zero h = (x, refl)
get_elem?-below (x ∷ xs) (suc i) h = get_elem?-below xs i (omega (arith, h))

filled_length {ℓ} : {A : Type ℓ} (xs : List A) → is_empty xs ≡ false → 0 < length xs
filled_length [] h = absurd (cc (h))
filled_length (x ∷ xs) h = omega arith

get_elem?-bound {ℓ} :
    {A : Type ℓ} (xs : List A) (i : ℕ) {x : A} → get_elem? xs i ≡ some x → i < length xs
get_elem?-bound [] i h = absurd (cc (h))
get_elem?-bound (x ∷ xs) zero h = omega arith
get_elem?-bound (x ∷ xs) (suc i) h = omega (arith, get_elem?-bound xs i h)

not_here {ℓ} :
    {A : Type ℓ} (row : Option A) (rest : Option (ℕ × A)) (start : ℕ)
    → (elim row [ none ↦ rest | some r ↦ some (start, r) ]) ≡ none
    → (row ≡ none) × (rest ≡ none)
not_here none rest start h = (refl, h)
not_here (some r) rest start h = absurd (cc (h))

position-none :
    (id : Text) (ids : List Text)
    → position (λ j. text_eq j id) ids ≡ none
    → any (λ j. text_eq j id) ids ≡ false
position-none id [] h = refl
position-none id (j ∷ ids) h = ground (arith, h, position-none id ids)

module _ {F : Type 0} where
  abbrev pub Edge : WorkspaceSnapshot F → PaneNavigationDirection → ℕ → Type 0
  Edge s left from = from ≡ 0
  Edge s right from = length s.center_column_ids ≤ suc from

  -- A pane in the last column of the center on that side.
  pub record IsAtEdge (s : WorkspaceSnapshot F) (direction : PaneNavigationDirection) (id : Text)
      : Type 0 where
    pub from : ℕ
    pub row : ℕ
    pub column : WorkspaceColumn F
    pub column_at : ColumnAt s from column
    pub pane_at : get_elem? column.pane_ids row ≡ some id
    pub edge : Edge s direction from

  -- There is no current pane, or it stands in no column of the center, or there is none beside it.
  abbrev pub Leads : WorkspaceSnapshot F → PaneNavigationDirection → Option Text → Type 0
  Leads s direction (some id) = IsBeside s direction id
  Leads s direction none =
      (current_pane_id s ≡ none)
      ⊎ ((current : Text) × (current_pane_id s ≡ some current)
          × (All (λ id. column_has s current id ≡ false) s.center_column_ids
              ⊎ IsAtEdge s direction current))

  no_column :
      (s : WorkspaceSnapshot F) (to row : ℕ)
      → IsWellformed s
      → pane_in_neighbor_column s to row ≡ none
      → length s.center_column_ids ≤ to
  unfolding pane_in_neighbor_column center_column
  no_column s to row w h = elim (Bool-cases (leb (length s.center_column_ids) to)) [
    | inl past ↦ ground (arith, past)
    | inr before ↦
        let (k, listed) = get_elem?-below s.center_column_ids to (ground (arith, before)) in
        let (column, found) =
          is_some-some (get k s.columns)
            (All-get_elem? (λ id. Has id s.columns) s.center_column_ids to k w.center listed) in
        let filled = filled_length column.pane_ids (
          BTreeMap.get-AllEntries (λ id c. is_empty c.pane_ids ≡ false) k s.columns column
            w.columns_filled found) in
        let (id, at) =
          get_elem?-below column.pane_ids (min row (length column.pane_ids - 1))
            (ground (arith, filled)) in
        let there : pane_in_neighbor_column s to row ≡ some id =
          ap
            (λ o.
              and_then (and_then o (λ i. get i s.columns))
                (λ c. get_elem? c.pane_ids (min row (length c.pane_ids - 1))))
            listed
          ∙ ap (λ o. and_then o (λ c. get_elem? c.pane_ids (min row (length c.pane_ids - 1)))) found
          ∙ at in
        absurd (cc (h, there))
  ]

  none_beyond :
      (s : WorkspaceSnapshot F) (direction : PaneNavigationDirection) (from row : ℕ)
      → IsWellformed s
      → from < length s.center_column_ids
      → neighbor s direction (from, row) ≡ none
      → Edge s direction from
  none_beyond s left zero row w l h = refl
  none_beyond s left (suc from) row w l h = absurd (omega (arith, no_column s from row w h, l))
  none_beyond s right from row w l h = omega (arith, no_column s (from + 1) row w h)

  unplaced :
      (s : WorkspaceSnapshot F) (id : Text) (ids : List Text) (start : ℕ)
      → All (λ k. Has k s.columns) ids
      → position_in_columns s.columns id ids start ≡ none
      → All (λ k. column_has s id k ≡ false) ids
  unfolding position_in_columns
  unplaced s id [] start a h = tt
  unplaced s id (k ∷ ids) start a h =
      let (column, found) = is_some-some (get k s.columns) a.0 in
      let rest = position_in_columns s.columns id ids (suc start) in
      let here =
        ap
          (λ o. and_then o (λ c. elim (position (λ j. text_eq j id) c.pane_ids) [
            | none ↦ rest
            | some row ↦ some (start, row)
          ]))
          (sym found)
        ∙ h in
      let (absent, more) =
        not_here (position (λ j. text_eq j id) column.pane_ids) rest start here in
      (
        ap (λ o. elim o [ none ↦ false | some c ↦ any (λ j. text_eq j id) c.pane_ids ]) found
            ∙ position-none id column.pane_ids absent,
        unplaced s id ids (suc start) a.1 more,
      )

  placed_edge :
      (s : WorkspaceSnapshot F) (direction : PaneNavigationDirection) (id : Text) (p : ℕ × ℕ)
      → IsWellformed s
      → position_in_columns s.columns id s.center_column_ids 0 ≡ some p
      → neighbor s direction p ≡ none
      → IsAtEdge s direction id
  placed_edge s direction id p w at h =
      let (from, k, column, same, listed, found, holds) =
        position_in_columns-Found s.columns id s.center_column_ids 0 p at in
      let index : p.0 ≡ from = omega (arith, same) in
      let listed_at = ap (get_elem? s.center_column_ids) index ∙ listed in
      record {
        from = p.0;
        row = p.1;
        column = column;
        column_at = (k, listed_at, found);
        pane_at = holds;
        edge =
            none_beyond s direction p.0 p.1 w (get_elem?-bound s.center_column_ids p.0 listed_at) h;
      }

  stays :
      (s : WorkspaceSnapshot F) (direction : PaneNavigationDirection) (current : Text)
      (o : Option (ℕ × ℕ))
      → IsWellformed s
      → position_in_columns s.columns current s.center_column_ids 0 ≡ o
      → and_then o (neighbor s direction) ≡ none
      → All (λ id. column_has s current id ≡ false) s.center_column_ids
        ⊎ IsAtEdge s direction current
  stays s direction current none w e h = inl (unplaced s current s.center_column_ids 0 w.center e)
  stays s direction current (some p) w e h = inr (placed_edge s direction current p w e h)

  nowhere :
      (s : WorkspaceSnapshot F) (direction : PaneNavigationDirection) (o : Option Text)
      → IsWellformed s
      → current_pane_id s ≡ o
      → and_then o (λ id. and_then (pane_layout_position s id) (neighbor s direction)) ≡ none
      → Leads s direction none
  unfolding pane_layout_position
  nowhere s direction none w e h = inl e
  nowhere s direction (some current) w e h =
      inr (current, e, stays s direction current (pane_layout_position s current) w refl h)

  leads :
      (s : WorkspaceSnapshot F) (direction : PaneNavigationDirection) (o : Option Text)
      → IsWellformed s
      → pane_navigation_target s direction ≡ o
      → Leads s direction o
  unfolding pane_navigation_target
  leads s direction none w e = nowhere s direction (current_pane_id s) w refl e
  leads s direction (some id) w e = pane_navigation_target-IsBeside s direction id w e

  -- In a well-formed workspace, a move to the left or to the right leads to the column next to that of
  -- the current pane, on that side: to the pane in the same row, or to the last one if that column has
  -- fewer rows. It leads nowhere only if there is no current pane, or if no column of the center has
  -- it, or if its column is the last one of the center on that side. The current pane is the active
  -- one, or the first one of the center if none is active.
  pub pane_navigation_target-Leads :
      (s : WorkspaceSnapshot F) (direction : PaneNavigationDirection)
      → IsWellformed s
      → Leads s direction (pane_navigation_target s direction)
  pane_navigation_target-Leads s direction w =
      leads s direction (pane_navigation_target s direction) w refl
