-- ===== src/Core/Layout/Remove/Columns.antt =====
-- The loop of `remove_pane` over the columns, and the removal of the columns that it emptied
-- (crates/octty-core/src/layout.rs).
use mathlib.Core.Path.{subst}
use octty.Base.{◌≡◌, refl, ap, Text, text_eq, text_eq_iff, Bool, true, false, not}
use octty.Base.{
  ◌==◌, ◌||◌, replicate, if◌then◌else◌, text_lt, length-replicate, Bool-cases, some, List, [], ◌∷◌,
  inl, inr, ◌⊎◌, any,
}
use octty.Base.{is_empty, length, arith}
use octty.Base.BTreeMap
use octty.Base.BTreeMap.{BTreeMap, get, remove, Has, AllEntries, IsSorted, Above}
use octty.Base.Float.{Float}
use octty.Core.Types.{PaneState, WorkspaceColumn}
use octty.Core.Layout.{drop_from_columns, normalize_heights}
use octty.Core.Layout.Wellformed.{IsColumn}
use octty.Core.Layout.Remove.Column.{Others, drop_from_column-IsColumn}

Above-of_keys {ℓ} :
    {V : Type ℓ} (k : Text) (m m' : BTreeMap V)
    → BTreeMap.keys m' ≡ BTreeMap.keys m
    → Above k m
    → Above k m'
Above-of_keys k m [] e a = tt
Above-of_keys k [] ((j, v) ∷ m') e a = cc
Above-of_keys k ((i, w) ∷ m) ((j, v) ∷ m') e a =
    (subst (λ x. text_lt k x ≡ true) (cc) a.0, Above-of_keys k m m' (cc) a.1)

pub IsSorted-of_keys {ℓ} :
    {V : Type ℓ} (m m' : BTreeMap V) → BTreeMap.keys m' ≡ BTreeMap.keys m → IsSorted m → IsSorted m'
IsSorted-of_keys m [] e s = tt
IsSorted-of_keys [] ((j, v) ∷ m') e s = cc
IsSorted-of_keys ((i, w) ∷ m) ((j, v) ∷ m') e s =
    (Above-of_keys j m m' (cc) (subst (λ x. Above x m) (cc) s.0), IsSorted-of_keys m m' (cc) s.1)

pub Has-of_keys {ℓ} :
    {V : Type ℓ} (k : Text) (m m' : BTreeMap V)
    → BTreeMap.keys m' ≡ BTreeMap.keys m
    → Has k m
    → Has k m'
unfolding get
Has-of_keys k [] m' e h = cc
Has-of_keys k ((i, w) ∷ m) [] e h = cc
Has-of_keys k ((i, w) ∷ m) ((j, v) ∷ m') e h = ground (arith, Has-of_keys k m m')

module _ (fl : Float) where
  open fl use {F, of_ℕ, div}

  normalize_heights-IsColumn :
      (panes : BTreeMap (PaneState F)) (c : WorkspaceColumn F)
      → IsColumn panes c
      → IsColumn panes (normalize_heights fl c)
  unfolding normalize_heights
  normalize_heights-IsColumn panes c v =
      by_test (not (length c.height_fractions == length c.pane_ids) || is_empty c.height_fractions)
    where
      fraction : F
      fraction = div (of_ℕ 1) (of_ℕ (length c.pane_ids))

      even : WorkspaceColumn F
      even = record c { height_fractions = replicate (length c.pane_ids) fraction }

      by_test : (b : Bool) → IsColumn panes (if b then even else c)
      by_test true = record {
        heights = length-replicate (length c.pane_ids) fraction;
        unique = v.unique;
        known = v.known;
      }
      by_test false = v

  normalize_heights-pane_ids :
      (c : WorkspaceColumn F) → (normalize_heights fl c).pane_ids ≡ c.pane_ids
  unfolding normalize_heights
  normalize_heights-pane_ids c = ground arith

  -- What the loop over the columns returns, for the panes that are left.
  pub record Dropped (pane_id : Text) (panes : BTreeMap (PaneState F))
      (columns : BTreeMap (WorkspaceColumn F)) : Type 0 where
    pub columns' : BTreeMap (WorkspaceColumn F)
    pub empty : List Text
    pub returns : drop_from_columns fl pane_id columns ≡ some (columns', empty)
    pub same_keys : BTreeMap.keys columns' ≡ BTreeMap.keys columns
    pub valid : AllEntries (λ id. IsColumn panes) columns'
    pub without : AllEntries (λ id c. Others pane_id c.pane_ids) columns'
    pub listed :
        AllEntries
          (λ id c. (is_empty c.pane_ids ≡ false) ⊎ (any (λ j. text_eq j id) empty ≡ true))
          columns'

  weaken_listed :
      (k : Text) (empty : List Text) (m : BTreeMap (WorkspaceColumn F))
      → AllEntries
          (λ id c. (is_empty c.pane_ids ≡ false) ⊎ (any (λ j. text_eq j id) empty ≡ true))
          m
      → AllEntries
          (λ id c. (is_empty c.pane_ids ≡ false) ⊎ (any (λ j. text_eq j id) (k ∷ empty) ≡ true))
          m
  weaken_listed k empty m =
      BTreeMap.AllEntries-mono m (λ id c. elim [ inl f ↦ inl f | inr e ↦ inr (ground arith) ])

  pub drop_from_columns-Dropped :
      (pane_id : Text) (panes : BTreeMap (PaneState F)) (m : BTreeMap (WorkspaceColumn F))
      → AllEntries (λ id. IsColumn panes) m
      → Dropped pane_id (remove pane_id panes) m
  unfolding drop_from_columns
  drop_from_columns-Dropped pane_id panes [] a = record {
    columns' = [];
    empty = [];
    returns = refl;
    same_keys = refl;
    valid = tt;
    without = tt;
    listed = tt;
  }
  drop_from_columns-Dropped pane_id panes ((id, c) ∷ m) a =
      let (c', eq, v, others) = drop_from_column-IsColumn pane_id panes c a.0 in
      let rest = drop_from_columns-Dropped pane_id panes m a.1 in
      elim (Bool-cases (is_empty c'.pane_ids)) [
        | inl none_left ↦ record {
          columns' = (id, c') ∷ rest.columns';
          empty = id ∷ rest.empty;
          returns = rw (eq, rest.returns, none_left);
          same_keys = ap (λ ks. id ∷ ks) rest.same_keys;
          valid = (v, rest.valid);
          without = (others, rest.without);
          listed = (
            inr (ground (arith, text_eq_iff id id)),
            weaken_listed id rest.empty rest.columns' rest.listed,
          );
        }
        | inr some_left ↦ record {
          columns' = (id, normalize_heights fl c') ∷ rest.columns';
          empty = rest.empty;
          returns = rw (eq, rest.returns, some_left);
          same_keys = ap (λ ks. id ∷ ks) rest.same_keys;
          valid = (normalize_heights-IsColumn (remove pane_id panes) c' v, rest.valid);
          without = (rw normalize_heights-pane_ids others, rest.without);
          listed = (inl (rw normalize_heights-pane_ids some_left), rest.listed);
        }
      ]
