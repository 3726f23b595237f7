-- ===== src/Core/Layout/Remove/Column.antt =====
-- One column in the loop of `remove_pane` (crates/octty-core/src/layout.rs).
use mathlib.Core.Path.{subst}
use octty.Base.{ℕ, zero, suc, ◌≡◌, refl, Text, text_eq, text_eq_iff, true, false}
use octty.Base.{◌+◌, Option-cases, none, some, List, [], ◌∷◌, inl, inr, All, any}
use octty.Base.{length, position, remove_at, arith, ◌<◌}
use octty.Base.BTreeMap
use octty.Base.BTreeMap.{BTreeMap, get, remove, Has, AllEntries, IsSorted, Above}
use octty.Core.Types.{PaneState, WorkspaceColumn}
use octty.Core.Layout.{drop_from_column}
use octty.Core.Layout.Wellformed.{IsColumn, NodupIds}

abbrev pub Others : Text → List Text → Type 0
Others pane_id ids = any (λ j. text_eq j pane_id) ids ≡ false

-- Taking the pane's first place out of a column's list.
position-none :
    (pane_id : Text) (ids : List Text)
    → position (λ id. text_eq id pane_id) ids ≡ none
    → Others pane_id ids
position-none pane_id [] e = refl
position-none pane_id (id ∷ ids) e = ground (arith, position-none pane_id ids)

position-suc :
    (pane_id id : Text) (ids : List Text) (n : ℕ)
    → position (λ j. text_eq j pane_id) (id ∷ ids) ≡ some (suc n)
    → (position (λ j. text_eq j pane_id) ids ≡ some n) × (text_eq id pane_id ≡ false)
position-suc pane_id id ids n e = ground arith

position-zero :
    (pane_id id : Text) (ids : List Text)
    → position (λ j. text_eq j pane_id) (id ∷ ids) ≡ some zero
    → text_eq id pane_id ≡ true
position-zero pane_id id ids e = ground arith

position-lt :
    (pane_id : Text) (ids : List Text) (i : ℕ)
    → position (λ j. text_eq j pane_id) ids ≡ some i
    → i < length ids
position-lt pane_id [] i e = cc
position-lt pane_id (id ∷ ids) zero e = omega arith
position-lt pane_id (id ∷ ids) (suc n) e =
    omega (arith, position-lt pane_id ids n (position-suc pane_id id ids n e).0)

length-remove_at {ℓ} :
    {A : Type ℓ} (xs : List A) (i : ℕ) → i < length xs → length (remove_at xs i) + 1 ≡ length xs
length-remove_at [] i h = elim h [ ]
length-remove_at (x ∷ xs) zero h = omega arith
length-remove_at (x ∷ xs) (suc i) h = omega (arith, length-remove_at xs i (omega arith))

All-remove_at {ℓ κ} :
    {A : Type ℓ} (P : A → Type κ) (xs : List A) (i : ℕ) → All P xs → All P (remove_at xs i)
All-remove_at P [] i a = tt
All-remove_at P (x ∷ xs) zero a = a.1
All-remove_at P (x ∷ xs) (suc i) a = (a.0, All-remove_at P xs i a.1)

Others-remove_at : (j : Text) (ids : List Text) (i : ℕ) → Others j ids → Others j (remove_at ids i)
Others-remove_at j [] i o = refl
Others-remove_at j (id ∷ ids) zero o = ground arith
Others-remove_at j (id ∷ ids) (suc i) o = ground (arith, Others-remove_at j ids i)

remove_at-NodupIds : (ids : List Text) (i : ℕ) → NodupIds ids → NodupIds (remove_at ids i)
remove_at-NodupIds [] i u = tt
remove_at-NodupIds (id ∷ ids) zero u = u.1
remove_at-NodupIds (id ∷ ids) (suc i) u =
    (Others-remove_at id ids i u.0, remove_at-NodupIds ids i u.1)

-- With no id twice, the first place is the only one.
remove_at-Others :
    (pane_id : Text) (ids : List Text) (i : ℕ)
    → NodupIds ids
    → position (λ j. text_eq j pane_id) ids ≡ some i
    → Others pane_id (remove_at ids i)
remove_at-Others pane_id [] i u e = refl
remove_at-Others pane_id (id ∷ ids) zero u e =
    subst (λ j. Others j ids) ((text_eq_iff id pane_id).0 (position-zero pane_id id ids e)) u.0
remove_at-Others pane_id (id ∷ ids) (suc n) u e =
    let (rest, differs) = position-suc pane_id id ids n e in
    ground (arith, remove_at-Others pane_id ids n u.1 rest)

module _ {F : Type 0} where
  -- One column with the pane taken out, in a map of panes without it.
  pub drop_from_column-IsColumn :
      (pane_id : Text) (panes : BTreeMap (PaneState F)) (c : WorkspaceColumn F)
      → IsColumn panes c
      → (c' : WorkspaceColumn F) × (drop_from_column pane_id c ≡ some c')
        × IsColumn (remove pane_id panes) c'
        × Others pane_id c'.pane_ids
  unfolding drop_from_column
  drop_from_column-IsColumn pane_id panes c v =
      elim (Option-cases (position (λ j. text_eq j pane_id) c.pane_ids)) [
        | inl e ↦
            let others = position-none pane_id c.pane_ids e in
            (c, rw (e, drop_from_column), keeps c others v, others)
        | inr (i, e) ↦
            let h = position-lt pane_id c.pane_ids i e in
            let c' : WorkspaceColumn F = record c {
              pane_ids = remove_at c.pane_ids i;
              height_fractions = remove_at c.height_fractions i;
            } in
            let others = remove_at-Others pane_id c.pane_ids i v.unique e in
            (
              c',
              rw (e, drop_from_column) (ground (arith, v.heights)),
              keeps c' others (record {
                heights = omega (
                  arith,
                  v.heights,
                  length-remove_at c.pane_ids i h,
                  length-remove_at c.height_fractions i (omega (arith, v.heights)),
                );
                unique = remove_at-NodupIds c.pane_ids i v.unique;
                known = All-remove_at _ c.pane_ids i v.known;
              }),
              others,
            )
      ]
    where
      still :
          (ids : List Text)
          → Others pane_id ids
          → All (λ id. Has id panes) ids
          → All (λ id. Has id (remove pane_id panes)) ids
      still [] o a = tt
      still (id ∷ ids) o a =
          (BTreeMap.Has-remove id pane_id panes (ground arith) a.0, still ids (ground arith) a.1)

      keeps :
          (c : WorkspaceColumn F)
          → Others pane_id c.pane_ids
          → IsColumn panes c
          → IsColumn (remove pane_id panes) c
      keeps c o v = record {
        heights = v.heights;
        unique = v.unique;
        known = still c.pane_ids o v.known;
      }
