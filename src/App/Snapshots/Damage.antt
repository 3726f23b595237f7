-- ===== src/App/Snapshots/Damage.antt =====
-- crates/octty-app/src/terminal_state.rs: no damage is lost when snapshots are merged.
use octty.Base.{ℕ, ◌+◌, ◌<◌, ◌≤◌, Bool, true, ◌||◌, ltb, ◌==◌, ==_dec, some}
use octty.Base.{List, [], ◌∷◌, keep, any, range, zero, suc, inl, inr, Bool-cases}
use octty.Base.{◌≡◌, sym, arith}
use mathlib.Core.Path.{subst}
use octty.Term.Snapshot.{TerminalGridSnapshot}
use octty.App.Snapshots.{
  insert_row, extend_rows, mark_terminal_snapshot_full_damage, Coalescing, coalesce_step,
  coalesce_loop, coalesce_finish, coalesce_start, coalesce_terminal_snapshots,
}

abbrev pub has : ℕ → List ℕ → Bool
has row rows = any (λ r. r == row) rows

has-insert_row :
    (row new : ℕ) (rows : List ℕ)
    → has row (new ∷ rows) ≡ true
    → has row (insert_row new rows) ≡ true
unfolding insert_row
has-insert_row row new [] h = h
has-insert_row row new (r ∷ rows) h = ground (arith, has-insert_row row new rows)

has-extend_rows :
    (row : ℕ) (rows dirty : List ℕ)
    → (has row rows || has row dirty) ≡ true
    → has row (extend_rows rows dirty) ≡ true
unfolding extend_rows
has-extend_rows row [] dirty h = h
has-extend_rows row (r ∷ rows) dirty h =
    has-extend_rows row rows (insert_row r dirty) (ground (arith, has-insert_row row r dirty))

-- A row that some snapshot of the list has damaged.
abbrev pub damaged : ℕ → List TerminalGridSnapshot → Bool
damaged row ss = any (λ s. has row s.damage.rows) ss

has-loop :
    (row : ℕ) (ss : List TerminalGridSnapshot) (c : Coalescing)
    → (damaged row ss || has row c.dirty_rows) ≡ true
    → has row (coalesce_loop c ss).dirty_rows ≡ true
unfolding coalesce_loop coalesce_step
has-loop row [] c h = h
has-loop row (s ∷ ss) c h =
    has-loop row ss (coalesce_step c s)
      (ground (arith, has-extend_rows row s.damage.rows c.dirty_rows))

has-keep :
    (row bound : ℕ) (rows : List ℕ)
    → row < bound
    → has row rows ≡ true
    → has row (keep (λ r. ltb r bound) rows) ≡ true
has-keep row bound [] l h = h
has-keep row bound (r ∷ rows) l h = ground (arith, has-keep row bound rows l)

pub has-range : (row from n : ℕ) → from ≤ row → row < from + n → has row (range from n) ≡ true
has-range row from zero l u = absurd (omega arith)
has-range row from (suc n) l u = elim (==_dec from row) [
  | inl e ↦ ground arith
  | inr e ↦ ground (arith, has-range row (suc from) n (omega arith) (omega arith))
]

has-finish :
    (row : ℕ) (c : Coalescing)
    → row < c.latest.rows
    → has row c.dirty_rows ≡ true
    → has row (coalesce_finish c).damage.rows ≡ true
unfolding coalesce_finish mark_terminal_snapshot_full_damage
has-finish row c l h = elim (Bool-cases c.force_full) [
  | inl e ↦ rw e (has-range row 0 c.latest.rows (omega arith) (omega (arith, l)))
  | inr e ↦ rw e (has-keep row c.latest.rows c.dirty_rows l h)
]

rows-finish : (c : Coalescing) → (coalesce_finish c).rows ≡ c.latest.rows
unfolding coalesce_finish mark_terminal_snapshot_full_damage
rows-finish c = ground arith

-- A row of the merged picture that any of the snapshots has damaged is damaged in the result.
pub coalesce_terminal_snapshots-damaged :
    (ss : List TerminalGridSnapshot) (r : TerminalGridSnapshot) (row : ℕ)
    → coalesce_terminal_snapshots ss ≡ some r
    → row < r.rows
    → damaged row ss ≡ true
    → has row r.damage.rows ≡ true
unfolding coalesce_terminal_snapshots
coalesce_terminal_snapshots-damaged [] r row e l h = absurd (ground arith)
coalesce_terminal_snapshots-damaged (s ∷ ss) r row e l h =
    subst (λ v. has row v.damage.rows ≡ true) same
      (has-finish row c
        (subst (λ n. row < n) (rows-finish c) (subst (λ v. row < v.rows) (sym same) l))
        (has-loop row ss (coalesce_start s) started))
  where
    c : Coalescing
    c = coalesce_loop (coalesce_start s) ss

    same : coalesce_finish c ≡ r
    same = ground arith

    started : (damaged row ss || has row (coalesce_start s).dirty_rows) ≡ true
    started = unfold coalesce_start in ground (arith, has-extend_rows row s.damage.rows [])
