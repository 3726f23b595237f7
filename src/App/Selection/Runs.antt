-- ===== src/App/Selection/Runs.antt =====
-- crates/octty-app/src/terminal_selection.rs: the runs of a selection lie in the grid, and the text
-- with the common indentation removed.
use octty.Base.{ℕ, ◌+◌, ◌-◌, ◌<◌, ◌≤◌, min, max, ◌||◌, leb, ◌==◌, Option, none, some}
use octty.Base.{
  List, [], map, choose, push_some, range, All, if◌then◌else◌, ◌≡◌, refl, arith, Bool-cases, inl,
  inr, zero, suc,
}
use octty.App.Selection.{
  TerminalGridPoint, TerminalSelection, TerminalSelectionRun, same_point, next_u16, inclusive,
  row_run, linear_runs, terminal_rectangular_selection_runs, terminal_selection_runs,
}

-- A run with at least one column, within the columns and the rows of the grid.
abbrev pub InGrid : ℕ → ℕ → TerminalSelectionRun → Type 0
InGrid cols rows run = (run.row < rows) × (run.start_col < run.end_col) × (run.end_col ≤ cols)

pushed :
    {cols rows : ℕ} (o : Option TerminalSelectionRun) (runs : List TerminalSelectionRun)
    → ((run : TerminalSelectionRun) → o ≡ some run → InGrid cols rows run)
    → All (InGrid cols rows) runs
    → All (InGrid cols rows) (push_some o runs)
pushed none runs g a = a
pushed (some run) runs g a = (g run refl, a)

choose_rows :
    (f : ℕ → Option TerminalSelectionRun) (cols rows from n : ℕ)
    → ((row : ℕ) (run : TerminalSelectionRun)
        → f row ≡ some run
        → row < rows
        → InGrid cols rows run)
    → from + n ≤ rows
    → All (InGrid cols rows) (choose f (range from n))
choose_rows f cols rows from zero g h = tt
choose_rows f cols rows from (suc n) g h =
    pushed (f from) _ (λ run e. g from run e (omega (arith, h)))
      (choose_rows f cols rows (suc from) n g (omega (arith, h)))

row_run-InGrid :
    (start end : TerminalGridPoint) (cols rows start_row end_row row : ℕ)
    (run : TerminalSelectionRun)
    → row_run start end cols start_row end_row row ≡ some run
    → row < rows
    → InGrid cols rows run
row_run-InGrid start end cols rows start_row end_row row run e h = ground arith

map_rows :
    (start_col end_col cols rows from n : ℕ)
    → start_col < end_col
    → end_col ≤ cols
    → from + n ≤ rows
    → All
        (InGrid cols rows)
        (map (λ row. record { row = row; start_col = start_col; end_col = end_col }) (range from n))
map_rows start_col end_col cols rows from zero c d h = tt
map_rows start_col end_col cols rows from (suc n) c d h = (
  (omega (arith, h), c, d),
  map_rows start_col end_col cols rows (suc from) n c d (omega (arith, h)),
)

inclusive_below :
    (a b rows : ℕ) → 0 < rows → min a (rows - 1) + (min b (rows - 1) + 1 - min a (rows - 1)) ≤ rows
inclusive_below a b rows h = omega (arith, h)

rectangular-InGrid :
    (s : TerminalSelection) (cols rows : ℕ)
    → 0 < rows
    → All (InGrid cols rows) (terminal_rectangular_selection_runs s cols rows)
unfolding terminal_rectangular_selection_runs
rectangular-InGrid s cols rows h =
    sides (min (min s.anchor.col s.active.col) cols)
      (min (next_u16 (max s.anchor.col s.active.col)) cols) (omega arith)
  where
    top : ℕ
    top = min s.anchor.row s.active.row

    bottom : ℕ
    bottom = max s.anchor.row s.active.row

    sides :
        (start_col end_col : ℕ)
        → end_col ≤ cols
        → All (InGrid cols rows) (
            if leb end_col start_col
            then []
            else map
                (λ row. record { row = row; start_col = start_col; end_col = end_col })
                (inclusive (min top (rows - 1)) (min bottom (rows - 1))))
    sides start_col end_col d = elim (Bool-cases (leb end_col start_col)) [
      | inl e ↦ rw e tt
      | inr e ↦ rw e (
          map_rows start_col end_col cols rows _ _ (ground arith) d
            (inclusive_below top bottom rows h))
    ]

linear-InGrid :
    (start end : TerminalGridPoint) (cols rows : ℕ)
    → 0 < rows
    → All (InGrid cols rows) (linear_runs start end cols rows)
linear-InGrid start end cols rows h =
    choose_rows _ cols rows _ _ (λ row run e l. row_run-InGrid start end cols rows _ _ row run e l)
      (inclusive_below start.row end.row rows h)

-- Whatever the two points are, and even if the grid became smaller since they were set, each run of a
-- selection has at least one column and lies within the rows and columns of the grid.
pub terminal_selection_runs-InGrid :
    (s : TerminalSelection) (cols rows : ℕ)
    → All (InGrid cols rows) (terminal_selection_runs s cols rows)
unfolding terminal_selection_runs
terminal_selection_runs-InGrid s cols rows =
    elim (Bool-cases (cols == 0 || rows == 0 || same_point s.anchor s.active)) [
      | inl e ↦ rw e tt
      | inr e ↦ rw e (elim (Bool-cases s.mode.rectangular) [
        | inl r ↦ rw r (rectangular-InGrid s cols rows (ground arith))
        | inr r ↦ rw r (linear-InGrid _ _ cols rows (ground arith))
      ])
    ]
