-- ===== src/App/Selection.antt =====
-- crates/octty-app/src/terminal_selection.rs: what is selected in the grid of a terminal, the text
-- that is copied from it, and the text that is pasted. Rows and columns are `u16`.
pub mod Runs
pub mod Paste
pub mod Quoting
mod Tests
use octty.Base.{
  ℕ, ◌+◌, ◌-◌, min, max, Bool, true, false, ◌&&◌, ◌||◌, not, leb, ltb, ◌==◌, Option, none, some,
  unwrap_or, suc, zero,
}
use octty.Base.{
  Text, codes, split, join, trim, trim_end, List, [], ◌∷◌, ◌++◌, map, keep, choose, is_empty, range,
  get_elem?, length, if◌then◌else◌,
}
use octty.Term.Snapshot.{TerminalCellSnapshot, TerminalRowSnapshot, TerminalGridSnapshot}

pub record TerminalGridPoint : Type 0 where
  pub row : ℕ
  pub col : ℕ

pub record TerminalSelectionMode : Type 0 where
  pub rectangular : Bool
  pub filter_indent : Bool

pub record TerminalSelection : Type 0 where
  pub anchor : TerminalGridPoint
  pub active : TerminalGridPoint
  pub mode : TerminalSelectionMode

pub record TerminalSelectionRun : Type 0 where
  pub row : ℕ
  pub start_col : ℕ
  pub end_col : ℕ

-- `saturating_add(1)` of a `u16`
abbrev pub next_u16 : ℕ → ℕ
next_u16 n = min (n + 1) 65535

-- `from..=to`
abbrev pub inclusive : ℕ → ℕ → List ℕ
inclusive from to = range from (to + 1 - from)

abbrev pub same_point : TerminalGridPoint → TerminalGridPoint → Bool
same_point a b = a.row == b.row && a.col == b.col

abbrev not_after : TerminalGridPoint → TerminalGridPoint → Bool
not_after a b = ltb a.row b.row || (a.row == b.row && leb a.col b.col)

unfoldable pub terminal_selection_ordered_points :
    TerminalSelection → TerminalGridPoint × TerminalGridPoint
terminal_selection_ordered_points selection =
    if not_after selection.anchor selection.active
    then (selection.anchor, selection.active)
    else (selection.active, selection.anchor)

unfoldable pub terminal_rectangular_selection_runs :
    TerminalSelection → ℕ → ℕ → List TerminalSelectionRun
terminal_rectangular_selection_runs selection cols rows =
    let start_row = min selection.anchor.row selection.active.row in
    let end_row = max selection.anchor.row selection.active.row in
    let start_col = min (min selection.anchor.col selection.active.col) cols in
    let end_col = min (next_u16 (max selection.anchor.col selection.active.col)) cols in
    if leb end_col start_col
    then []
    else map (λ row. record { row = row; start_col = start_col; end_col = end_col })
        (inclusive (min start_row (rows - 1)) (min end_row (rows - 1)))

-- The columns of one row of a selection that follows the text, from a start to an end point.
abbrev pub row_run :
    TerminalGridPoint → TerminalGridPoint → ℕ → ℕ → ℕ → ℕ → Option TerminalSelectionRun
row_run start end cols start_row end_row row =
    let start_col = min (if row == start_row then start.col else 0) cols in
    let end_col = min (if row == end_row then next_u16 end.col else cols) cols in
    if ltb start_col end_col
    then some (record { row = row; start_col = start_col; end_col = end_col })
    else none

abbrev linear_runs : TerminalGridPoint → TerminalGridPoint → ℕ → ℕ → List TerminalSelectionRun
linear_runs start end cols rows =
    let start_row = min start.row (rows - 1) in
    let end_row = min end.row (rows - 1) in
    choose (row_run start end cols start_row end_row) (inclusive start_row end_row)

unfoldable pub terminal_selection_runs : TerminalSelection → ℕ → ℕ → List TerminalSelectionRun
unfolding terminal_rectangular_selection_runs terminal_selection_ordered_points
terminal_selection_runs selection cols rows =
    if cols == 0 || rows == 0 || same_point selection.anchor selection.active
    then []
    else if selection.mode.rectangular
    then terminal_rectangular_selection_runs selection cols rows
    else let (start, end) = terminal_selection_ordered_points selection in
      linear_runs start end cols rows

abbrev cell_text : TerminalCellSnapshot → Text
cell_text cell =
    if cell.width == 0 || cell.invisible
    then []
    else if is_empty cell.text
    then codes " "
    else cell.text

abbrev column_text : List TerminalCellSnapshot → ℕ → Text
column_text cells col = elim (get_elem? cells col) [ none ↦ [] | some cell ↦ cell_text cell ]

abbrev columns_text : List TerminalCellSnapshot → List ℕ → Text
columns_text cells [] = []
columns_text cells (col ∷ cols) = column_text cells col ++ columns_text cells cols

-- The line of a run, unless the picture has no such row.
abbrev run_line : TerminalGridSnapshot → Bool → TerminalSelectionRun → Option Text
run_line snapshot rectangular run = elim (get_elem? snapshot.rows_data run.row) [
  | none ↦ none
  | some row ↦
      let line = columns_text row.cells (range run.start_col (run.end_col - run.start_col)) in
      some (if rectangular then line else trim_end line)
]

unfoldable pub terminal_selection_text_unfiltered : TerminalGridSnapshot → TerminalSelection → Text
unfolding terminal_selection_runs join trim_end
terminal_selection_text_unfiltered snapshot selection = join (codes "\n") (
    choose (run_line snapshot selection.mode.rectangular)
      (terminal_selection_runs selection snapshot.cols snapshot.rows))

abbrev is_indent : ℕ → Bool
is_indent c = c == 32 || c == 9

abbrev pub indent_of : Text → ℕ
indent_of [] = 0
indent_of (c ∷ t) = let rest = indent_of t in if is_indent c then suc rest else 0

-- `min` of an iterator
abbrev pub least : List ℕ → Option ℕ
least [] = none
least (n ∷ ns) = some (elim (least ns) [ none ↦ n | some m ↦ min n m ])

abbrev pub strip_indent : ℕ → Text → Text
strip_indent zero t = t
strip_indent (suc n) [] = []
strip_indent (suc n) (c ∷ t) = let rest = strip_indent n t in if is_indent c then rest else c ∷ t

unfoldable pub common_indent : List Text → ℕ
unfolding trim
common_indent lines =
    unwrap_or (least (map indent_of (keep (λ l. not (is_empty (trim l))) lines))) 0

unfoldable pub terminal_selection_text_remove_common_indent : Text → Text
unfolding common_indent split join
terminal_selection_text_remove_common_indent text =
    let lines = split 10 text in
    let n = common_indent lines in
    if n == 0 then text else join (codes "\n") (map (strip_indent n) lines)

unfoldable pub terminal_selection_text : TerminalGridSnapshot → TerminalSelection → Text
unfolding terminal_selection_text_unfiltered terminal_selection_text_remove_common_indent
terminal_selection_text snapshot selection =
    let text = terminal_selection_text_unfiltered snapshot selection in
    if selection.mode.filter_indent then terminal_selection_text_remove_common_indent text else text
