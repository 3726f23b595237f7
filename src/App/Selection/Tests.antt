-- ===== src/App/Selection/Tests.antt =====
-- Selections and pasted texts for crates/octty-app/src/terminal_selection.rs.
use octty.Base.{
  ◌≡◌, refl, codes, [], ◌∷◌, false, All, split, join, trim, trim_start, trim_end, is_whitespace,
}
use octty.App.Selection.{
  TerminalSelection, terminal_selection_runs, terminal_selection_ordered_points, common_indent,
  terminal_selection_text_remove_common_indent,
}
use octty.App.Selection.Runs.{InGrid, terminal_selection_runs-InGrid}

-- From the middle of the first row back from the third row of a larger grid.
abbrev backwards : TerminalSelection
backwards = record {
  anchor = record { row = 2; col = 3 };
  active = record { row = 0; col = 5 };
  mode = record { rectangular = false; filter_indent = false };
}

backwards_runs :
    terminal_selection_runs backwards 10 2
    ≡ record { row = 0; start_col = 5; end_col = 10 }
      ∷ (record { row = 1; start_col = 0; end_col = 4 } ∷ [])
unfolding terminal_selection_runs terminal_selection_ordered_points
backwards_runs = refl

terminal_selection_runs-InGrid_example : All (InGrid 10 2) (terminal_selection_runs backwards 10 2)
terminal_selection_runs-InGrid_example = terminal_selection_runs-InGrid backwards 10 2

indented : terminal_selection_text_remove_common_indent (codes "  a\n\n    b") ≡ codes "a\n\n  b"
unfolding terminal_selection_text_remove_common_indent common_indent split join trim trim_start
    trim_end is_whitespace
indented = refl
