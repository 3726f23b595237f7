-- ===== src/App/Snapshots/Tests.antt =====
-- Snapshots of a terminal of two rows, merged by crates/octty-app/src/terminal_state.rs.
use octty.Base.{
  ℕ, ◌≡◌, refl, codes, none, some, List, [], ◌∷◌, false, true, arith, ◌<◌, ◌||◌, Text, text_eq,
}
use octty.Term.Snapshot.{TerminalGridSnapshot}
use octty.App.Snapshots.{
  coalesce_terminal_snapshots, extend_rows, insert_row, terminal_snapshot_presentation_delay,
  terminal_snapshot_presentation_delay_for_state,
}
use octty.App.Snapshots.Damage.{has, coalesce_terminal_snapshots-damaged}
use octty.App.Snapshots.Full.{SamePicture, turns, coalesce_terminal_snapshots-full}
use octty.App.Snapshots.Delay.{waiting}

-- A picture of three rows with the given rows damaged.
abbrev picture : Text → List ℕ → TerminalGridSnapshot
picture plain rows = record {
  session_id = codes "s";
  cols = 80;
  rows = 3;
  scroll = record { total = 3; offset = 0; len = 3 };
  default_fg = record { r = 0; g = 0; b = 0 };
  default_bg = record { r = 0; g = 0; b = 0 };
  cursor = none;
  damage = record { full = false; rows = rows; cells = 0 };
  rows_data = [];
  plain_text = plain;
  timing = record {
    pty_to_snapshot_micros = none;
    vt_write_micros = 0;
    pty_output_bytes = 0;
    snapshot_update_micros = 0;
    snapshot_extract_micros = 0;
    snapshot_build_micros = 0;
    snapshot_cells = 0;
    snapshot_text_cells = 0;
    dirty_rows = 0;
    dirty_cells = 0;
  };
}

abbrev older : TerminalGridSnapshot
older = picture (codes "a") (2 ∷ [])

abbrev newer : TerminalGridSnapshot
newer = picture (codes "b") (0 ∷ [])

abbrev merged : TerminalGridSnapshot
merged = record newer {
  damage = record { full = false; rows = 0 ∷ (2 ∷ []); cells = 160 };
  timing = record newer.timing { dirty_rows = 2; dirty_cells = 160 };
}

merges : coalesce_terminal_snapshots (older ∷ (newer ∷ [])) ≡ some merged
unfolding coalesce_terminal_snapshots extend_rows insert_row text_eq
merges = refl

coalesce_terminal_snapshots-damaged_example : has 2 merged.damage.rows ≡ true
coalesce_terminal_snapshots-damaged_example =
    coalesce_terminal_snapshots-damaged (older ∷ (newer ∷ [])) merged 2 merges (ground arith) refl

coalesce_terminal_snapshots-full_example :
    SamePicture merged newer
    × ((turns older (newer ∷ []) || older.damage.full) ≡ true → merged.damage.full ≡ true)
    × (merged.damage.full ≡ true → (row : ℕ) → row < 3 → has row merged.damage.rows ≡ true)
coalesce_terminal_snapshots-full_example =
    coalesce_terminal_snapshots-full older (newer ∷ []) merged merges

waits : terminal_snapshot_presentation_delay (waiting newer 1000) false 2000 ≡ some 99999000
unfolding terminal_snapshot_presentation_delay terminal_snapshot_presentation_delay_for_state
waits = refl
