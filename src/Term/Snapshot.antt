-- ===== src/Term/Snapshot.antt =====
-- crates/octty-term/src/live_types.rs: the picture of a terminal that its thread sends to the
-- application. Numbers of all widths are natural numbers here.
use octty.Base.{ℕ, Bool, Option, Text, List}

pub record TerminalRgb : Type 0 where
  pub r : ℕ
  pub g : ℕ
  pub b : ℕ

pub record TerminalCellSnapshot : Type 0 where
  pub text : Text
  pub width : ℕ
  pub fg : Option TerminalRgb
  pub bg : Option TerminalRgb
  pub bold : Bool
  pub italic : Bool
  pub faint : Bool
  pub blink : Bool
  pub underline : Bool
  pub inverse : Bool
  pub invisible : Bool
  pub strikethrough : Bool
  pub overline : Bool

pub record TerminalRowSnapshot : Type 0 where
  pub cells : List TerminalCellSnapshot

pub record TerminalCursorSnapshot : Type 0 where
  pub col : ℕ
  pub row : ℕ
  pub visible : Bool

pub record TerminalScrollSnapshot : Type 0 where
  pub total : ℕ
  pub offset : ℕ
  pub len : ℕ

pub record TerminalDamageSnapshot : Type 0 where
  pub full : Bool
  pub rows : List ℕ
  pub cells : ℕ

pub record TerminalSnapshotTiming : Type 0 where
  pub pty_to_snapshot_micros : Option ℕ
  pub vt_write_micros : ℕ
  pub pty_output_bytes : ℕ
  pub snapshot_update_micros : ℕ
  pub snapshot_extract_micros : ℕ
  pub snapshot_build_micros : ℕ
  pub snapshot_cells : ℕ
  pub snapshot_text_cells : ℕ
  pub dirty_rows : ℕ
  pub dirty_cells : ℕ

pub record TerminalGridSnapshot : Type 0 where
  pub session_id : Text
  pub cols : ℕ
  pub rows : ℕ
  pub scroll : TerminalScrollSnapshot
  pub default_fg : TerminalRgb
  pub default_bg : TerminalRgb
  pub cursor : Option TerminalCursorSnapshot
  pub damage : TerminalDamageSnapshot
  pub rows_data : List TerminalRowSnapshot
  pub plain_text : Text
  pub timing : TerminalSnapshotTiming
