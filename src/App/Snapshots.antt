-- ===== src/App/Snapshots.antt =====
-- crates/octty-app/src/terminal_state.rs: how snapshots of a terminal are merged and when they are
-- shown. Instants and durations are counts of nanoseconds; a `BTreeSet` of rows is a strictly
-- ascending list.
pub mod Damage
pub mod Full
pub mod Delay
mod Tests
use octty.Base.{
  ℕ, ◌+◌, ◌-◌, ◌*◌, ◌%◌, ◌^◌, min, Bool, true, false, ◌&&◌, ◌||◌, not, leb, ltb, ◌==◌, Option, none,
  some,
}
use octty.Base.{
  is_some, option_map, Text, text_eq, List, [], ◌∷◌, keep, range, length, if◌then◌else◌,
}
use octty.Term.Snapshot.{TerminalDamageSnapshot, TerminalGridSnapshot, TerminalSnapshotTiming}

abbrev pub terminal_focused_frame_interval : ℕ
terminal_focused_frame_interval = 8000000

abbrev pub terminal_background_frame_interval : ℕ
terminal_background_frame_interval = 100000000

-- `insert` of a `BTreeSet<u16>`
unfoldable pub insert_row : ℕ → List ℕ → List ℕ
insert_row row [] = row ∷ []
insert_row row (r ∷ rows) =
    let rest = insert_row row rows in
    if ltb row r then row ∷ (r ∷ rows) else if row == r then r ∷ rows else r ∷ rest

unfoldable pub extend_rows : List ℕ → List ℕ → List ℕ
unfolding insert_row
extend_rows [] dirty = dirty
extend_rows (row ∷ rows) dirty = extend_rows rows (insert_row row dirty)

-- `rows.len().saturating_mul(cols) as u32`, of `usize` with 64 bits.
abbrev pub cell_count : List ℕ → ℕ → ℕ
cell_count rows cols = min (length rows * cols) (2 ^ 64 - 1) % 2 ^ 32

-- A snapshot with these damaged rows, counted in the damage and in the timing.
abbrev pub with_damage : TerminalGridSnapshot → Bool → List ℕ → TerminalGridSnapshot
with_damage s full dirty = record s {
  damage = record { full = full; rows = dirty; cells = cell_count dirty s.cols };
  timing = record s.timing {
    dirty_rows = length dirty % 2 ^ 32;
    dirty_cells = cell_count dirty s.cols;
  };
}

unfoldable pub mark_terminal_snapshot_full_damage : TerminalGridSnapshot → TerminalGridSnapshot
mark_terminal_snapshot_full_damage s = with_damage s true (range 0 s.rows)

-- The variables of the loop: the previous session and size are those of `latest`.
pub record Coalescing : Type 0 where
  pub latest : TerminalGridSnapshot
  pub dirty_rows : List ℕ
  pub force_full : Bool

abbrev pub same_view : TerminalGridSnapshot → TerminalGridSnapshot → Bool
same_view s previous =
    text_eq s.session_id previous.session_id && s.cols == previous.cols && s.rows == previous.rows

unfoldable pub coalesce_step : Coalescing → TerminalGridSnapshot → Coalescing
unfolding text_eq extend_rows
coalesce_step c s = record {
  latest = s;
  dirty_rows = extend_rows s.damage.rows c.dirty_rows;
  force_full = s.damage.full || not (same_view s c.latest) || c.force_full;
}

unfoldable pub coalesce_loop : Coalescing → List TerminalGridSnapshot → Coalescing
unfolding coalesce_step
coalesce_loop c [] = c
coalesce_loop c (s ∷ ss) = coalesce_loop (coalesce_step c s) ss

unfoldable pub coalesce_finish : Coalescing → TerminalGridSnapshot
unfolding mark_terminal_snapshot_full_damage
coalesce_finish c =
    let dirty = keep (λ row. ltb row c.latest.rows) c.dirty_rows in
    if c.force_full
    then mark_terminal_snapshot_full_damage c.latest
    else with_damage c.latest (length dirty == c.latest.rows) dirty

unfoldable pub coalesce_start : TerminalGridSnapshot → Coalescing
unfolding extend_rows
coalesce_start s = record {
  latest = s;
  dirty_rows = extend_rows s.damage.rows [];
  force_full = s.damage.full;
}

unfoldable pub coalesce_terminal_snapshots : List TerminalGridSnapshot → Option TerminalGridSnapshot
unfolding coalesce_start coalesce_loop coalesce_finish
coalesce_terminal_snapshots [] = none
coalesce_terminal_snapshots (s ∷ ss) = some (coalesce_finish (coalesce_loop (coalesce_start s) ss))

abbrev remaining : ℕ → ℕ → Option ℕ
remaining interval elapsed = if leb interval elapsed then none else some (interval - elapsed)

abbrev pub delay_since : Option ℕ → ℕ → Option ℕ
delay_since none now = none
delay_since (some last) now = remaining terminal_background_frame_interval (now - last)

unfoldable pub terminal_snapshot_presentation_delay_for_state :
    Bool → Option ℕ → Bool → ℕ → Option ℕ
terminal_snapshot_presentation_delay_for_state has_pending_snapshot last_presented_at focused now =
    if not has_pending_snapshot || focused then none else delay_since last_presented_at now

-- The fields of a live pane that decide when its snapshot is shown.
pub record LiveTerminalPane : Type 0 where
  pub pending_snapshot : Option TerminalGridSnapshot
  pub last_presented_snapshot_at : Option ℕ

unfoldable pub terminal_snapshot_presentation_delay : LiveTerminalPane → Bool → ℕ → Option ℕ
terminal_snapshot_presentation_delay live focused now =
    terminal_snapshot_presentation_delay_for_state (is_some live.pending_snapshot)
      live.last_presented_snapshot_at focused now

unfoldable pub take_presentable_terminal_snapshot :
    LiveTerminalPane → Bool → ℕ → LiveTerminalPane × Option TerminalGridSnapshot
take_presentable_terminal_snapshot live focused now =
    if is_some (terminal_snapshot_presentation_delay live focused now)
    then (live, none)
    else (record live { pending_snapshot = none }, live.pending_snapshot)

unfoldable pub remaining_terminal_frame_delay : Option ℕ → ℕ → ℕ
remaining_terminal_frame_delay none now = 0
remaining_terminal_frame_delay (some last) now = terminal_focused_frame_interval - (now - last)

unfoldable pub terminal_snapshot_coalesce_interval : Bool → Bool → Option ℕ → ℕ → ℕ
unfolding remaining_terminal_frame_delay
terminal_snapshot_coalesce_interval window_active has_recent_input last_snapshot_notify_at now =
    if window_active && has_recent_input
    then remaining_terminal_frame_delay last_snapshot_notify_at now
    else if window_active
    then terminal_focused_frame_interval
    else terminal_background_frame_interval

pub record TerminalSnapshotDrainResult : Type 0 where
  pub changed : Bool
  pub deferred_delay : Option ℕ

abbrev pub sooner : Option ℕ → ℕ → ℕ
sooner none delay = delay
sooner (some current) delay = min current delay

unfoldable pub defer_for : TerminalSnapshotDrainResult → ℕ → TerminalSnapshotDrainResult
defer_for r delay = record r { deferred_delay = some (sooner r.deferred_delay delay) }
