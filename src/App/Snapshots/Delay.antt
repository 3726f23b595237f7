-- ===== src/App/Snapshots/Delay.antt =====
-- crates/octty-app/src/terminal_state.rs: when a snapshot in the background is shown.
use octty.Base.{ℕ, ◌+◌, ◌-◌, ◌<◌, ◌≤◌, true, false, leb, if◌then◌else◌, ◌∙◌, none, some, ◌≡◌, arith}
use octty.Term.Snapshot.{TerminalGridSnapshot}
use octty.App.Snapshots.{
  LiveTerminalPane, terminal_snapshot_presentation_delay,
  terminal_snapshot_presentation_delay_for_state, take_presentable_terminal_snapshot,
}

-- A pane with a pending snapshot, that showed the one before at a time.
abbrev pub waiting : TerminalGridSnapshot → ℕ → LiveTerminalPane
waiting snapshot last = record {
  pending_snapshot = some snapshot;
  last_presented_snapshot_at = some last;
}

remaining_later :
    (last now d later : ℕ)
    → last ≤ now
    → now ≤ later
    → terminal_snapshot_presentation_delay_for_state true (some last) false now ≡ some d
    → terminal_snapshot_presentation_delay_for_state true (some last) false later
      ≡ (if leb (now + d) later then none else some (now + d - later))
unfolding terminal_snapshot_presentation_delay_for_state
remaining_later last now d later h l e = ground arith

-- A snapshot in the background that must wait, waits for exactly the delay given: before it has
-- passed the snapshot is held back, with what is left of the delay, and from then on it is taken,
-- which leaves nothing pending. The times are in order.
pub delay_is_exact :
    (snapshot : TerminalGridSnapshot) (last now d later : ℕ)
    → last ≤ now
    → now ≤ later
    → terminal_snapshot_presentation_delay (waiting snapshot last) false now ≡ some d
    → (later < now + d
        → (terminal_snapshot_presentation_delay (waiting snapshot last) false later
            ≡ some (now + d - later))
          × (take_presentable_terminal_snapshot (waiting snapshot last) false later
              ≡ (waiting snapshot last, none)))
      × (now + d ≤ later
          → take_presentable_terminal_snapshot (waiting snapshot last) false later
            ≡ (record (waiting snapshot last) { pending_snapshot = none }, some snapshot))
unfolding terminal_snapshot_presentation_delay take_presentable_terminal_snapshot
delay_is_exact snapshot last now d later h l e =
    let r = remaining_later last now d later h l e in
    (λ k. (r ∙ ground arith, rw (r) (ground arith)), λ k. rw (r) (ground arith))
