-- ===== src/App/Flush/Latest.antt =====
-- crates/octty-app/src/terminal_lifecycle.rs: what a flush sends, and which panes it brings back.
use octty.Base.{ℕ, if◌then◌else◌, Text, one_of, List, [], ◌∷◌, map, ◌≡◌}
use octty.Core.Types.{WorkspaceSnapshot}
use octty.Term.Retach.{ok, err, TerminalError}
use octty.Term.Retach.Server.{Outside, M, return}
use octty.Term.Retach.Sessions.{ensure_retach_session}
use octty.App.Lifecycle.{send_terminal_input_to_session}
use octty.App.Flush.{PendingTerminalInput}
use octty.App.Flush.Sending.{Store, spec_of, retach_session, capture_key, capture_input, followed}

module _ {F : Type 0} where
  abbrev pane_keys : List (PendingTerminalInput F) → List Text
  pane_keys ps = map capture_key ps

  -- The last input of each pane.
  abbrev pub latest : List (PendingTerminalInput F) → List (PendingTerminalInput F)
  latest [] = []
  latest (p ∷ ps) =
      let rest = latest ps in if one_of (capture_key p) (pane_keys ps) then rest else p ∷ rest

  -- The inputs that are the first ones of their panes, and of none of the given ones.
  abbrev fresh : List Text → List (PendingTerminalInput F) → List (PendingTerminalInput F)
  fresh seen [] = []
  fresh seen (p ∷ ps) =
      let skipped = fresh seen ps in
      let others = fresh (capture_key p ∷ seen) ps in
      if one_of (capture_key p) seen then skipped else p ∷ others

module _ (o : Outside) {F : Type 0} (store : Store o.World F) (fuel : ℕ) where
  open o use {World}

  -- A picture for each of the inputs.
  abbrev pub each : List (PendingTerminalInput F) → M World (List (WorkspaceSnapshot F))
  each [] = return []
  each (p ∷ ps) =
      let others = each ps in followed o store fuel (capture_input o store fuel p) others

  -- A key that was sent: to its session, or to the session that was started when that failed.
  pub data Sent (p : PendingTerminalInput F) (from to : World) : Type 0 where
    at_once :
        send_terminal_input_to_session o (retach_session p) p.input from ≡ (ok tt, to)
        → Sent p from to
    restarted :
        (e : TerminalError) (failed started : World) (session_id : Text)
        → send_terminal_input_to_session o (retach_session p) p.input from ≡ (err e, failed)
        → ensure_retach_session o (spec_of p) failed ≡ (ok session_id, started)
        → send_terminal_input_to_session o session_id p.input started ≡ (ok tt, to)
        → Sent p from to

  pub data SentAll : List (PendingTerminalInput F) → World → World → Type 0 where
    done : (w : World) → SentAll [] w w
    next :
        {p : PendingTerminalInput F} {ps : List (PendingTerminalInput F)} {u v w : World}
        → Sent p u v
        → SentAll ps v w
        → SentAll (p ∷ ps) u w
