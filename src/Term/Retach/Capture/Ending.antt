-- ===== src/Term/Retach/Capture/Ending.antt =====
-- crates/octty-term/src/retach.rs: the capture of a screen comes to its end, and keeps what it has.
use package.octty.Base.{ℕ, ◌-◌, ◌<◌, Option, none, some, Text, ◌++◌, ◌≡◌}
use octty.Term.Retach.{ok, err}
use octty.Term.Retach.Frames.{FrameReader, Read, Flow, go_on, stop}
use octty.Term.Retach.Server.{Outside}
use octty.Term.Retach.Capture.{Screen, Captured}

-- A text with more behind it.
abbrev pub Begins : Text → Text → Type 0
Begins t u = (more : Text) × (u ≡ t ++ more)

-- Messages only add to the text.
abbrev Grows : Screen → Option (Flow Screen Text × FrameReader) → Type 0
Grows s none = Unit {0}
Grows s (some (go_on s', r)) = Begins s.text s'.text
Grows s (some (stop (ok t), r)) = Begins s.text t
Grows s (some (stop (err e), r)) = Unit {0}

module _ (o : Outside) where
  -- An answer: an error, or a text that keeps what was captured before.
  abbrev pub IsAnswer : Screen → Captured o → Type 0
  IsAnswer s none = ⊥
  IsAnswer s (some (ok t, w)) = Begins s.text t
  IsAnswer s (some (err e, w)) = Unit {0}

-- The clock has moved on with each read that comes about.
module _ (o : Outside) (stream : o.Stream) (deadline : ℕ)
    (ticks : (w : o.World) (rd : Read) (w' : o.World)
      → o.read_until deadline stream (o.now_ms w).1 ≡ (some rd, w')
      → (o.now_ms w).0 < (o.now_ms w').0) where
  -- The time that is left.
  abbrev pub left : o.World → ℕ
  left w = deadline - (o.now_ms w).0
