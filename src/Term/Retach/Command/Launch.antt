-- ===== src/Term/Retach/Command/Launch.antt =====
-- crates/octty-term/src/retach.rs: what a session is started with.
use package.octty.Base.{some, Text, codes, List, [], ◌∷◌, ◌++◌, ◌≡◌}
use octty.Core.Types.{TerminalExitBehavior, restart_auto, restart_manually, close}
use octty.Term.Retach.Command.Quoting.{words, gap}

-- The words of a process: run as they are, or by a shell from a line that has them in it.
abbrev pub Runs : TerminalExitBehavior → List Text → List Text → Type 0
Runs close command args = args ≡ command
Runs restart_auto command args =
    (shell : Text) × (line : Text) × (rest : Text) × (args
      ≡ shell ∷ (codes "-lc" ∷ ((codes "while true; do " ++ (line ++ (b';' ∷ rest))) ∷ [])))
    × (words gap line ≡ some command)
Runs restart_manually command args =
    (shell : Text) × (line : Text) × (rest : Text) × (args
      ≡ shell ∷ (codes "-lc" ∷ ((line ++ (b';' ∷ rest)) ∷ [])))
    × (words gap line ≡ some command)
