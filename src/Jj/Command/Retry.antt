-- ===== src/Jj/Command/Retry.antt =====
-- `with_stale_retry` (crates/octty-jj/src/lib.rs) on every outcome of its runs.
use octty.Base.{◌≡◌, refl, Text, codes, true, List, [], ◌∷◌, Bool-cases, inl, inr}
use octty.Jj.World.{JjError, command, io, Result, ok, err, FilePath, Outside, after}
use octty.Jj.Parse.{is_stale_workspace_error}
use octty.Jj.Command.{run_jj, with_stale_retry, retry}

module _ (outside : Outside) (path : FilePath) (args : List Text) where
  open outside use {World}

  abbrev update_stale : List Text
  update_stale = codes "workspace" ∷ codes "update-stale" ∷ []

  abbrev IsStale : Result Text → Type 0
  IsStale (err (command message)) = is_stale_workspace_error message ≡ true
  IsStale _ = ⊥

  -- The specification of a run with one retry: an answer that is no stale error stands, and `jj`
  -- runs once; after a stale error the update runs, its failure is returned, and after its success
  -- the arguments run once more, whatever comes of it.
  pub data Runs (w : World) : Result Text × World → Type 0 where
    direct :
        {r : Result Text} {w' : World}
        → run_jj outside path args w ≡ (r, w')
        → ¬ IsStale r
        → Runs w (r, w')
    update_failed :
        {r : Result Text} {e : JjError} {w' w'' : World}
        → run_jj outside path args w ≡ (r, w')
        → IsStale r
        → run_jj outside path update_stale w' ≡ (err e, w'')
        → Runs w (err e, w'')
    retried :
        {r again : Result Text} {text : Text} {w' w'' w''' : World}
        → run_jj outside path args w ≡ (r, w')
        → IsStale r
        → run_jj outside path update_stale w' ≡ (ok text, w'')
        → run_jj outside path args w'' ≡ (again, w''')
        → Runs w (again, w''')

  retry-Runs :
      (w w' : World) (r : Result Text)
      → run_jj outside path args w ≡ (r, w')
      → Runs w (retry outside path args (r, w'))
  unfolding after
  retry-Runs w w' (ok text) e = direct e (λ h. h)
  retry-Runs w w' (err (io message)) e = direct e (λ h. h)
  retry-Runs w w' (err (command message)) e = elim (Bool-cases (is_stale_workspace_error message)) [
    | inl stale ↦ rw stale (
        updated (run_jj outside path update_stale w').0 (run_jj outside path update_stale w').1
          stale refl)
    | inr fresh ↦ rw fresh (direct e (λ h. cc))
  ]
    where
      updated :
          (u : Result Text) (w'' : World)
          → is_stale_workspace_error message ≡ true
          → run_jj outside path update_stale w' ≡ (u, w'')
          → Runs w (after (λ _. run_jj outside path args) (u, w''))
      updated (ok text) w'' stale f = retried e stale f refl
      updated (err failure) w'' stale f = update_failed e stale f

  -- In every world, `with_stale_retry` runs the command once and returns its answer, if that is not
  -- the error of a stale working copy; otherwise it runs `jj workspace update-stale` next, and returns
  -- the error of that, or the answer of running the command a second time and never a third.
  pub with_stale_retry-Runs : (w : World) → Runs w (with_stale_retry outside path args w)
  unfolding with_stale_retry
  with_stale_retry-Runs w =
      retry-Runs w (run_jj outside path args w).1 (run_jj outside path args w).0 refl
