-- ===== src/App/Toasts/Tests.antt =====
-- crates/octty-app/src/app_core.rs: the theorem on notices after five errors and one timer.
use octty.Base.{codes, [], ◌∷◌, ◌≡◌, refl}
use octty.App.Toasts.{App, show_error, dismiss_toast}
use octty.App.Toasts.Shown.{start, here, next, fails, ends, IsTimed, Reach-IsTimed}

abbrev five_errors : App
five_errors = show_error (codes "e") (
    show_error (codes "d")
      (show_error (codes "c") (show_error (codes "b") (show_error (codes "a") start))))

abbrev one_ended : App
one_ended = dismiss_toast 2 (record five_errors { timers = 1 ∷ (3 ∷ (4 ∷ (5 ∷ []))) })

Reach-IsTimed_example : IsTimed one_ended × (one_ended.timers ≡ [] → one_ended.toasts ≡ [])
unfolding show_error
Reach-IsTimed_example = Reach-IsTimed (
    next
      (next
        (next
          (next (next (next here (fails _ (codes "a"))) (fails _ (codes "b")))
            (fails _ (codes "c")))
          (fails _ (codes "d")))
        (fails _ (codes "e")))
      (ends five_errors (1 ∷ []) 2 (3 ∷ (4 ∷ (5 ∷ []))) refl))
