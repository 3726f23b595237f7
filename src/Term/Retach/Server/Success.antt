-- ===== src/Term/Retach/Server/Success.antt =====
-- crates/octty-term/src/retach.rs: when a chain of calls succeeds.
use package.octty.Base.{◌≡◌, refl}
use octty.Term.Retach.{Result, ok, err}
use octty.Term.Retach.Server.{M, after}

-- A chain of calls succeeds only if both parts do.
pub after-eq-ok :
    {W A B : Type 0} (f : A → M W B) (p : Result A × W) {b : B} {w : W}
    → after f p ≡ (ok b, w)
    → (a : A) × (v : W) × (p ≡ (ok a, v)) × (f a v ≡ (ok b, w))
unfolding after
after-eq-ok f (ok a, v) h = (a, v, refl, h)
after-eq-ok f (err e, v) h = absurd (cc h)
