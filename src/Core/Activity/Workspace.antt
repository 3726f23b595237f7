-- ===== src/Core/Activity/Workspace.antt =====
-- `derive_workspace_activity` (crates/octty-core/src/types.rs) against its reading: active before
-- unseen before seen, in any order of the panes.
use octty.Base.{◌≡◌, refl, Bool, true, false, List, [], ◌∷◌, ◌++◌, arith}
use octty.Base.{any, if◌then◌else◌, ◌||◌}
use octty.Core.Types.{ActivityState, active, idle_unseen, idle_seen}
use octty.Core.Activity.{derive_loop, derive_workspace_activity}

abbrev pub is_active : ActivityState → Bool
is_active active = true
is_active _ = false

abbrev pub is_unseen : ActivityState → Bool
is_unseen idle_unseen = true
is_unseen _ = false

derive_loop_lem :
    (has_unseen : Bool) (states : List ActivityState)
    → derive_loop has_unseen states ≡ (
        if any is_active states
        then active
        else if has_unseen || any is_unseen states
        then idle_unseen
        else idle_seen)
unfolding derive_loop
derive_loop_lem has_unseen [] = ground arith
derive_loop_lem has_unseen (active ∷ states) = refl
derive_loop_lem has_unseen (idle_unseen ∷ states) = ground (arith, derive_loop_lem true states)
derive_loop_lem has_unseen (idle_seen ∷ states) = derive_loop_lem has_unseen states

-- The workspace is active if one of its panes is, otherwise unseen if one of them is, otherwise
-- seen; an early return at the first active pane changes nothing.
pub derive_workspace_activity_lem :
    (states : List ActivityState)
    → derive_workspace_activity states ≡ (
        if any is_active states
        then active
        else if any is_unseen states
        then idle_unseen
        else idle_seen)
unfolding derive_workspace_activity
derive_workspace_activity_lem states = derive_loop_lem false states

any-append {ℓ} :
    {A : Type ℓ} (p : A → Bool) (xs ys : List A) → any p (xs ++ ys) ≡ (any p xs || any p ys)
any-append p [] ys = refl
any-append p (x ∷ xs) ys = ground (arith, any-append p xs ys)

-- The order in which the panes are visited does not count.
pub derive_workspace_activity_comm :
    (xs ys : List ActivityState)
    → derive_workspace_activity (xs ++ ys) ≡ derive_workspace_activity (ys ++ xs)
derive_workspace_activity_comm xs ys = ground (
  arith,
  derive_workspace_activity_lem (xs ++ ys),
  derive_workspace_activity_lem (ys ++ xs),
  any-append is_active xs ys,
  any-append is_active ys xs,
  any-append is_unseen xs ys,
  any-append is_unseen ys xs,
)
