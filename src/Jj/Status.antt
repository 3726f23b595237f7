-- ===== src/Jj/Status.antt =====
-- `read_workspace_status` (crates/octty-jj/src/lib.rs): the fields of a status agree with each other.
use package.octty.Base.{ℤ, ◌≡◌, Text, true, false, Option, none, some, List, is_empty, arith}
use package.octty.Base.{◌↔◌, is_some}
use mathlib.Core.Path.{subst}
use octty.Core.Types.{
  BaselineRelation, BaselineRelationTarget, WorkspaceBookmarkRelation, WorkspaceState,
  WorkspaceStatus,
}
use octty.Jj.World.{Result, ok, err, FilePath, Outside, M, after}
use octty.Jj.Classify.{in_sync}
use octty.Jj.Command.{workspace_status, read_workspace_status, baseline}

-- The relation that the primary target names, in a status.
abbrev pub primary_baseline : WorkspaceStatus → Option BaselineRelation
primary_baseline s = baseline s.primary_relation s.local_relation s.remote_relation

abbrev pub InSync : Option BaselineRelation → Type 0
InSync none = ⊥
InSync (some r) = in_sync r ≡ true

pub record IsCoherent (s : WorkspaceStatus) : Type 0 where
  pub conflicted : (s.workspace_state ≡ WorkspaceState.conflicted) ↔ (s.has_conflicts ≡ true)
  pub published :
      s.workspace_state ≡ WorkspaceState.published
      → (s.primary_relation ≡ BaselineRelationTarget.remote) × InSync s.remote_relation
  pub merged :
      s.workspace_state ≡ WorkspaceState.merged_local
      → (s.primary_relation ≡ BaselineRelationTarget.local) × InSync s.local_relation
  pub draft : s.workspace_state ≡ WorkspaceState.draft → is_some (primary_baseline s) ≡ true
  pub unknown :
      s.workspace_state ≡ WorkspaceState.unknown
      → (s.local_relation ≡ none) × (s.remote_relation ≡ none) × (s.has_conflicts ≡ false)
  pub unmarked :
      (s.bookmark_relation ≡ WorkspaceBookmarkRelation.none) ↔ (is_empty s.bookmarks ≡ true)

workspace_status-IsCoherent :
    (name : Text) (exact display : List Text) (diff : Text) (count : ℤ)
    (local remote : Option BaselineRelation) (now : ℤ)
    → IsCoherent (workspace_status name exact display diff count local remote now)
unfolding workspace_status
workspace_status-IsCoherent name exact display diff count local remote now = record {
  conflicted = ground arith;
  published = ground arith;
  merged = ground arith;
  draft = ground arith;
  unknown = ground arith;
  unmarked = ground arith;
}

-- What holds of a result if it is one.
abbrev Ensures : {World A : Type 0} → (A → Type 0) → Result A × World → Type 0
Ensures P (ok a, w) = P a
Ensures P (err e, w) = Unit

after-Ensures :
    {World A B : Type 0} (P : B → Type 0) (f : A → M World B) (r : Result A × World)
    → ((a : A) (w : World) → Ensures P (f a w))
    → Ensures P (after f r)
unfolding after
after-Ensures P f (ok a, w) h = h a w
after-Ensures P f (err e, w) h = tt

module _ (outside : Outside) (path : FilePath) (name : Text) where
  open outside use {World}

  read_workspace_status-Ensures :
      (w : World) → Ensures IsCoherent (read_workspace_status outside path name w)
  unfolding read_workspace_status
  read_workspace_status-Ensures w = after-Ensures IsCoherent _ _ λ exact w1.
      after-Ensures IsCoherent _ _ λ display w2. after-Ensures IsCoherent _ _ λ diff w3.
        after-Ensures IsCoherent _ _ λ count w4. after-Ensures IsCoherent _ _ λ local w5.
          after-Ensures IsCoherent _ _
            λ remote w6. workspace_status-IsCoherent name _ _ diff count local remote _

  -- Whatever `jj` answers, a status that `read_workspace_status` returns is coherent: it is
  -- conflicted exactly if it has conflicts, published or merged only if its primary relation is
  -- the remote or local one and is in sync, a draft only if it has a primary relation, unknown only if it has
  -- no relation and no conflict, and its bookmark mark is absent exactly if it has no bookmarks.
  pub read_workspace_status-IsCoherent :
      (w w' : World) (s : WorkspaceStatus)
      → read_workspace_status outside path name w ≡ (ok s, w')
      → IsCoherent s
  read_workspace_status-IsCoherent w w' s e =
      subst (Ensures IsCoherent) e (read_workspace_status-Ensures w)
