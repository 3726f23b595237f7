-- ===== src/Jj/Classify.antt =====
-- crates/octty-jj/src/lib.rs: what the relations of a workspace to its baselines say.
use package.octty.Base.{
  pos, eq_ℤ, Text, codes, text_eq, Bool, ◌&&◌, Option, some, List, is_empty, is_some,
}
use package.octty.Base.{if◌then◌else◌}
use octty.Core.Types.{
  BaselineRelation, BaselineRelationTarget, WorkspaceBookmarkRelation, WorkspaceState,
}

unfoldable pub classify_bookmark_relation : List Text → List Text → WorkspaceBookmarkRelation
classify_bookmark_relation exact_bookmarks display_bookmarks =
    if is_empty exact_bookmarks
    then (if is_empty display_bookmarks
        then WorkspaceBookmarkRelation.none
        else WorkspaceBookmarkRelation.above)
    else WorkspaceBookmarkRelation.exact

abbrev pub in_sync : BaselineRelation → Bool
in_sync relation = eq_ℤ relation.ahead_count (pos 0) && eq_ℤ relation.behind_count (pos 0)

-- The `match` of `classify_workspace_state`.
abbrev state_of_relation : BaselineRelationTarget → Option BaselineRelation → WorkspaceState
state_of_relation BaselineRelationTarget.remote (some relation) =
    if in_sync relation then WorkspaceState.published else WorkspaceState.draft
state_of_relation BaselineRelationTarget.local (some relation) =
    if in_sync relation then WorkspaceState.merged_local else WorkspaceState.draft
state_of_relation _ _ = WorkspaceState.unknown

unfoldable pub classify_workspace_state :
    Bool → BaselineRelationTarget → Option BaselineRelation → WorkspaceState
classify_workspace_state has_conflicts primary_relation relation =
    if has_conflicts then WorkspaceState.conflicted else state_of_relation primary_relation relation

unfoldable pub primary_relation :
    Text → Option BaselineRelation → Option BaselineRelation → BaselineRelationTarget
unfolding text_eq
primary_relation workspace_name local_relation remote_relation =
    if text_eq workspace_name (codes "default") && is_some remote_relation
    then BaselineRelationTarget.remote
    else if is_some local_relation
    then BaselineRelationTarget.local
    else if is_some remote_relation
    then BaselineRelationTarget.remote
    else BaselineRelationTarget.none
