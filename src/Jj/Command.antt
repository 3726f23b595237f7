-- ===== src/Jj/Command.antt =====
-- crates/octty-jj/src/lib.rs: the runs of `jj` and the status of a workspace that they give.
pub mod Retry
use package.octty.Base.{
  ℕ, ℤ, pos, eq_ℤ, ltb_ℤ, Text, codes, text_eq, trim, Bool, true, false, not, is_empty,
}
use package.octty.Base.{
  ◌&&◌, ◌⊎◌, inl, inr, Option, none, some, unwrap_or, or_else, List, [], ◌∷◌, ◌++◌, find, first,
  ends_with,
}
use package.octty.Base.{if◌then◌else◌}
use package.octty.Base.Bytes.{from_utf8_lossy, fnv, hex16, utf8}
use octty.Core.Types.{
  BaselineRelation, BaselineRelationTarget, ProjectRootRecord, WorkspaceStatus, WorkspaceSummary,
  default_workspace_status, encode_missing_workspace_path,
}
use octty.Jj.World.{
  JjError, command, io, Result, ok, err, Output, FilePath, Outside, str_path, M, after, ◌>>=◌, ◌>>◌,
  return, attempt, path_str,
}
use octty.Jj.Parse.{
  DiscoveredWorkspace, parse_workspace_list_output, is_stale_workspace_error, parse_count,
  parse_bookmarks, revset_string_literal, remote_matches,
}
use octty.Jj.Classify.{classify_bookmark_relation, classify_workspace_state, primary_relation}

abbrev pub effective_workspace_revset : Text
effective_workspace_revset = codes "coalesce(@ ~ empty(), @-)"

abbrev pub display_bookmark_revset : Text
display_bookmark_revset = codes "heads(first_ancestors(coalesce(@ ~ empty(), @-)) & bookmarks())"

abbrev pub conflicted_workspace_revset : Text
conflicted_workspace_revset = codes "coalesce(@ ~ empty(), @-) & conflicts()"

abbrev pub default_workspace_revset : Text
default_workspace_revset = codes "present(default@)"

abbrev pub local_ahead_revset : Text
local_ahead_revset = codes "default@..@ ~ empty()"

abbrev pub local_behind_revset : Text
local_behind_revset = codes "@..default@ ~ empty()"

abbrev bookmark_names_template : Text
bookmark_names_template = codes "bookmarks.map(|b| b.name()).join(\",\") ++ \"\\n\""

abbrev remote_bookmarks_template : Text
remote_bookmarks_template =
    codes "remote_bookmarks.map(|b| b.name() ++ \"\\t\" ++ b.remote()).join(\"\\n\") ++ \"\\n\""

abbrev log_args : Text → Text → List Text
log_args revset template =
    codes "log"
    ∷ codes "-r"
    ∷ revset
    ∷ codes "-n"
    ∷ codes "1"
    ∷ codes "--no-graph"
    ∷ codes "-T"
    ∷ template
    ∷ []

-- The choice of `remote_bookmark_detail`: the first match that is no `@git` remote, or the first.
unfoldable pub choose_detail : List Text → Option Text
unfolding ends_with
choose_detail matches =
    or_else (find (λ name. not (ends_with name (codes "@git"))) matches) (first matches)

abbrev pub baseline :
    BaselineRelationTarget
    → Option BaselineRelation
    → Option BaselineRelation
    → Option BaselineRelation
baseline BaselineRelationTarget.local local remote = local
baseline BaselineRelationTarget.remote local remote = remote
baseline BaselineRelationTarget.none local remote = none

-- The status that `read_workspace_status` puts together from what it has read.
unfoldable pub workspace_status :
    Text
    → List Text
    → List Text
    → Text
    → ℤ
    → Option BaselineRelation
    → Option BaselineRelation
    → ℤ
    → WorkspaceStatus
unfolding classify_bookmark_relation classify_workspace_state primary_relation
workspace_status workspace_name exact_bookmarks display_bookmarks diff conflicted_count local remote
      now =
    let primary = primary_relation workspace_name local remote in
    let has_conflicts = ltb_ℤ (pos 0) conflicted_count in
    record default_workspace_status {
      workspace_state =
          classify_workspace_state has_conflicts primary (baseline primary local remote);
      has_working_copy_changes = not (is_empty (trim diff));
      has_conflicts = has_conflicts;
      local_relation = local;
      remote_relation = remote;
      primary_relation = primary;
      bookmarks = if is_empty exact_bookmarks then display_bookmarks else exact_bookmarks;
      bookmark_relation = classify_bookmark_relation exact_bookmarks display_bookmarks;
      recent_activity_at = now;
      diff_text = diff;
    }

module _ (outside : Outside) where
  open outside use {World, spawn, canonicalize, now_ms}

  abbrev finished : (Text × World) ⊎ (Output × World) → Result Text × World
  finished (inl (e, w)) = (err (io e), w)
  finished (inr (out, w)) =
      if out.success
      then (ok (from_utf8_lossy out.stdout), w)
      else (err (command (from_utf8_lossy out.stderr)), w)

  unfoldable pub run_jj : FilePath → List Text → M World Text
  run_jj cwd args w = finished (spawn cwd args w)

  -- The match of `with_stale_retry` on the first run's result.
  abbrev retry : FilePath → List Text → Result Text × World → Result Text × World
  retry workspace_path args (err (command message), w) =
      if is_stale_workspace_error message
      then (run_jj workspace_path (codes "workspace" ∷ codes "update-stale" ∷ [])
            >> run_jj workspace_path args)
          w
      else (err (command message), w)
  retry workspace_path args (result, w) = (result, w)

  unfoldable pub with_stale_retry : FilePath → List Text → M World Text
  unfolding run_jj
  with_stale_retry workspace_path args w = retry workspace_path args (run_jj workspace_path args w)

  unfoldable pub count_revset : FilePath → Text → M World ℤ
  unfolding with_stale_retry parse_count
  count_revset workspace_path revset = do
    output ←
        with_stale_retry workspace_path (codes "log" ∷ codes "-r" ∷ revset ∷ codes "--count" ∷ [])
    return (parse_count output)

  unfoldable pub baseline_relation :
      FilePath → Text → Option Text → Text → Text → M World (Option BaselineRelation)
  unfolding count_revset
  baseline_relation workspace_path target_name detail_name ahead_revset behind_revset = do
    ahead ← count_revset workspace_path ahead_revset
    behind ← count_revset workspace_path behind_revset
    return (
        some (record {
          target_name = target_name;
          detail_name = detail_name;
          ahead_count = ahead;
          behind_count = behind;
        }))

  unfoldable pub local_relation : FilePath → M World (Option BaselineRelation)
  unfolding baseline_relation
  local_relation workspace_path = do
    count ← count_revset workspace_path default_workspace_revset
    if eq_ℤ count (pos 0)
        then return none
        else baseline_relation workspace_path (codes "Default") (some (codes "default@"))
            local_ahead_revset local_behind_revset

  unfoldable pub remote_bookmark_detail : FilePath → Text → Text → M World (Option Text)
  unfolding with_stale_retry remote_matches choose_detail
  remote_bookmark_detail workspace_path remote_revset bookmark = do
    output ← with_stale_retry workspace_path (log_args remote_revset remote_bookmarks_template)
    return (choose_detail (remote_matches bookmark output))

  -- The relation to the remote of a bookmark.
  unfoldable pub tracked_relation : FilePath → Text → Text → M World (Option BaselineRelation)
  unfolding remote_bookmark_detail baseline_relation
  tracked_relation workspace_path remote_revset bookmark = do
    detail ← remote_bookmark_detail workspace_path remote_revset bookmark
    baseline_relation workspace_path (codes "Remote") (some (unwrap_or detail remote_revset))
        (remote_revset ++ codes "..@ ~ empty()")
        (codes "@.." ++ remote_revset ++ codes " ~ empty()")

  -- The loop of `remote_relation` over the bookmarks, then the trunk.
  unfoldable pub remote_relation : FilePath → List Text → M World (Option BaselineRelation)
  unfolding tracked_relation revset_string_literal
  remote_relation workspace_path [] = do
    count ← count_revset workspace_path (codes "present(trunk()) ~ root()")
    if eq_ℤ count (pos 1)
        then baseline_relation workspace_path (codes "Remote") (some (codes "trunk()"))
            (codes "trunk()..@ ~ empty()") (codes "@..trunk() ~ empty()")
        else return none
  remote_relation workspace_path (bookmark ∷ bookmarks) =
      let remote_revset =
        codes "tracked_remote_bookmarks(exact:" ++ revset_string_literal bookmark ++ codes ")" in
      let rest = remote_relation workspace_path bookmarks in
      do
        count ← count_revset workspace_path remote_revset
        if eq_ℤ count (pos 1) then tracked_relation workspace_path remote_revset bookmark else rest

  unfoldable pub read_workspace_status : FilePath → Text → M World WorkspaceStatus
  unfolding with_stale_retry count_revset local_relation remote_relation parse_bookmarks
      workspace_status
  read_workspace_status workspace_path workspace_name = do
    exact_output ←
        with_stale_retry workspace_path
          (log_args effective_workspace_revset bookmark_names_template)
    display_output ←
        with_stale_retry workspace_path (log_args display_bookmark_revset bookmark_names_template)
    diff ←
        with_stale_retry workspace_path
          (codes "diff" ∷ codes "-r" ∷ codes "@" ∷ codes "--git" ∷ codes "--color=never" ∷ [])
    conflicted_count ← count_revset workspace_path conflicted_workspace_revset
    let exact = parse_bookmarks exact_output
    let display = parse_bookmarks display_output
    local ← local_relation workspace_path
    remote ← remote_relation workspace_path (if is_empty exact then display else exact)
    λ w. (
      ok (
          workspace_status workspace_name exact display diff conflicted_count local remote
            (now_ms w).0),
      (now_ms w).1,
    )
