-- ===== src/Store/Codecs.antt =====
-- crates/octty-store/src/codecs.rs: database values and the enumerations of octty-core. A `Value` of the
-- turso library is null, an integer, a real, a text or a blob.
pub mod Laws
mod Tests
use package.octty.Base.{
  ℕ, ℤ, pos, Text, codes, text_eq, Bool, true, false, Option, none, some, List, if◌then◌else◌,
}
use octty.Core.Types.{
  AgentAttentionState, BaselineRelationTarget, SessionState, TerminalKind,
  WorkspaceBookmarkRelation, WorkspaceState,
}

-- `R` is the type of the reals.
pub data Value (R : Type 0) : Type 0 where
  null : Value R
  integer : ℤ → Value R
  real : R → Value R
  text : Text → Value R
  blob : List ℕ → Value R

-- `StoreError::UnexpectedValue` with its column and value.
pub data Decoded (R A : Type 0) : Type 0 where
  decoded : A → Decoded R A
  unexpected_value : Text → Value R → Decoded R A

module _ {R : Type 0} where
  unfoldable pub decode_text : Value R → Text → Decoded R Text
  decode_text (text value) column = decoded value
  decode_text value column = unexpected_value column value

  unfoldable pub decode_integer : Value R → Text → Decoded R ℤ
  decode_integer (integer value) column = decoded value
  decode_integer value column = unexpected_value column value

  unfoldable pub optional_integer : Value R → Text → Decoded R (Option ℤ)
  optional_integer null column = decoded none
  optional_integer (integer value) column = decoded (some value)
  optional_integer value column = unexpected_value column value

  unfoldable pub optional_text : Value R → Text → Decoded R (Option Text)
  optional_text null column = decoded none
  optional_text (text value) column = decoded (some value)
  optional_text value column = unexpected_value column value

  unfoldable pub optional_i64_to_value : Option ℤ → Value R
  optional_i64_to_value none = null
  optional_i64_to_value (some value) = integer value

  unfoldable pub optional_str_to_value : Option Text → Value R
  optional_str_to_value none = null
  optional_str_to_value (some value) = text value

unfoldable pub bool_to_int : Bool → ℤ
bool_to_int true = pos 1
bool_to_int false = pos 0

unfoldable pub workspace_state_to_str : WorkspaceState → Text
workspace_state_to_str WorkspaceState.published = codes "published"
workspace_state_to_str WorkspaceState.merged_local = codes "merged-local"
workspace_state_to_str WorkspaceState.draft = codes "draft"
workspace_state_to_str WorkspaceState.conflicted = codes "conflicted"
workspace_state_to_str WorkspaceState.unknown = codes "unknown"

unfoldable pub parse_workspace_state : Text → WorkspaceState
unfolding text_eq
parse_workspace_state value =
    if text_eq value (codes "published")
    then WorkspaceState.published
    else if text_eq value (codes "merged-local")
    then WorkspaceState.merged_local
    else if text_eq value (codes "draft")
    then WorkspaceState.draft
    else if text_eq value (codes "conflicted")
    then WorkspaceState.conflicted
    else WorkspaceState.unknown

unfoldable pub bookmark_relation_to_str : WorkspaceBookmarkRelation → Text
bookmark_relation_to_str WorkspaceBookmarkRelation.none = codes "none"
bookmark_relation_to_str WorkspaceBookmarkRelation.exact = codes "exact"
bookmark_relation_to_str WorkspaceBookmarkRelation.above = codes "above"

unfoldable pub parse_bookmark_relation : Text → WorkspaceBookmarkRelation
unfolding text_eq
parse_bookmark_relation value =
    if text_eq value (codes "exact")
    then WorkspaceBookmarkRelation.exact
    else if text_eq value (codes "above")
    then WorkspaceBookmarkRelation.above
    else WorkspaceBookmarkRelation.none

unfoldable pub primary_relation_to_str : BaselineRelationTarget → Text
primary_relation_to_str BaselineRelationTarget.local = codes "local"
primary_relation_to_str BaselineRelationTarget.remote = codes "remote"
primary_relation_to_str BaselineRelationTarget.none = codes "none"

unfoldable pub parse_primary_relation : Text → BaselineRelationTarget
unfolding text_eq
parse_primary_relation value =
    if text_eq value (codes "local")
    then BaselineRelationTarget.local
    else if text_eq value (codes "remote")
    then BaselineRelationTarget.remote
    else BaselineRelationTarget.none

module _ {R : Type 0} where
  unfoldable pub optional_agent_attention_to_value : Option AgentAttentionState → Value R
  optional_agent_attention_to_value (some AgentAttentionState.idle_seen) = text (codes "idle-seen")
  optional_agent_attention_to_value (some AgentAttentionState.thinking) = text (codes "thinking")
  optional_agent_attention_to_value (some AgentAttentionState.idle_unseen) =
      text (codes "idle-unseen")
  optional_agent_attention_to_value none = null

  unfoldable pub parse_optional_agent_attention : Value R → Decoded R (Option AgentAttentionState)
  unfolding text_eq
  parse_optional_agent_attention null = decoded none
  parse_optional_agent_attention (text value) = decoded (
      if text_eq value (codes "idle-seen")
      then some AgentAttentionState.idle_seen
      else if text_eq value (codes "thinking")
      then some AgentAttentionState.thinking
      else if text_eq value (codes "idle-unseen")
      then some AgentAttentionState.idle_unseen
      else none)
  parse_optional_agent_attention value = unexpected_value (codes "agent_attention_state") value

unfoldable pub terminal_kind_to_str : TerminalKind → Text
terminal_kind_to_str TerminalKind.shell = codes "shell"
terminal_kind_to_str TerminalKind.codex = codes "codex"
terminal_kind_to_str TerminalKind.pi = codes "pi"
terminal_kind_to_str TerminalKind.nvim = codes "nvim"
terminal_kind_to_str TerminalKind.jjui = codes "jjui"

unfoldable pub parse_terminal_kind : Text → TerminalKind
unfolding text_eq
parse_terminal_kind value =
    if text_eq value (codes "codex")
    then TerminalKind.codex
    else if text_eq value (codes "pi")
    then TerminalKind.pi
    else if text_eq value (codes "nvim")
    then TerminalKind.nvim
    else if text_eq value (codes "jjui")
    then TerminalKind.jjui
    else TerminalKind.shell

unfoldable pub session_state_to_str : SessionState → Text
session_state_to_str SessionState.live = codes "live"
session_state_to_str SessionState.stopped = codes "stopped"
session_state_to_str SessionState.missing = codes "missing"

unfoldable pub parse_session_state : Text → SessionState
unfolding text_eq
parse_session_state value =
    if text_eq value (codes "live")
    then SessionState.live
    else if text_eq value (codes "missing")
    then SessionState.missing
    else SessionState.stopped
