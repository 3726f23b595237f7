-- ===== src/Core/Types.antt =====
-- crates/octty-core/src/types.rs: the domain types. An `i64` is a ℤ, a `u16` or `u32` a number; `F` is
-- the type of the `f64` values.
use octty.Base.{ℕ, ℤ, pos, Text, codes, Bool, false, Option, List, []}
use octty.Base.BTreeMap.{BTreeMap}
use octty.Base.Bytes.{utf8, fnv, hex16}
use octty.Base.{ltb_ℤ, starts_with, not, ◌++◌}

pub data PaneType : Type 0 where
  shell agent_shell note browser diff : PaneType

pub data TerminalKind : Type 0 where
  shell codex pi nvim jjui : TerminalKind

pub data TerminalExitBehavior : Type 0 where
  restart_auto restart_manually close : TerminalExitBehavior

pub data InnerSessionHandler : Type 0 where
  none codex : InnerSessionHandler

abbrev pub default_terminal_width_chars : ℕ
default_terminal_width_chars = 90

abbrev pub default_shell_type_name : Text
default_shell_type_name = codes "plain"

pub data PanePlacement : Type 0 where
  new_column stack : PanePlacement

pub data SidebarTarget : Type 0 where
  left right : SidebarTarget

abbrev pub ColumnPin : Type 0
ColumnPin = Option SidebarTarget

pub data SessionState : Type 0 where
  live stopped missing : SessionState

pub data AgentAttentionState : Type 0 where
  idle_seen thinking idle_unseen : AgentAttentionState

pub data ActivityState : Type 0 where
  active idle_unseen idle_seen : ActivityState

pub data WorkspaceBookmarkRelation : Type 0 where
  none exact above : WorkspaceBookmarkRelation

pub data WorkspaceState : Type 0 where
  published merged_local draft conflicted unknown : WorkspaceState

pub data BaselineRelationTarget : Type 0 where
  local remote none : BaselineRelationTarget

pub data BaselineRelationState : Type 0 where
  same ahead behind diverged : BaselineRelationState

pub record BaselineRelation : Type 0 where
  pub target_name : Text
  pub detail_name : Option Text
  pub ahead_count : ℤ
  pub behind_count : ℤ

-- `BaselineRelation::state`
abbrev relation_state : Bool → Bool → BaselineRelationState
relation_state false false = same
relation_state Bool.true false = ahead
relation_state false Bool.true = behind
relation_state Bool.true Bool.true = diverged

unfoldable pub state : BaselineRelation → BaselineRelationState
state r = relation_state (ltb_ℤ (pos 0) r.ahead_count) (ltb_ℤ (pos 0) r.behind_count)

pub record EmbeddedSessionRef : Type 0 where
  pub provider : Text
  pub id : Text
  pub label : Option Text
  pub detected_at : ℤ

pub record ProjectRootRecord : Type 0 where
  pub id : Text
  pub root_path : Text
  pub display_name : Text
  pub created_at : ℤ
  pub updated_at : ℤ

pub record WorkspaceStatus : Type 0 where
  pub workspace_state : WorkspaceState
  pub has_working_copy_changes : Bool
  pub has_conflicts : Bool
  pub local_relation : Option BaselineRelation
  pub remote_relation : Option BaselineRelation
  pub primary_relation : BaselineRelationTarget
  pub bookmarks : List Text
  pub bookmark_relation : WorkspaceBookmarkRelation
  pub unread_notes : ℤ
  pub active_agent_count : ℤ
  pub agent_attention_state : Option AgentAttentionState
  pub recent_activity_at : ℤ
  pub diff_text : Text

abbrev pub default_workspace_status : WorkspaceStatus
default_workspace_status = record {
  workspace_state = unknown;
  has_working_copy_changes = false;
  has_conflicts = false;
  local_relation = Option.none;
  remote_relation = Option.none;
  primary_relation = BaselineRelationTarget.none;
  bookmarks = [];
  bookmark_relation = WorkspaceBookmarkRelation.none;
  unread_notes = pos 0;
  active_agent_count = pos 0;
  agent_attention_state = Option.none;
  recent_activity_at = pos 0;
  diff_text = [];
}

pub record WorkspaceSummary : Type 0 where
  pub id : Text
  pub root_id : Text
  pub root_path : Text
  pub project_display_name : Text
  pub workspace_name : Text
  pub display_name : Text
  pub workspace_path : Text
  pub status : WorkspaceStatus
  pub created_at : ℤ
  pub updated_at : ℤ
  pub last_opened_at : ℤ

pub record TerminalPanePayload : Type 0 where
  pub kind : TerminalKind
  pub shell_type : Text
  pub inner_session_handler : InnerSessionHandler
  pub inner_session_id : Option Text
  pub session_id : Option Text
  pub session_state : SessionState
  pub cwd : Text
  pub command : Text
  pub command_parameters : List Text
  pub on_exit : TerminalExitBehavior
  pub default_width_chars : ℕ
  pub exit_code : Option ℤ
  pub auto_start : Bool
  pub restored_buffer : Text
  pub embedded_session : Option EmbeddedSessionRef
  pub embedded_session_correlation_id : Option Text
  pub agent_attention_state : Option AgentAttentionState

pub record NotePanePayload : Type 0 where
  pub note_path : Option Text

pub record BrowserPanePayload (F : Type 0) : Type 0 where
  pub url : Text
  pub title : Text
  pub zoom_factor : F
  pub pending_popup_id : Option Text

pub record DiffPanePayload : Type 0 where
  pub pinned : Bool

pub data PanePayload (F : Type 0) : Type 0 where
  terminal : TerminalPanePayload → PanePayload F
  note : NotePanePayload → PanePayload F
  browser : BrowserPanePayload F → PanePayload F
  diff : DiffPanePayload → PanePayload F

pub record PaneState (F : Type 0) : Type 0 where
  pub id : Text
  pub pane_type : PaneType
  pub title : Text
  pub payload : PanePayload F

pub record WorkspaceColumn (F : Type 0) : Type 0 where
  pub id : Text
  pub pane_ids : List Text
  pub width_px : F
  pub height_fractions : List F
  pub pinned : ColumnPin

pub record WorkspaceSnapshot (F : Type 0) : Type 0 where
  pub layout_version : ℕ
  pub workspace_id : Text
  pub active_pane_id : Option Text
  pub panes : BTreeMap (PaneState F)
  pub columns : BTreeMap (WorkspaceColumn F)
  pub center_column_ids : List Text
  pub pinned_left_column_id : Option Text
  pub pinned_right_column_id : Option Text
  pub updated_at : ℤ

abbrev missing_workspace_path_prefix : Text
missing_workspace_path_prefix = codes "jj-missing://"

unfoldable pub encode_missing_workspace_path : Text → Text
encode_missing_workspace_path workspace_name = missing_workspace_path_prefix ++ workspace_name

unfoldable pub has_recorded_workspace_path : Text → Bool
unfolding starts_with
has_recorded_workspace_path workspace_path =
    not (starts_with workspace_path missing_workspace_path_prefix)

unfoldable pub codex_inner_session_prompt : Text → Text
codex_inner_session_prompt pane_id =
    codes "FYI: You are running inside Octty pane \"" ++ (pane_id ++ codes "\". Reply \"ok\"")

-- FNV-1a of the bytes, as sixteen digits.
unfoldable pub screen_fingerprint : Text → Text
unfolding utf8 fnv hex16
screen_fingerprint screen = hex16 (fnv (utf8 screen))

pub record NoteRecord : Type 0 where
  pub workspace_id : Text
  pub path : Text
  pub file_name : Text
  pub title : Text
  pub body : Text
  pub unread : Bool
  pub updated_at : ℤ
  pub last_read_at : ℤ

pub record WorkspaceDetail (F : Type 0) : Type 0 where
  pub workspace : WorkspaceSummary
  pub snapshot : WorkspaceSnapshot F
  pub notes : List NoteRecord

pub record SessionSnapshot : Type 0 where
  pub id : Text
  pub inner_session_id : Option Text
  pub workspace_id : Text
  pub pane_id : Text
  pub kind : TerminalKind
  pub cwd : Text
  pub command : Text
  pub buffer : Text
  pub screen : Option Text
  pub state : SessionState
  pub exit_code : Option ℤ
  pub embedded_session : Option EmbeddedSessionRef
  pub embedded_session_correlation_id : Option Text
  pub agent_attention_state : Option AgentAttentionState

pub record BrowserRefRecord : Type 0 where
  pub workspace_id : Text
  pub pane_id : Text
  pub url : Text
  pub title : Text
  pub updated_at : ℤ
