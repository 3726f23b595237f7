-- ===== src/Store/Codecs/Tests.antt =====
-- Values that crates/octty-store/src/codecs.rs writes and reads.
use octty.Base.{ℕ, some}
use octty.Core.Types.{
  AgentAttentionState, BaselineRelationTarget, SessionState, TerminalKind,
  WorkspaceBookmarkRelation, WorkspaceState,
}
use octty.Store.Codecs.Laws.{RoundTrips, enumerations_round}

enumerations_round_example :
    RoundTrips ℕ
      (some AgentAttentionState.thinking)
      WorkspaceState.draft
      WorkspaceBookmarkRelation.exact
      BaselineRelationTarget.remote
      TerminalKind.codex
      SessionState.live
enumerations_round_example =
    enumerations_round ℕ (some AgentAttentionState.thinking) WorkspaceState.draft
      WorkspaceBookmarkRelation.exact BaselineRelationTarget.remote TerminalKind.codex
      SessionState.live
