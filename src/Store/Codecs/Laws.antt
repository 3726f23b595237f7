-- ===== src/Store/Codecs/Laws.antt =====
-- What a row holds of a value is read back (crates/octty-store/src/codecs.rs).
use octty.Base.{ℤ, Text, ◌≡◌, refl, Option, none, some, arith}
use octty.Core.Types.{
  AgentAttentionState, BaselineRelationTarget, SessionState, TerminalKind,
  WorkspaceBookmarkRelation, WorkspaceState,
}
use octty.Store.Codecs.{
  Value, decoded, optional_integer, optional_text, optional_i64_to_value, optional_str_to_value,
  workspace_state_to_str, parse_workspace_state, bookmark_relation_to_str, parse_bookmark_relation,
  primary_relation_to_str, parse_primary_relation, optional_agent_attention_to_value,
  parse_optional_agent_attention, terminal_kind_to_str, parse_terminal_kind, session_state_to_str,
  parse_session_state,
}

-- Every enumeration of a workspace or session row comes back as it was stored. `R` is what else a
-- database value may be.
pub record RoundTrips (R : Type 0) (a : Option AgentAttentionState) (w : WorkspaceState)
    (b : WorkspaceBookmarkRelation) (p : BaselineRelationTarget) (k : TerminalKind)
    (s : SessionState) : Type 0 where
  workspace_state : parse_workspace_state (workspace_state_to_str w) ≡ w
  bookmark_relation : parse_bookmark_relation (bookmark_relation_to_str b) ≡ b
  primary_relation : parse_primary_relation (primary_relation_to_str p) ≡ p
  terminal_kind : parse_terminal_kind (terminal_kind_to_str k) ≡ k
  session_state : parse_session_state (session_state_to_str s) ≡ s
  attention :
      parse_optional_agent_attention {R = R} (optional_agent_attention_to_value a) ≡ decoded a

workspace_state_round : (w : WorkspaceState) → parse_workspace_state (workspace_state_to_str w) ≡ w
unfolding parse_workspace_state workspace_state_to_str
workspace_state_round WorkspaceState.published = refl
workspace_state_round _ = refl

bookmark_relation_round :
    (b : WorkspaceBookmarkRelation) → parse_bookmark_relation (bookmark_relation_to_str b) ≡ b
unfolding parse_bookmark_relation bookmark_relation_to_str
bookmark_relation_round WorkspaceBookmarkRelation.none = refl
bookmark_relation_round _ = refl

primary_relation_round :
    (p : BaselineRelationTarget) → parse_primary_relation (primary_relation_to_str p) ≡ p
unfolding parse_primary_relation primary_relation_to_str
primary_relation_round BaselineRelationTarget.none = refl
primary_relation_round _ = refl

terminal_kind_round : (k : TerminalKind) → parse_terminal_kind (terminal_kind_to_str k) ≡ k
unfolding parse_terminal_kind terminal_kind_to_str
terminal_kind_round TerminalKind.shell = refl
terminal_kind_round _ = refl

session_state_round : (s : SessionState) → parse_session_state (session_state_to_str s) ≡ s
unfolding parse_session_state session_state_to_str
session_state_round SessionState.live = refl
session_state_round _ = refl

module _ {R : Type 0} where
  attention_round :
      (a : Option AgentAttentionState)
      → parse_optional_agent_attention {R = R} (optional_agent_attention_to_value a) ≡ decoded a
  unfolding parse_optional_agent_attention optional_agent_attention_to_value
  attention_round none = refl
  attention_round (some AgentAttentionState.idle_seen) = refl
  attention_round (some _) = refl

-- Every enumeration of a workspace row and of a session row is read back from its stored text, and the
-- optional state of attention of an agent from its stored value.
pub enumerations_round :
    (R : Type 0) (a : Option AgentAttentionState) (w : WorkspaceState)
    (b : WorkspaceBookmarkRelation) (p : BaselineRelationTarget) (k : TerminalKind)
    (s : SessionState)
    → RoundTrips R a w b p k s
enumerations_round R a w b p k s = record {
  attention = attention_round a;
  workspace_state = workspace_state_round w;
  bookmark_relation = bookmark_relation_round b;
  primary_relation = primary_relation_round p;
  terminal_kind = terminal_kind_round k;
  session_state = session_state_round s;
}

-- Optional numbers, texts and attention states come back through a database value, whatever the
-- column; and a value that is neither null nor an integer is never read as an optional number.
pub optional_values_round :
    (R : Type 0) (n : Option ℤ) (t : Option Text) (a : Option AgentAttentionState) (column : Text)
    (v : Value R)
    → (optional_integer {R = R} (optional_i64_to_value n) column ≡ decoded n)
      × (optional_text {R = R} (optional_str_to_value t) column ≡ decoded t)
      × (parse_optional_agent_attention {R = R} (optional_agent_attention_to_value a) ≡ decoded a)
      × (optional_integer v column ≡ decoded n → v ≡ optional_i64_to_value n)
unfolding optional_integer optional_i64_to_value optional_text optional_str_to_value
optional_values_round R n t a column v = (number n, words t, attention_round a, only v n)
  where
    number : (n : Option ℤ) → optional_integer {R = R} (optional_i64_to_value n) column ≡ decoded n
    number none = refl
    number (some _) = refl

    words : (t : Option Text) → optional_text {R = R} (optional_str_to_value t) column ≡ decoded t
    words none = refl
    words (some _) = refl

    only :
        (v : Value R) (n : Option ℤ)
        → optional_integer v column ≡ decoded n
        → v ≡ optional_i64_to_value n
    only v none = ground arith
    only v (some z) = ground arith
