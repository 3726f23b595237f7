-- ===== src/App/Keys/Routing.antt =====
-- crates/octty-app/src/input.rs (with crates/octty-core/src/shortcuts.rs and
-- crates/octty-term/src/live_input.rs): which part of the program a pressed key reaches.
use octty.Base.{
  ℕ, ◌+◌, ◌<◌, Bool, true, false, ◌&&◌, ◌||◌, Option, none, some, and_then, is_some, option_map,
}
use octty.Base.{Text, codes, text_eq, List, [], ◌∷◌, ◌++◌}
use octty.Base.{
  suc, zero, get_elem?-take, all-range, all, range, ◌==◌, ◌≡◌, ◌≢◌, refl, ap, ◌∙◌, arith,
  Bool-cases, inl, inr, map, take, get_elem?, enumerate,
}
use octty.Core.Types.{WorkspaceSummary}
use octty.Core.Shortcuts.{shortcut_digit, target, workspace_shortcut_targets}
use octty.App.Keys.{
  KeyParts, workspace_shortcut_index, workspace_shortcut_index_from_token,
  rewritten_clipboard_shortcut_action, clipboard_shortcut_action,
  clipboard_shortcut_action_from_token, is_clipboard_action_key,
}
use octty.App.Keys.Terminal.{is_reserved, live_terminal_input}

token_reserved :
    (token : Text)
    → is_clipboard_action_key token ≡ false
    → clipboard_shortcut_action_from_token token ≡ none
unfolding is_clipboard_action_key clipboard_shortcut_action_from_token
token_reserved token h = ground arith

char_reserved :
    (c : Option Text)
    → elim c [ none ↦ false | some t ↦ is_clipboard_action_key t ] ≡ false
    → and_then c clipboard_shortcut_action_from_token ≡ none
char_reserved none h = refl
char_reserved (some t) h = token_reserved t h

none_of {ℓ} : {A : Type ℓ} (o : Option A) → is_some o ≡ false → o ≡ none
none_of none h = refl
none_of (some a) h = ground arith

tokens_reserved :
    (p : KeyParts)
    → (p.platform
        && (is_clipboard_action_key p.key
            || elim p.key_char [ none ↦ false | some c ↦ is_clipboard_action_key c ]))
      ≡ false
    → rewritten_clipboard_shortcut_action p ≡ none
    → clipboard_shortcut_action p ≡ none
unfolding clipboard_shortcut_action
tokens_reserved p h r = elim (Bool-cases p.platform) [
  | inl e ↦
      rw (r, e, token_reserved p.key (ground arith), char_reserved p.key_char (ground arith))
        (ground arith)
  | inr e ↦ rw (r, e)
]

not_reserved :
    (p : KeyParts)
    → is_reserved p ≡ false
    → (workspace_shortcut_index p ≡ none) × (clipboard_shortcut_action p ≡ none)
unfolding is_reserved
not_reserved p h = (
  none_of (workspace_shortcut_index p) (ground arith),
  tokens_reserved p (ground arith) (none_of (rewritten_clipboard_shortcut_action p) (ground arith)),
)

live_not_reserved : (p : KeyParts) → is_reserved p ≡ true → live_terminal_input p ≡ none
unfolding live_terminal_input
live_not_reserved p h = ground arith

-- A key that the terminal takes is no shortcut of the application: neither the index of a workspace
-- nor a clipboard action.
pub live_terminal_input-excludes :
    (p : KeyParts)
    → live_terminal_input p ≢ none
    → (workspace_shortcut_index p ≡ none) × (clipboard_shortcut_action p ≡ none)
live_terminal_input-excludes p h = elim (Bool-cases (is_reserved p)) [
  | inl e ↦ absurd (h (live_not_reserved p e))
  | inr e ↦ not_reserved p e
]

abbrev is_index : ℕ → Option ℕ → Bool
is_index i none = false
is_index i (some j) = j == i

is_index_iff : (i : ℕ) (o : Option ℕ) → is_index i o ≡ true → o ≡ some i
is_index_iff i none h = ground arith
is_index_iff i (some j) h = ground arith

digit_index : (i : ℕ) → i < 10 → workspace_shortcut_index_from_token (shortcut_digit i) ≡ some i
digit_index i h = is_index_iff i _ (
    all-range (λ c. is_index c (workspace_shortcut_index_from_token (shortcut_digit c))) 0 10 tested
      i (omega arith) (omega (arith, h)))
  where
    tested :
        all (λ c. is_index c (workspace_shortcut_index_from_token (shortcut_digit c))) (range 0 10)
        ≡ true
    tested = unfold workspace_shortcut_index_from_token shortcut_digit text_eq in refl

target_at :
    (workspaces : List WorkspaceSummary) (from i : ℕ)
    → get_elem? (map target (enumerate from workspaces)) i
      ≡ option_map (λ w. target (from + i, w)) (get_elem? workspaces i)
target_at [] from i = refl
target_at (w ∷ ws) from zero = ground arith
target_at (w ∷ ws) from (suc i) = ground (arith, target_at ws (suc from) i)

-- The pressed key of a digit with Control and Shift alone.
abbrev pub control_shift : Text → KeyParts
control_shift digit = record {
  key = digit;
  key_char = none;
  control = true;
  alt = false;
  shift = true;
  platform = false;
  function = false;
}

shown_at :
    (workspaces : List WorkspaceSummary) (i : ℕ) (w : WorkspaceSummary)
    → i < 10
    → get_elem? workspaces i ≡ some w
    → get_elem? (workspace_shortcut_targets workspaces) i ≡ some (target (i, w))
unfolding workspace_shortcut_targets
shown_at workspaces i w h e =
    target_at (take 10 workspaces) 0 i
    ∙ rw (get_elem?-take 10 i workspaces h, e) (ap (λ j. some (target (j, w))) (omega arith))

pressed : (i : ℕ) → i < 10 → workspace_shortcut_index (control_shift (shortcut_digit i)) ≡ some i
unfolding workspace_shortcut_index
pressed i h = rw (digit_index i h)

reserved_digit : (i : ℕ) → i < 10 → live_terminal_input (control_shift (shortcut_digit i)) ≡ none
unfolding is_reserved
reserved_digit i h = live_not_reserved (control_shift (shortcut_digit i)) (rw (pressed i h))

-- A label shown for the workspace at an index below ten is "Ctrl+Shift+" and a key, and pressing
-- that key with Control and Shift selects the same index, and is not sent to the terminal.
pub shown_shortcut_works :
    (workspaces : List WorkspaceSummary) (i : ℕ) (w : WorkspaceSummary)
    → i < 10
    → get_elem? workspaces i ≡ some w
    → (get_elem? (workspace_shortcut_targets workspaces) i
        ≡ some (record { workspace_id = w.id; label = codes "Ctrl+Shift+" ++ shortcut_digit i }))
      × (workspace_shortcut_index (control_shift (shortcut_digit i)) ≡ some i)
      × (live_terminal_input (control_shift (shortcut_digit i)) ≡ none)
shown_shortcut_works workspaces i w h e =
    (shown_at workspaces i w h e, pressed i h, reserved_digit i h)
