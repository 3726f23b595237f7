-- ===== src/App/Keys/Terminal.antt =====
-- crates/octty-app/src/input.rs: the input that a pressed key is for a live terminal.
use octty.Base.{
  ℕ, ◌+◌, Bool, true, false, ◌&&◌, ◌||◌, not, leb, ltb, ◌==◌, Option, none, some, or_else, and_then,
  is_some, option_map,
}
use octty.Base.{Text, codes, text_eq, one_of, to_ascii_lowercase, is_control, any, is_empty}
use octty.Base.{List, [], ◌∷◌, if◌then◌else◌}
use octty.Term.Keyboard.{
  LiveTerminalModifiers, LiveTerminalKeyInput, LiveTerminalKey, character, enter, backspace, delete,
  tab, escape, arrow_left, arrow_right, arrow_up, arrow_down, home, end_key, page_up, page_down,
  insert_key, space, f,
}
use octty.App.Keys.{
  KeyParts, lookup, workspace_shortcut_index, rewritten_clipboard_shortcut_action,
  is_pane_action_key, is_column_resize_key, is_clipboard_action_key,
  is_control_clipboard_action_key,
}

abbrev replace_of : ℕ → List (ℕ × ℕ) → ℕ
replace_of c [] = c
replace_of c ((from, to) ∷ rows) = if c == from then to else replace_of c rows

unfoldable pub unshifted_character : ℕ → ℕ
unshifted_character c =
    if leb b'A' c && leb c b'Z'
    then c + 32
    else replace_of c (
        (b')', b'0')
        ∷ ((b'!', b'1')
            ∷ ((b'@', b'2')
                ∷ ((b'#', b'3')
                    ∷ ((b'$', b'4')
                        ∷ ((b'%', b'5')
                            ∷ ((b'^', b'6')
                                ∷ ((b'&', b'7')
                                    ∷ ((b'*', b'8')
                                        ∷ ((b'(', b'9')
                                            ∷ ((b'_', b'-')
                                                ∷ ((b'+', b'=')
                                                    ∷ ((b'{', b'[')
                                                        ∷ ((b'}', b']')
                                                            ∷ ((b'|', b'\\')
                                                            ∷ ((b':', b';')
                                                            ∷ ((b'"', b'\'')
                                                            ∷ ((b'<', b',')
                                                            ∷ ((b'>', b'.')
                                                            ∷ ((b'?', b'/')
                                                            ∷ ((b'~', b'`')
                                                            ∷ [])))))))))))))))))))))

abbrev pub modifiers_of : KeyParts → LiveTerminalModifiers
modifiers_of p = record { shift = p.shift; alt = p.alt; control = p.control; platform = p.platform }

abbrev first_unshifted : Text → ℕ
first_unshifted [] = 0
first_unshifted (c ∷ t) = unshifted_character c

unfoldable pub terminal_control_j_input : LiveTerminalKeyInput
terminal_control_j_input = record {
  key = character b'j';
  text = none;
  modifiers = record { shift = false; alt = false; control = true; platform = false };
  unshifted = b'j';
}

unfoldable pub live_terminal_printable_input : Text → KeyParts → LiveTerminalKeyInput
live_terminal_printable_input t p = record {
  key = character (first_unshifted t);
  text = some t;
  modifiers = modifiers_of p;
  unshifted = first_unshifted t;
}

abbrev pub printable : Text → Option Text
printable t =
    if is_empty t || text_eq t (codes "\r") || text_eq t (codes "\n") || any is_control t
    then none
    else some t

unfoldable pub terminal_printable_key_text : Option Text → Bool → Bool → Option Text
unfolding text_eq is_control
terminal_printable_key_text key_char control platform =
    if control || platform then none else and_then key_char printable

-- `len() == 1`: one character, of one byte.
abbrev pub is_one_byte : Text → Bool
is_one_byte [] = false
is_one_byte (c ∷ []) = ltb c 128
is_one_byte (c ∷ (d ∷ t)) = false

unfoldable pub synthesized_terminal_printable_key_text : Text → Bool → Bool → Bool → Option Text
unfolding text_eq
synthesized_terminal_printable_key_text normalized_key control shift platform =
    if control || platform
    then none
    else if text_eq normalized_key (codes "space")
    then some (codes " ")
    else if not shift && is_one_byte normalized_key
    then some normalized_key
    else none

abbrev pub named_keys : List (List Text × LiveTerminalKey)
named_keys =
    (codes "enter" ∷ (codes "return" ∷ []), enter)
    ∷ ((codes "backspace" ∷ [], backspace)
        ∷ ((codes "delete" ∷ [], delete)
            ∷ ((codes "tab" ∷ [], tab)
                ∷ ((codes "escape" ∷ [], escape)
                    ∷ ((codes "left" ∷ [], arrow_left)
                        ∷ ((codes "right" ∷ [], arrow_right)
                            ∷ ((codes "up" ∷ [], arrow_up)
                                ∷ ((codes "down" ∷ [], arrow_down)
                                    ∷ ((codes "home" ∷ [], home)
                                        ∷ ((codes "end" ∷ [], end_key)
                                            ∷ ((codes "pageup" ∷ [], page_up)
                                                ∷ ((codes "pagedown" ∷ [], page_down)
                                                    ∷ ((codes "insert" ∷ [], insert_key)
                                                        ∷ ((codes "space" ∷ [], space)
                                                            ∷ ((codes "f1" ∷ [], f 1)
                                                            ∷ ((codes "f2" ∷ [], f 2)
                                                            ∷ ((codes "f3" ∷ [], f 3)
                                                            ∷ ((codes "f4" ∷ [], f 4)
                                                            ∷ ((codes "f5" ∷ [], f 5)
                                                            ∷ ((codes "f6" ∷ [], f 6)
                                                            ∷ ((codes "f7" ∷ [], f 7)
                                                            ∷ ((codes "f8" ∷ [], f 8)
                                                            ∷ ((codes "f9" ∷ [], f 9)
                                                            ∷ ((codes "f10" ∷ [], f 10)
                                                            ∷ ((codes "f11" ∷ [], f 11)
                                                            ∷ ((codes "f12" ∷ [], f 12)
                                                            ∷ []))))))))))))))))))))))))))

-- The key of a normalized name that is not printed as text.
unfoldable pub live_key : Text → Option LiveTerminalKey
unfolding text_eq
live_key normalized_key =
    or_else (lookup normalized_key named_keys) (
      if is_one_byte normalized_key
      then some (character (first_unshifted normalized_key))
      else none)

abbrev pub unshifted_of : LiveTerminalKey → ℕ
unshifted_of k = elim k [ character c ↦ c | space ↦ 32 | _ ↦ 0 ]

abbrev pub bare_input : KeyParts → LiveTerminalKey → LiveTerminalKeyInput
bare_input p k = record {
  key = k;
  text = none;
  modifiers = modifiers_of p;
  unshifted = unshifted_of k;
}

-- The keys that are left to the application, of an event without the function modifier.
unfoldable pub is_reserved : KeyParts → Bool
is_reserved p =
    is_some (workspace_shortcut_index p)
    || is_some (rewritten_clipboard_shortcut_action p)
    || (p.control && p.shift && is_control_clipboard_action_key p.key)
    || (p.platform
        && (is_clipboard_action_key p.key
            || elim p.key_char [ none ↦ false | some c ↦ is_clipboard_action_key c ]))
    || (p.control && p.shift && is_pane_action_key p.key)
    || (p.control && p.alt && is_column_resize_key p.key)

abbrev pub printable_text : KeyParts → Text → Option Text
printable_text p normalized_key =
    or_else (terminal_printable_key_text p.key_char p.control p.platform)
      (synthesized_terminal_printable_key_text normalized_key p.control p.shift p.platform)

abbrev pub input_of_text : KeyParts → Text → Option Text → Option LiveTerminalKeyInput
input_of_text p normalized_key (some t) = some (live_terminal_printable_input t p)
input_of_text p normalized_key none = option_map (bare_input p) (live_key normalized_key)

-- Shift and Enter, with no other modifier.
abbrev pub breaks_line : KeyParts → Bool
breaks_line p =
    p.shift
    && not p.control
    && not p.alt
    && not p.platform
    && one_of (to_ascii_lowercase p.key) (codes "enter" ∷ (codes "return" ∷ []))

abbrev pub input_unless_reserved : KeyParts → Option LiveTerminalKeyInput
input_unless_reserved p =
    let normalized_key = to_ascii_lowercase p.key in
    if breaks_line p
    then some terminal_control_j_input
    else input_of_text p normalized_key (printable_text p normalized_key)

unfoldable pub live_terminal_input : KeyParts → Option LiveTerminalKeyInput
unfolding text_eq to_ascii_lowercase
live_terminal_input p = if p.function || is_reserved p then none else input_unless_reserved p
