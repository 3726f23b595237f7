-- ===== src/App/Keys.antt =====
-- crates/octty-app/src/input.rs: what a pressed key stands for: a workspace shortcut, a clipboard
-- action, or input for the terminal. The parts of a key event are one record, `KeyParts`.
pub mod Terminal
pub mod Input
pub mod Routing
mod Tests
use octty.Base.{
  ℕ, ◌+◌, Bool, true, false, ◌&&◌, ◌||◌, not, leb, ltb, ◌==◌, Option, none, some, or_else, and_then,
  is_some,
}
use octty.Base.{
  Text, codes, text_eq, one_of, to_ascii_lowercase, eq_ignore_ascii_case, is_control, any, is_empty,
  lower,
}
use octty.Base.{List, [], ◌∷◌, if◌then◌else◌}
use octty.Term.Keyboard.{
  LiveTerminalModifiers, LiveTerminalKeyInput, LiveTerminalKey, character, enter, backspace, delete,
  tab, escape, arrow_left, arrow_right, arrow_up, arrow_down, home, end_key, page_up, page_down,
  insert_key, space, f,
}

pub record KeyParts : Type 0 where
  pub key : Text
  pub key_char : Option Text
  pub control : Bool
  pub alt : Bool
  pub shift : Bool
  pub platform : Bool
  pub function : Bool

pub data ClipboardShortcutAction : Type 0 where
  copy cut paste : ClipboardShortcutAction

-- A `match` on a text: the entry of the first row that has it.
abbrev pub lookup {ℓ} : {A : Type ℓ} → Text → List (List Text × A) → Option A
lookup t [] = none
lookup t ((keys, a) ∷ rows) = if one_of t keys then some a else lookup t rows

unfoldable pub is_insert_key : KeyParts → Bool
unfolding eq_ignore_ascii_case
is_insert_key p =
    eq_ignore_ascii_case p.key (codes "insert")
    || elim p.key_char [ none ↦ false | some c ↦ eq_ignore_ascii_case c (codes "insert") ]

abbrev copy_or_paste : Bool → Bool → Option ClipboardShortcutAction
copy_or_paste true false = some copy
copy_or_paste false true = some paste
copy_or_paste true true = none
copy_or_paste false false = none

unfoldable pub rewritten_clipboard_shortcut_action : KeyParts → Option ClipboardShortcutAction
rewritten_clipboard_shortcut_action p =
    if p.alt || p.platform || p.function || not (is_insert_key p)
    then none
    else copy_or_paste p.control p.shift

unfoldable pub clipboard_shortcut_action_from_token : Text → Option ClipboardShortcutAction
unfolding text_eq to_ascii_lowercase
clipboard_shortcut_action_from_token token = lookup (to_ascii_lowercase token) (
    (codes "c" ∷ [], copy) ∷ ((codes "x" ∷ [], cut) ∷ ((codes "v" ∷ (codes "p" ∷ []), paste) ∷ [])))

unfoldable pub clipboard_shortcut_action : KeyParts → Option ClipboardShortcutAction
unfolding rewritten_clipboard_shortcut_action clipboard_shortcut_action_from_token
clipboard_shortcut_action p = or_else (rewritten_clipboard_shortcut_action p) (
    if not p.platform || p.control || p.alt || p.shift || p.function
    then none
    else or_else (clipboard_shortcut_action_from_token p.key)
        (and_then p.key_char clipboard_shortcut_action_from_token))

unfoldable pub workspace_shortcut_index_from_token : Text → Option ℕ
unfolding text_eq
workspace_shortcut_index_from_token token = lookup token (
    (codes "1" ∷ (codes "!" ∷ []), 0)
    ∷ ((codes "2" ∷ (codes "@" ∷ []), 1)
        ∷ ((codes "3" ∷ (codes "#" ∷ []), 2)
            ∷ ((codes "4" ∷ (codes "$" ∷ []), 3)
                ∷ ((codes "5" ∷ (codes "%" ∷ []), 4)
                    ∷ ((codes "6" ∷ (codes "^" ∷ []), 5)
                        ∷ ((codes "7" ∷ (codes "&" ∷ []), 6)
                            ∷ ((codes "8" ∷ (codes "*" ∷ []), 7)
                                ∷ ((codes "9" ∷ (codes "(" ∷ []), 8)
                                    ∷ ((codes "0" ∷ (codes ")" ∷ []), 9) ∷ []))))))))))

unfoldable pub workspace_shortcut_index : KeyParts → Option ℕ
workspace_shortcut_index p =
    if not p.control || not p.shift || p.alt || p.platform || p.function
    then none
    else or_else (workspace_shortcut_index_from_token p.key)
        (and_then p.key_char workspace_shortcut_index_from_token)

unfoldable pub is_pane_action_key : Text → Bool
unfolding text_eq to_ascii_lowercase
is_pane_action_key key = one_of (to_ascii_lowercase key) (
    codes "left"
    ∷ (codes "right"
        ∷ (codes "up"
            ∷ (codes "down"
                ∷ (codes "arrowleft"
                    ∷ (codes "arrowright"
                        ∷ (codes "arrowup" ∷ (codes "arrowdown" ∷ (codes "w" ∷ [])))))))))

unfoldable pub is_column_resize_key : Text → Bool
unfolding text_eq to_ascii_lowercase
is_column_resize_key key =
    one_of (to_ascii_lowercase key)
      (codes "left" ∷ (codes "right" ∷ (codes "arrowleft" ∷ (codes "arrowright" ∷ []))))

unfoldable pub is_clipboard_action_key : Text → Bool
unfolding text_eq to_ascii_lowercase
is_clipboard_action_key key =
    one_of (to_ascii_lowercase key) (codes "c" ∷ (codes "x" ∷ (codes "v" ∷ (codes "p" ∷ []))))

unfoldable pub is_control_clipboard_action_key : Text → Bool
unfolding text_eq to_ascii_lowercase
is_control_clipboard_action_key key =
    one_of (to_ascii_lowercase key) (codes "c" ∷ (codes "x" ∷ (codes "v" ∷ [])))
