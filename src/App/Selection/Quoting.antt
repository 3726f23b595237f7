-- ===== src/App/Selection/Quoting.antt =====
-- crates/octty-app/src/terminal_selection.rs: the path of a pasted image, as a word of a shell.
use octty.Base.{
  ℕ, Bool, ◌&&◌, ◌||◌, leb, ◌==◌, Text, codes, [], ◌∷◌, ◌++◌, all, any, Option, none, some,
  option_map,
}
use octty.Base.{replace_char, if◌then◌else◌}

abbrev pub is_safe_shell_path_char : ℕ → Bool
is_safe_shell_path_char c =
    (leb b'0' c && leb c b'9')
    || (leb b'a' c && leb c b'z')
    || (leb b'A' c && leb c b'Z')
    || any (λ d. c == d) (codes "_./:@%+=,-")

unfoldable pub quote_terminal_path_for_paste : Text → Text
unfolding replace_char
quote_terminal_path_for_paste path =
    if all is_safe_shell_path_char path
    then path
    else codes "'" ++ (replace_char b'\'' (codes "'\\''") path ++ codes "'")

pub data Mode : Type 0 where
  plain quoted escaped : Mode

-- What a POSIX shell takes for one word: between single quotes every character stands for itself,
-- outside of them a backslash keeps the next character, and of the rest only the characters that
-- no shell gives a meaning to are read here.
unfoldable pub read_word : Mode → Text → Option Text
read_word plain [] = some []
read_word quoted [] = none
read_word escaped [] = none
read_word escaped (c ∷ t) = option_map (λ w. c ∷ w) (read_word plain t)
read_word quoted (c ∷ t) =
    let outside = read_word plain t in
    let inside = read_word quoted t in
    if c == b'\'' then outside else option_map (λ w. c ∷ w) inside
read_word plain (c ∷ t) =
    let inside = read_word quoted t in
    let kept = read_word escaped t in
    let rest = read_word plain t in
    if c == b'\''
    then inside
    else if c == b'\\'
    then kept
    else if is_safe_shell_path_char c
    then option_map (λ w. c ∷ w) rest
    else none

-- A character inside the quotes, as the code writes it.
abbrev quoted_char : ℕ → Text
quoted_char c = if c == b'\'' then codes "'\\''" else c ∷ []

-- The one word of a text; a text with nothing in it has none, while two quotes are the empty word.
unfoldable pub only_word : Text → Option Text
unfolding read_word
only_word [] = none
only_word (c ∷ t) = read_word plain (c ∷ t)
