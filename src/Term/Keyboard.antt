-- ===== src/Term/Keyboard.antt =====
-- crates/octty-term/src/live_types.rs and live_input.rs: the keys that a live terminal takes, and
-- the key of the encoder library that each of them stands for.
use octty.Base.{ℕ, ◌-◌, Bool, ◌&&◌, leb, ◌==◌, Option, Text, if◌then◌else◌, List, [], ◌∷◌}

pub record LiveTerminalModifiers : Type 0 where
  pub shift : Bool
  pub alt : Bool
  pub control : Bool
  pub platform : Bool

-- A character is its code point.
pub data LiveTerminalKey : Type 0 where
  character : ℕ → LiveTerminalKey
  enter backspace delete tab escape : LiveTerminalKey
  arrow_left arrow_right arrow_up arrow_down home end_key page_up page_down : LiveTerminalKey
  insert_key space : LiveTerminalKey
  f : ℕ → LiveTerminalKey

pub record LiveTerminalKeyInput : Type 0 where
  pub key : LiveTerminalKey
  pub text : Option Text
  pub modifiers : LiveTerminalModifiers
  pub unshifted : ℕ

-- The keys of the encoder library that the source names: letters by their capital, digits by their
-- digit, function keys by their number.
pub data Key : Type 0 where
  letter : ℕ → Key
  digit : ℕ → Key
  minus equal bracket_left bracket_right backslash semicolon quote comma period slash backquote :
      Key
  space enter backspace delete tab escape : Key
  arrow_left arrow_right arrow_up arrow_down home end_key page_up page_down insert_key : Key
  function_key : ℕ → Key
  unidentified : Key

abbrev lookup_key : ℕ → List (ℕ × Key) → Key
lookup_key c [] = unidentified
lookup_key c ((d, k) ∷ ks) = if c == d then k else lookup_key c ks

abbrev pub punctuation : List (ℕ × Key)
punctuation =
    (b'-', minus)
    ∷ ((b'=', equal)
        ∷ ((b'[', bracket_left)
            ∷ ((b']', bracket_right)
                ∷ ((b'\\', backslash)
                    ∷ ((b';', semicolon)
                        ∷ ((b'\'', quote)
                            ∷ ((b',', comma)
                                ∷ ((b'.', period)
                                    ∷ ((b'/', slash)
                                        ∷ ((b'`', backquote) ∷ ((b' ', Key.space) ∷ [])))))))))))

abbrev key_from_character : ℕ → Key
key_from_character c =
    if leb b'a' c && leb c b'z'
    then letter (c - 32)
    else if leb b'A' c && leb c b'Z'
    then letter c
    else if leb b'0' c && leb c b'9'
    then digit (c - b'0')
    else lookup_key c punctuation

unfoldable pub key_from_live_key : LiveTerminalKey → Key
key_from_live_key (character c) = key_from_character c
key_from_live_key LiveTerminalKey.space = Key.space
key_from_live_key LiveTerminalKey.enter = Key.enter
key_from_live_key LiveTerminalKey.backspace = Key.backspace
key_from_live_key LiveTerminalKey.delete = Key.delete
key_from_live_key LiveTerminalKey.tab = Key.tab
key_from_live_key LiveTerminalKey.escape = Key.escape
key_from_live_key LiveTerminalKey.arrow_left = Key.arrow_left
key_from_live_key LiveTerminalKey.arrow_right = Key.arrow_right
key_from_live_key LiveTerminalKey.arrow_up = Key.arrow_up
key_from_live_key LiveTerminalKey.arrow_down = Key.arrow_down
key_from_live_key LiveTerminalKey.home = Key.home
key_from_live_key LiveTerminalKey.end_key = Key.end_key
key_from_live_key LiveTerminalKey.page_up = Key.page_up
key_from_live_key LiveTerminalKey.page_down = Key.page_down
key_from_live_key LiveTerminalKey.insert_key = Key.insert_key
key_from_live_key (f n) = if leb 1 n && leb n 12 then function_key n else unidentified
