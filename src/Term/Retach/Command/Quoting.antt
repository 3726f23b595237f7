-- ===== src/Term/Retach/Command/Quoting.antt =====
-- crates/octty-term/src/retach.rs: a command line, read back as a POSIX shell splits it in words.
use package.octty.Base.{
  ℕ, ◌==◌, ==_iff, if◌then◌else◌, true, false, Bool-cases, Option, none, some, option_map, Text,
  List, [], ◌∷◌, ◌++◌, all, ◌≡◌, refl, sym, ap, ◌∙◌, inl, inr, arith, append-nil, append_assoc,
}
use octty.Term.Retach.Command.{
  is_safe_shell_char, quoted_char, quoted_chars, shell_single_quote, shell_quote,
  shell_command_line,
}

-- Between words, in a word, and in a word behind a quote or a backslash.
pub data Mode : Type 0 where
  gap word quoted escaped : Mode

-- A character in front of the first word.
abbrev pub put : ℕ → List Text → List Text
put c [] = (c ∷ []) ∷ []
put c (w ∷ ws) = (c ∷ w) ∷ ws

-- The words of a text. Between single quotes every character stands for itself, outside of them a
-- backslash keeps the next one and a space ends the word; of the rest only the characters that no
-- shell gives a meaning to are read here.
unfoldable pub words : Mode → Text → Option (List Text)
words gap [] = some []
words word [] = some ([] ∷ [])
words quoted [] = none
words escaped [] = none
words escaped (c ∷ t) = option_map (put c) (words word t)
words quoted (c ∷ t) =
    let outside = words word t in
    let inside = words quoted t in if c == b'\'' then outside else option_map (put c) inside
words gap (c ∷ t) =
    let inside = words quoted t in
    let kept = words escaped t in
    let between = words gap t in
    let rest = words word t in
    if c == b'\''
    then inside
    else if c == b'\\'
    then kept
    else if c == 32
    then between
    else if is_safe_shell_char c
    then option_map (put c) rest
    else none
words word (c ∷ t) =
    let inside = words quoted t in
    let kept = words escaped t in
    let between = words gap t in
    let rest = words word t in
    if c == b'\''
    then inside
    else if c == b'\\'
    then kept
    else if c == 32
    then option_map (λ ws. [] ∷ ws) between
    else if is_safe_shell_char c
    then option_map (put c) rest
    else none

-- A text in front of the first word.
abbrev prepend : Text → List Text → List Text
prepend [] ws = ws
prepend (c ∷ v) ws = put c (prepend v ws)

prepend-cons : (v w : Text) (ws : List Text) → prepend v (w ∷ ws) ≡ (v ++ w) ∷ ws
prepend-cons [] w ws = refl
prepend-cons (c ∷ v) w ws = ap (put c) (prepend-cons v w ws)

map-prepend :
    (c : ℕ) (v : Text) (o : Option (List Text))
    → option_map (put c) (option_map (prepend v) o) ≡ option_map (prepend (c ∷ v)) o
map-prepend c v none = refl
map-prepend c v (some ws) = refl

map-prepend_nil : (o : Option (List Text)) → option_map (prepend []) o ≡ o
map-prepend_nil none = refl
map-prepend_nil (some ws) = refl

-- A safe character is none of those that the reader treats apart.
safe_tests :
    (c : ℕ)
    → is_safe_shell_char c ≡ true
    → (c == b'\'' ≡ false) × (c == b'\\' ≡ false) × (c == 32 ≡ false)
safe_tests c h = ground arith

word-safe :
    (c : ℕ) (t : Text)
    → is_safe_shell_char c ≡ true
    → words word (c ∷ t) ≡ option_map (put c) (words word t)
unfolding words
word-safe c t h = let (a, b, s) = safe_tests c h in rw (a, b, s, h)

gap-safe :
    (c : ℕ) (t : Text)
    → is_safe_shell_char c ≡ true
    → words gap (c ∷ t) ≡ option_map (put c) (words word t)
unfolding words
gap-safe c t h = let (a, b, s) = safe_tests c h in rw (a, b, s, h)

word-append :
    (v rest : Text)
    → all is_safe_shell_char v ≡ true
    → words word (v ++ rest) ≡ option_map (prepend v) (words word rest)
word-append [] rest h = sym (map-prepend_nil (words word rest))
word-append (c ∷ v) rest h =
    word-safe c (v ++ rest) (ground arith)
    ∙ ap (option_map (put c)) (word-append v rest (ground arith))
    ∙ map-prepend c v (words word rest)

quoted-char :
    (c : ℕ) (t : Text) → words quoted (quoted_char c ++ t) ≡ option_map (put c) (words quoted t)
unfolding words
quoted-char c t = elim (Bool-cases (c == b'\'')) [
  | inl e ↦ rw e (ap (λ d. option_map (put d) (words quoted t)) (sym ((==_iff c b'\'').0 e)))
  | inr e ↦ rw e (rw e)
]

quoted-chars :
    (v rest : Text)
    → words quoted (quoted_chars v ++ (b'\'' ∷ rest)) ≡ option_map (prepend v) (words word rest)
quoted-chars [] rest = unfold words in sym (map-prepend_nil (words word rest))
quoted-chars (c ∷ v) rest =
    ap (words quoted) (append_assoc (quoted_char c) (quoted_chars v) (b'\'' ∷ rest))
    ∙ quoted-char c (quoted_chars v ++ (b'\'' ∷ rest))
    ∙ ap (option_map (put c)) (quoted-chars v rest)
    ∙ map-prepend c v (words word rest)

gap_opens : (t : Text) → words gap (b'\'' ∷ t) ≡ words quoted t
unfolding words
gap_opens t = refl

word_ends : (t : Text) → words word (32 ∷ t) ≡ option_map (λ ws. [] ∷ ws) (words gap t)
unfolding words
word_ends t = refl

word_done : words word [] ≡ some ([] ∷ [])
unfolding words
word_done = refl

-- A quoted value begins a word, whatever it is.
gap-quote :
    (v rest : Text) → words gap (shell_quote v ++ rest) ≡ option_map (prepend v) (words word rest)
unfolding shell_quote shell_single_quote
gap-quote [] rest = unfold words in sym (map-prepend_nil (words word rest))
gap-quote (c ∷ v) rest = elim (Bool-cases (all is_safe_shell_char (c ∷ v))) [
  | inl e ↦ rw e (
      gap-safe c (v ++ rest) (ground arith)
      ∙ ap (option_map (put c)) (word-append v rest (ground arith))
      ∙ map-prepend c v (words word rest))
  | inr e ↦ rw e (
      gap_opens ((quoted_chars (c ∷ v) ++ (b'\'' ∷ [])) ++ rest)
      ∙ ap (words quoted) (append_assoc (quoted_chars (c ∷ v)) (b'\'' ∷ []) rest)
      ∙ quoted-chars (c ∷ v) rest)
]

-- A command line is read by a shell as the command and its arguments, word for word: no quote, space
-- or other character in them ends a word or begins another.
pub words-shell_command_line :
    (command : Text) (args : List Text)
    → words gap (shell_command_line command args) ≡ some (command ∷ args)
unfolding shell_command_line
words-shell_command_line command [] =
    ap (words gap) (sym (append-nil (shell_quote command)))
    ∙ gap-quote command []
    ∙ ap (option_map (prepend command)) word_done
    ∙ ap some (prepend-cons command [] [] ∙ ap (λ w. w ∷ []) (append-nil command))
words-shell_command_line command (arg ∷ args) =
    let line = shell_command_line arg args in
    ap (words gap) (append_assoc (shell_quote command) (32 ∷ []) line)
    ∙ gap-quote command (32 ∷ line)
    ∙ ap (option_map (prepend command))
        (word_ends line ∙ ap (option_map (λ ws. [] ∷ ws)) (words-shell_command_line arg args))
    ∙ ap some
        (prepend-cons command [] (arg ∷ args) ∙ ap (λ w. w ∷ (arg ∷ args)) (append-nil command))
