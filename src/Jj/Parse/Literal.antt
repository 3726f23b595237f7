-- ===== src/Jj/Parse/Literal.antt =====
-- `revset_string_literal` (crates/octty-jj/src/lib.rs) against a reader of string literals.
use octty.Base.{ℕ, ◌≡◌, refl, ap, ◌∙◌, Text, codes, Option, none, some, option_map, [], ◌∷◌}
use octty.Base.{
  ◌++◌, ◌==◌, ==_iff, false, inl, inr, Bool-cases, if◌then◌else◌, arith, append_assoc, replace_char,
}
use octty.Jj.Parse.{revset_string_literal}

-- The text of a literal behind its opening quote, up to the closing one, and what follows: a
-- backslash takes the next character as it is.
pub read_string : Text → Option (Text × Text)
read_string [] = none
read_string (c ∷ []) = if c == b'"' then some ([], []) else none
read_string (c ∷ (d ∷ t)) =
    let escaped = read_string t in
    let plain = read_string (d ∷ t) in
    if c == b'"'
    then some ([], d ∷ t)
    else if c == b'\\'
    then option_map (λ (a, b). (d ∷ a, b)) escaped
    else option_map (λ (a, b). (c ∷ a, b)) plain

pub read_literal : Text → Option (Text × Text)
unfolding read_string
read_literal [] = none
read_literal (c ∷ t) = let rest = read_string t in if c == b'"' then rest else none

-- Both replacements at once, character by character.
escape : ℕ → Text
escape c =
    if c == b'\\' then b'\\' ∷ b'\\' ∷ [] else if c == b'"' then b'\\' ∷ b'"' ∷ [] else c ∷ []

escape_all : Text → Text
escape_all [] = []
escape_all (c ∷ t) = escape c ++ escape_all t

replace-escape_all :
    (v : Text)
    → replace_char b'"' (codes "\\\"") (replace_char b'\\' (codes "\\\\") v) ≡ escape_all v
unfolding replace_char escape_all escape
replace-escape_all [] = refl
replace-escape_all (c ∷ v) = ground (arith, replace-escape_all v)

read_string_plain :
    (c : ℕ) (t : Text)
    → (c == b'"') ≡ false
    → (c == b'\\') ≡ false
    → read_string (c ∷ t) ≡ option_map (λ (a, b). (c ∷ a, b)) (read_string t)
unfolding read_string
read_string_plain c [] quote slash = rw quote
read_string_plain c (d ∷ t) quote slash = rw (quote, slash)

read_string_escaped :
    (c d : ℕ) (t : Text)
    → c ≡ d
    → read_string (b'\\' ∷ (d ∷ t)) ≡ option_map (λ (a, b). (c ∷ a, b)) (read_string t)
unfolding read_string
read_string_escaped c d t e = rw e

read_string-escape :
    (c : ℕ) (t : Text)
    → read_string (escape c ++ t) ≡ option_map (λ (a, b). (c ∷ a, b)) (read_string t)
unfolding escape
read_string-escape c t = elim (Bool-cases (c == b'\\')) [
  | inl slash ↦ rw slash (read_string_escaped c b'\\' t ((==_iff c b'\\').0 slash))
  | inr other ↦ elim (Bool-cases (c == b'"')) [
    | inl quote ↦ rw (other, quote) (read_string_escaped c b'"' t ((==_iff c b'"').0 quote))
    | inr plain ↦ rw (other, plain) (read_string_plain c t plain other)
  ]
]

read_string-escape_all :
    (v rest : Text) → read_string (escape_all v ++ (codes "\"" ++ rest)) ≡ some (v, rest)
unfolding escape_all
read_string-escape_all [] [] = unfold read_string in refl
read_string-escape_all [] (c ∷ rest) = unfold read_string in refl
read_string-escape_all (c ∷ v) rest =
    ap read_string (append_assoc (escape c) (escape_all v) (codes "\"" ++ rest))
    ∙ (read_string-escape c (escape_all v ++ (codes "\"" ++ rest))
        ∙ ap (option_map (λ (a, b). (c ∷ a, b))) (read_string-escape_all v rest))

-- Every bookmark name, with quotes and backslashes in it, is read back from its literal, and the
-- text behind the literal is left: no name can end the literal early.
pub read_literal-revset_string_literal :
    (value rest : Text) → read_literal (revset_string_literal value ++ rest) ≡ some (value, rest)
unfolding read_literal revset_string_literal
read_literal-revset_string_literal value rest = rw replace-escape_all (
    ap read_string (append_assoc (escape_all value) (codes "\"") rest)
    ∙ read_string-escape_all value rest)
