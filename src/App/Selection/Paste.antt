-- ===== src/App/Selection/Paste.antt =====
-- crates/octty-app/src/terminal_selection.rs: pasted text. `into_bytes` writes it as UTF-8.
use octty.Base.{ℕ, ◌==◌, Text, codes, List, [], ◌∷◌, replace_char, if◌then◌else◌}
use octty.Base.{◌≡◌, refl, ap, arith}
use octty.Base.Bytes.{utf8}

-- `replace("\r\n", "\n")`
unfoldable pub replace_crlf : Text → Text
replace_crlf [] = []
replace_crlf (c ∷ []) = c ∷ []
replace_crlf (c ∷ (d ∷ t)) =
    let rest = replace_crlf (d ∷ t) in
    let skipped = replace_crlf t in
    if c == 13 then (if d == 10 then 10 ∷ skipped else c ∷ rest) else c ∷ rest

unfoldable pub terminal_paste_bytes : Text → List ℕ
unfolding replace_crlf replace_char utf8
terminal_paste_bytes text = utf8 (replace_char 10 (codes "\r") (replace_crlf text))

-- The specification: a return for each line break, of either kind, in one pass.
unfoldable pub with_returns : Text → Text
with_returns [] = []
with_returns (c ∷ []) = (if c == 10 then 13 else c) ∷ []
with_returns (c ∷ (d ∷ t)) =
    let rest = with_returns (d ∷ t) in
    let skipped = with_returns t in
    if c == 13
    then (if d == 10 then 13 ∷ skipped else 13 ∷ rest)
    else (if c == 10 then 13 else c) ∷ rest

replaced : (t : Text) → replace_char 10 (codes "\r") (replace_crlf t) ≡ with_returns t
unfolding replace_crlf replace_char with_returns
replaced [] = refl
replaced (c ∷ []) = ground arith
replaced (c ∷ (d ∷ t)) = ground (arith, replaced (d ∷ t), replaced t)

-- Pasted text is sent with one carriage return for each line break, whether the break was a line
-- feed or a return with a line feed, and unchanged otherwise.
pub terminal_paste_bytes_lem : (text : Text) → terminal_paste_bytes text ≡ utf8 (with_returns text)
unfolding terminal_paste_bytes
terminal_paste_bytes_lem text = ap utf8 (replaced text)
