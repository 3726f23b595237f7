-- ===== src/Term/Retach/Ansi.antt =====
-- crates/octty-term/src/retach.rs: `ansi_visible_text`, the text of what a server sends of a screen. The
-- index into the bytes is the rest of the bytes.
pub mod Scan
pub mod Pieces
pub mod Utf8
use package.octty.Base.{
  ℕ, zero, suc, leb, ◌==◌, if◌then◌else◌, Bool, ◌&&◌, ◌||◌, Text, List, [], ◌∷◌, length,
}

abbrev pub is_final : ℕ → Bool
is_final b = leb 0x40 b && leb b 0x7e

-- To the byte behind the final one of a control sequence.
unfoldable pub skip_csi : List ℕ → List ℕ
skip_csi [] = []
skip_csi (b ∷ bs) = let rest = skip_csi bs in if is_final b then bs else rest

-- To the byte behind the bell, or behind the ESC and backslash, that end a command.
unfoldable pub skip_osc : List ℕ → List ℕ
skip_osc [] = []
skip_osc (b ∷ []) = []
skip_osc (b ∷ (c ∷ bs)) =
    let rest = skip_osc (c ∷ bs) in
    if b == 0x07 then c ∷ bs else if b == 0x1b && c == b'\\' then bs else rest

unfoldable pub skip_escape : List ℕ → List ℕ
unfolding skip_csi skip_osc
skip_escape [] = []
skip_escape (b ∷ bs) = if b == b'[' then skip_csi bs else if b == b']' then skip_osc bs else bs

-- A byte outside of all sequences, and the text that the bytes behind it give.
abbrev pub plain_byte : ℕ → Text → Text
plain_byte b rest =
    if b == 13
    then rest
    else if b == 10
    then 10 ∷ rest
    else if leb 32 b || b == 9
    then b ∷ rest
    else rest

-- One round of the loop for each unit of fuel.
unfoldable pub visible : ℕ → List ℕ → Text
visible zero bs = []
visible (suc fuel) [] = []
visible (suc fuel) (b ∷ bs) =
    let behind = visible fuel (skip_escape bs) in
    let rest = visible fuel bs in if b == 0x1b then behind else plain_byte b rest

unfoldable pub ansi_visible_text : List ℕ → Text
unfolding visible skip_escape
ansi_visible_text bs = visible (length bs) bs
