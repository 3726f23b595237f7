-- ===== src/Term/Retach/Ansi/Pieces.antt =====
-- crates/octty-term/src/retach.rs: `ansi_visible_text` on text with complete sequences in it.
use package.octty.Base.{
  ℕ, leb, ◌==◌, ◌||◌, Bool, true, false, Text, List, [], ◌∷◌, ◌++◌, All, flat, map, ◌≡◌, ◌≢◌, refl,
  ap, ◌∙◌, arith,
}
use octty.Term.Retach.Ansi.{ansi_visible_text, is_final}
use octty.Term.Retach.Ansi.Scan.{text, csi, osc, scan, ansi_visible_text-scan}

-- Visible text, a control sequence with its parameters and final byte, and a command that a bell or
-- a string terminator ends.
pub data Piece : Type 0 where
  plain : List ℕ → Piece
  control : List ℕ → ℕ → Piece
  command : List ℕ → Bool → Piece

abbrev pub render : Piece → List ℕ
render (plain t) = t
render (control params final) = 0x1b ∷ (b'[' ∷ (params ++ (final ∷ [])))
render (command body true) = 0x1b ∷ (b']' ∷ (body ++ (0x07 ∷ [])))
render (command body false) = 0x1b ∷ (b']' ∷ (body ++ (0x1b ∷ (b'\\' ∷ []))))

abbrev pub visible_part : Piece → Text
visible_part (plain t) = t
visible_part (control params final) = []
visible_part (command body bell) = []

abbrev pub IsComplete : Piece → Type 0
IsComplete (plain t) = All (λ b. (leb 32 b || b == 9 || b == 10) ≡ true) t
IsComplete (control params final) = All (λ b. is_final b ≡ false) params × (is_final final ≡ true)
IsComplete (command body bell) = All (λ b. (b ≢ 0x07) × (b ≢ 0x1b)) body

scan-plain :
    (t rest : List ℕ)
    → All (λ b. (leb 32 b || b == 9 || b == 10) ≡ true) t
    → scan text (t ++ rest) ≡ t ++ scan text rest
unfolding scan
scan-plain [] rest h = refl
scan-plain (b ∷ t) rest h = ground (arith, scan-plain t rest h.1)

scan-csi :
    (params rest : List ℕ) (final : ℕ)
    → All (λ b. is_final b ≡ false) params
    → is_final final ≡ true
    → scan csi ((params ++ (final ∷ [])) ++ rest) ≡ scan text rest
unfolding scan
scan-csi [] rest final h f = rw f refl
scan-csi (b ∷ params) rest final h f = rw h.0 (scan-csi params rest final h.1 f)

scan-osc :
    (body end rest : List ℕ)
    → All (λ b. (b ≢ 0x07) × (b ≢ 0x1b)) body
    → scan osc ((body ++ end) ++ rest) ≡ scan osc (end ++ rest)
unfolding scan
scan-osc [] end rest h = refl
scan-osc (b ∷ body) end rest h = ground (arith, h.0.0, h.0.1, scan-osc body end rest h.1)

scan-render :
    (p : Piece) (rest : List ℕ)
    → IsComplete p
    → scan text (render p ++ rest) ≡ visible_part p ++ scan text rest
unfolding scan
scan-render (plain t) rest h = scan-plain t rest h
scan-render (control params final) rest h = scan-csi params rest final h.0 h.1
scan-render (command body true) rest h = scan-osc body (0x07 ∷ []) rest h
scan-render (command body false) rest h = scan-osc body (0x1b ∷ (b'\\' ∷ [])) rest h

scan-pieces :
    (ps : List Piece)
    → All IsComplete ps
    → scan text (flat (map render ps)) ≡ flat (map visible_part ps)
scan-pieces [] h = unfold scan in refl
scan-pieces (p ∷ ps) h =
    scan-render p (flat (map render ps)) h.0 ∙ ap (λ r. visible_part p ++ r) (scan-pieces ps h.1)

-- Of a screen that is made of visible text, control sequences and commands, each of them complete,
-- the text is captured in its order, and nothing of the sequences.
pub ansi_visible_text-render :
    (ps : List Piece)
    → All IsComplete ps
    → ansi_visible_text (flat (map render ps)) ≡ flat (map visible_part ps)
ansi_visible_text-render ps h = ansi_visible_text-scan (flat (map render ps)) ∙ scan-pieces ps h
