-- ===== src/Term/Retach/Ansi/Scan.antt =====
-- crates/octty-term/src/retach.rs: `ansi_visible_text` as a machine that reads one byte after the other.
use package.octty.Base.{
  ℕ, zero, suc, ◌≤◌, ◌==◌, if◌then◌else◌, Text, List, [], ◌∷◌, length, ◌≡◌, refl, arith,
}
use octty.Term.Retach.Ansi.{
  is_final, skip_csi, skip_osc, skip_escape, plain_byte, visible, ansi_visible_text,
}

-- In text, behind an ESC, in a control sequence, in a command, and behind an ESC in a command.
pub data Mode : Type 0 where
  text escape csi osc osc_escape : Mode

abbrev pub step : Mode → ℕ → Mode
step text b = if b == 0x1b then escape else text
step escape b = if b == b'[' then csi else if b == b']' then osc else text
step csi b = if is_final b then text else csi
step osc b = if b == 0x07 then text else if b == 0x1b then osc_escape else osc
step osc_escape b =
    if b == b'\\' then text else if b == 0x07 then text else if b == 0x1b then osc_escape else osc

abbrev pub shown : Mode → ℕ → Text → Text
shown text b rest = if b == 0x1b then rest else plain_byte b rest
shown escape b rest = rest
shown csi b rest = rest
shown osc b rest = rest
shown osc_escape b rest = rest

unfoldable pub scan : Mode → List ℕ → Text
scan m [] = []
scan m (b ∷ bs) = shown m b (scan (step m b) bs)

scan-skip_csi : (bs : List ℕ) → scan csi bs ≡ scan text (skip_csi bs)
unfolding scan skip_csi
scan-skip_csi [] = refl
scan-skip_csi (b ∷ bs) = ground (arith, scan-skip_csi bs)

scan-skip_osc : (bs : List ℕ) → scan osc bs ≡ scan text (skip_osc bs)
unfolding scan skip_osc
scan-skip_osc [] = refl
scan-skip_osc (b ∷ []) = refl
scan-skip_osc (b ∷ (c ∷ bs)) = ground (arith, scan-skip_osc (c ∷ bs))

scan-skip_escape : (bs : List ℕ) → scan escape bs ≡ scan text (skip_escape bs)
unfolding scan skip_escape
scan-skip_escape [] = refl
scan-skip_escape (b ∷ bs) = ground (arith, scan-skip_csi bs, scan-skip_osc bs)

length-skip_csi : (bs : List ℕ) → length (skip_csi bs) ≤ length bs
unfolding skip_csi
length-skip_csi [] = omega arith
length-skip_csi (b ∷ bs) = ground (arith, length-skip_csi bs)

length-skip_osc : (bs : List ℕ) → length (skip_osc bs) ≤ length bs
unfolding skip_osc
length-skip_osc [] = omega arith
length-skip_osc (b ∷ []) = omega arith
length-skip_osc (b ∷ (c ∷ bs)) = ground (arith, length-skip_osc (c ∷ bs))

length-skip_escape : (bs : List ℕ) → length (skip_escape bs) ≤ length bs
unfolding skip_escape
length-skip_escape [] = omega arith
length-skip_escape (b ∷ bs) = ground (arith, length-skip_csi bs, length-skip_osc bs)

scan-visible : (fuel : ℕ) (bs : List ℕ) → length bs ≤ fuel → visible fuel bs ≡ scan text bs
unfolding visible scan
scan-visible zero [] h = refl
scan-visible zero (b ∷ bs) h = absurd (omega arith)
scan-visible (suc fuel) [] h = refl
scan-visible (suc fuel) (b ∷ bs) h = ground (
  arith,
  scan-visible fuel bs,
  scan-visible fuel (skip_escape bs),
  length-skip_escape bs,
  scan-skip_escape bs,
)

-- The loop over the bytes comes to its end, and gives what a machine gives that reads the bytes
-- once, one after the other, in one of five modes.
pub ansi_visible_text-scan : (bs : List ℕ) → ansi_visible_text bs ≡ scan text bs
unfolding ansi_visible_text
ansi_visible_text-scan bs = scan-visible (length bs) bs (omega arith)
