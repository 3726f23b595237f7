-- ===== src/Term/Retach/Ansi/Utf8.antt =====
-- crates/octty-term/src/retach.rs: `ansi_visible_text` takes each byte for a character, also those of
-- UTF-8.
use package.octty.Base.{
  ℕ, ◌≤◌, ◌<◌, Text, List, [], ◌∷◌, ◌++◌, length, All, ◌≡◌, ◌↔◌, refl, sym, ap, ◌∙◌, arith,
  length-append,
}
use package.octty.Base.Bytes.{utf8, utf8_char}
use octty.Term.Retach.Ansi.{ansi_visible_text}
use octty.Term.Retach.Ansi.Scan.{scan, text, ansi_visible_text-scan}

abbrev pub IsPrintable : ℕ → Type 0
IsPrintable c = 32 ≤ c

scan-printable :
    (bs rest : List ℕ) → All IsPrintable bs → scan text (bs ++ rest) ≡ bs ++ scan text rest
unfolding scan
scan-printable [] rest h = refl
scan-printable (b ∷ bs) rest h = ground (arith, scan-printable bs rest h.1)

utf8_char-IsPrintable : (c : ℕ) → IsPrintable c → All IsPrintable (utf8_char c)
unfolding utf8_char
utf8_char-IsPrintable c h = ground arith

scan-utf8 : (t : Text) → All IsPrintable t → scan text (utf8 t) ≡ utf8 t
unfolding utf8
scan-utf8 [] h = unfold scan in refl
scan-utf8 (c ∷ t) h =
    scan-printable (utf8_char c) (utf8 t) (utf8_char-IsPrintable c h.0)
    ∙ ap (λ r. utf8_char c ++ r) (scan-utf8 t h.1)

length-utf8_char : (c : ℕ) → (1 ≤ length (utf8_char c)) × (length (utf8_char c) ≤ 1 → c < 0x80)
unfolding utf8_char
length-utf8_char c = ground arith

length-utf8 :
    (t : Text) → (length t ≤ length (utf8 t)) × (length (utf8 t) ≤ length t → All (λ c. c < 0x80) t)
unfolding utf8
length-utf8 [] = (omega arith, λ h. tt)
length-utf8 (c ∷ t) =
    let first = length-utf8_char c in
    let rest = length-utf8 t in
    let both = length-append (utf8_char c) (utf8 t) in
    (
      omega (arith, first, rest, both),
      λ h. (first.1 (omega (arith, rest, both)), rest.1 (omega (arith, first, both))),
    )

utf8_ascii : (t : Text) → All (λ c. c < 0x80) t → utf8 t ≡ t
unfolding utf8 utf8_char
utf8_ascii [] h = refl
utf8_ascii (c ∷ t) h = ground (arith, utf8_ascii t h.1)

-- A line of printable characters that is sent as UTF-8 is captured as the text with one character for
-- each byte, its code point that byte. So it is captured as it is exactly if it is ASCII.
pub ansi_visible_text-utf8 :
    (t : Text)
    → All IsPrintable t
    → (ansi_visible_text (utf8 t) ≡ utf8 t)
      × ((ansi_visible_text (utf8 t) ≡ t) ↔ All (λ c. c < 0x80) t)
ansi_visible_text-utf8 t h =
    let same = ansi_visible_text-scan (utf8 t) ∙ scan-utf8 t h in
    (
      same,
      (
        λ e. (length-utf8 t).1 (omega (arith, ap length (sym same ∙ e))),
        λ a. same ∙ utf8_ascii t a,
      ),
    )
