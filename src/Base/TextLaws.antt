-- ===== src/Base/TextLaws.antt =====
-- Laws of the text operations: lines, pieces, and trimmed texts.
use Prim.Native.Nat.{ℕ}
use mathlib.Core.Path.{◌≡◌, refl, ap, ◌∙◌}
use mathlib.Core.Logic.{inl, inr}
use mathlib.Core.Bool.{false}
use mathlib.Core.Option.{some}
use mathlib.Core.List.{List, [], ◌∷◌, ◌++◌, append_assoc}
use native.Mathlib.Omega.{arith}
use octty.Base.Tests.{◌==◌, Bool-cases}
use octty.Base.Lists.{All, All-append}
use octty.Base.Strings.{
  Text, split, split_once, lines, strip_cr, drop_last_empty, strip_all_but_last, trim, trim_start,
  trim_end, trim_step, join, is_whitespace,
}

-- No character of the text is `sep`.
abbrev pub Without : ℕ → Text → Type 0
Without sep = All (λ c. (c == sep) ≡ false)

pub split_once-append :
    (sep : ℕ) (a b : Text) → Without sep a → split_once sep (a ++ (sep ∷ b)) ≡ some (a, b)
unfolding split_once
split_once-append sep [] b w = ground arith
split_once-append sep (c ∷ a) b w = ground (arith, split_once-append sep a b w.1)

pub split-append :
    (sep : ℕ) (a b : Text) → Without sep a → split sep (a ++ (sep ∷ b)) ≡ a ∷ split sep b
unfolding split
split-append sep [] b w = ground arith
split-append sep (c ∷ a) b w = ground (arith, split-append sep a b w.1)

pub split-Without : (sep : ℕ) (a : Text) → Without sep a → split sep a ≡ a ∷ []
unfolding split
split-Without sep [] w = refl
split-Without sep (c ∷ a) w = ground (arith, split-Without sep a w.1)

split-cons : (sep : ℕ) (t : Text) → (p : Text) × (ps : List Text) × (split sep t ≡ p ∷ ps)
unfolding split
split-cons sep [] = ([], [], refl)
split-cons sep (c ∷ t) = elim (Bool-cases (c == sep)) [
  | inl e ↦ ([], split sep t, rw e)
  | inr e ↦ let r = split-cons sep t in (c ∷ r.0, r.1, rw (e, r.2))
]

strip_all_but_last-cons :
    (l m : Text) (ls : List Text)
    → drop_last_empty (strip_all_but_last (l ∷ (m ∷ ls)))
      ≡ strip_cr l ∷ drop_last_empty (strip_all_but_last (m ∷ ls))
strip_all_but_last-cons l m [] = refl
strip_all_but_last-cons l m (n ∷ ls) = refl

-- A line that ends in a line feed, before the rest.
pub lines-append : (a b : Text) → Without 10 a → lines (a ++ (10 ∷ b)) ≡ strip_cr a ∷ lines b
unfolding lines
lines-append a b w =
    let r = split-cons 10 b in rw (split-append 10 a b w, r.2) (strip_all_but_last-cons a r.0 r.1)

-- A carriage return is taken from the end alone.
pub strip_cr-append :
    (a b : Text) (c : ℕ) → Without 13 (c ∷ b) → strip_cr (a ++ (c ∷ b)) ≡ a ++ (c ∷ b)
strip_cr-append [] [] c w = ground arith
strip_cr-append [] (d ∷ b) c w = ap (λ t. c ∷ t) (strip_cr-append [] b d w.1)
strip_cr-append (x ∷ []) b c w = ap (λ t. x ∷ t) (strip_cr-append [] b c w)
strip_cr-append (x ∷ (y ∷ a)) b c w = ap (λ t. x ∷ t) (strip_cr-append (y ∷ a) b c w)

-- No character is white space.
abbrev pub Solid : Text → Type 0
Solid = All (λ c. is_whitespace c ≡ false)

trim_start_solid : (c : ℕ) (t : Text) → is_whitespace c ≡ false → trim_start (c ∷ t) ≡ c ∷ t
trim_start_solid c t e = unfold trim_start in rw e

trim_end-Solid : (t : Text) → Solid t → trim_end t ≡ t
trim_end-Solid [] s = unfold trim_end in refl
trim_end-Solid (c ∷ t) s = trim_end-cons c t ∙ ap (trim_step c) (trim_end-Solid t s.1) ∙ kept t s
  where
    trim_end-cons : (c : ℕ) (t : Text) → trim_end (c ∷ t) ≡ trim_step c (trim_end t)
    trim_end-cons c t = unfold trim_end in refl

    kept : (t : Text) → Solid (c ∷ t) → trim_step c t ≡ c ∷ t
    kept [] s = ground arith
    kept (d ∷ t) s = refl

-- A text without white space is its own trimming.
pub trim-Solid : (t : Text) → Solid t → trim t ≡ t
unfolding trim
trim-Solid [] s = refl
trim-Solid (c ∷ t) s = ap trim_end (trim_start_solid c t s.0) ∙ trim_end-Solid (c ∷ t) s

trim_end-newline : (t : Text) → trim_end (t ++ (10 ∷ [])) ≡ trim_end t
unfolding trim_end
trim_end-newline [] = refl
trim_end-newline (c ∷ t) = ap (trim_step c) (trim_end-newline t)

-- The line feed behind a text without white space is trimmed.
pub trim-newline : (t : Text) → Solid t → trim (t ++ (10 ∷ [])) ≡ t
unfolding trim
trim-newline [] s = unfold trim_start trim_end in refl
trim-newline (c ∷ t) s =
    ap trim_end (trim_start_solid c (t ++ (10 ∷ [])) s.0)
    ∙ trim_end-newline (c ∷ t)
    ∙ trim_end-Solid (c ∷ t) s

-- Pieces without the separator, joined by it, are split again.
pub split-join :
    (sep : ℕ) (t : Text) (ts : List Text)
    → All (Without sep) (t ∷ ts)
    → split sep (join (sep ∷ []) (t ∷ ts)) ≡ t ∷ ts
unfolding join
split-join sep t [] w = split-Without sep t w.0
split-join sep t (u ∷ ts) w =
    ap (split sep) (append_assoc t (sep ∷ []) (join (sep ∷ []) (u ∷ ts)))
    ∙ split-append sep t (join (sep ∷ []) (u ∷ ts)) w.0
    ∙ ap (λ r. t ∷ r) (split-join sep u ts w.1)

pub join-Solid :
    (sep : ℕ) (ts : List Text)
    → is_whitespace sep ≡ false
    → All Solid ts
    → Solid (join (sep ∷ []) ts)
unfolding join
join-Solid sep [] e s = tt
join-Solid sep (t ∷ []) e s = s.0
join-Solid sep (t ∷ (u ∷ ts)) e s =
    All-append _ (t ++ (sep ∷ [])) (join (sep ∷ []) (u ∷ ts))
      (All-append _ t (sep ∷ []) s.0 (e, tt)) (join-Solid sep (u ∷ ts) e s.1)
