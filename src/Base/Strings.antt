-- ===== src/Base/Strings.antt =====
-- Text as a list of code points (a byte string as a list of bytes), and what the code uses of
-- `str`: comparison, trimming, splitting, joining.
use Prim.Native.Nat.{ℕ, zero, suc, ◌+◌}
use Prim.Native.Char.{code}
use Prim.Native.String.{String}
use mathlib.Core.Path.{◌≡◌, refl}
use mathlib.Core.Logic.{◌↔◌}
use mathlib.Core.Bool.{Bool, true, false, ◌&&◌, ◌||◌}
use mathlib.Core.Option.{Option, none, some}
use mathlib.Core.List.{List, [], ◌∷◌, ◌++◌, map, reverse}
use native.Mathlib.Omega.{arith}
use octty.Base.Tests.{ltb, leb, ◌==◌, if◌then◌else◌, option_map}

abbrev pub Text : Type 0
Text = List ℕ

abbrev pub codes : String → Text
codes String.[] = []
codes (String.◌∷◌ c s) = code c ∷ codes s

unfoldable pub text_eq : Text → Text → Bool
text_eq [] [] = true
text_eq [] (b ∷ t) = false
text_eq (a ∷ s) [] = false
text_eq (a ∷ s) (b ∷ t) = a == b && text_eq s t

pub text_eq_iff : (s t : Text) → (text_eq s t ≡ true) ↔ (s ≡ t)
unfolding text_eq
text_eq_iff [] [] = ground arith
text_eq_iff [] (b ∷ t) = ground arith
text_eq_iff (a ∷ s) [] = ground arith
text_eq_iff (a ∷ s) (b ∷ t) = ground (arith, text_eq_iff s t)

pub text_eq_refl : (s : Text) → text_eq s s ≡ true
text_eq_refl s = (text_eq_iff s s).1 refl

-- The order of `String`: lexicographic. By code points it is that of the UTF-8 bytes.
unfoldable pub text_lt : Text → Text → Bool
text_lt [] [] = false
text_lt [] (b ∷ t) = true
text_lt (a ∷ s) [] = false
text_lt (a ∷ s) (b ∷ t) = ltb a b || (a == b && text_lt s t)

pub text_lt_trans : (s t u : Text) → text_lt s t ≡ true → text_lt t u ≡ true → text_lt s u ≡ true
unfolding text_lt
text_lt_trans [] [] u h k = ground arith
text_lt_trans [] (b ∷ t) [] h k = ground arith
text_lt_trans [] (b ∷ t) (c ∷ u) h k = refl
text_lt_trans (a ∷ s) [] u h k = ground arith
text_lt_trans (a ∷ s) (b ∷ t) [] h k = ground arith
text_lt_trans (a ∷ s) (b ∷ t) (c ∷ u) h k = ground (arith, text_lt_trans s t u)

pub text_lt_irrefl : (s : Text) → text_lt s s ≡ false
unfolding text_lt
text_lt_irrefl [] = refl
text_lt_irrefl (a ∷ s) = ground (arith, text_lt_irrefl s)

-- Two texts that differ are in one order or the other.
pub text_lt_total : (s t : Text) → text_eq s t ≡ false → text_lt s t ≡ false → text_lt t s ≡ true
unfolding text_lt text_eq
text_lt_total [] [] h k = ground arith
text_lt_total [] (b ∷ t) h k = ground arith
text_lt_total (a ∷ s) [] h k = refl
text_lt_total (a ∷ s) (b ∷ t) h k = ground (arith, text_lt_total s t)

-- Membership in a literal list, as `matches!` on string patterns.
abbrev pub one_of : Text → List Text → Bool
one_of t [] = false
one_of t (u ∷ us) = text_eq t u || one_of t us

-- `char::is_whitespace` (the White_Space property)
unfoldable pub is_whitespace : ℕ → Bool
is_whitespace c =
    (leb 9 c && leb c 13)
    || c == 32
    || c == 0x85
    || c == 0xa0
    || c == 0x1680
    || (leb 0x2000 c && leb c 0x200a)
    || c == 0x2028
    || c == 0x2029
    || c == 0x202f
    || c == 0x205f
    || c == 0x3000

-- `char::is_control`
unfoldable pub is_control : ℕ → Bool
is_control c = leb c 31 || (leb 127 c && leb c 159)

-- `char::to_ascii_lowercase`
unfoldable pub lower : ℕ → ℕ
lower c = if leb 65 c && leb c 90 then c + 32 else c

unfoldable pub to_ascii_lowercase : Text → Text
unfolding lower
to_ascii_lowercase t = map lower t

unfoldable pub eq_ignore_ascii_case : Text → Text → Bool
unfolding to_ascii_lowercase text_eq
eq_ignore_ascii_case s t = text_eq (to_ascii_lowercase s) (to_ascii_lowercase t)

unfoldable pub trim_start : Text → Text
unfolding is_whitespace
trim_start [] = []
trim_start (c ∷ t) = let rest = trim_start t in if is_whitespace c then rest else c ∷ t

-- A character before a text that is trimmed already.
abbrev pub trim_step : ℕ → Text → Text
trim_step c [] = if is_whitespace c then [] else c ∷ []
trim_step c (d ∷ t) = c ∷ (d ∷ t)

unfoldable pub trim_end : Text → Text
unfolding is_whitespace
trim_end [] = []
trim_end (c ∷ t) = trim_step c (trim_end t)

unfoldable pub trim : Text → Text
unfolding trim_start trim_end
trim t = trim_end (trim_start t)

unfoldable pub strip_prefix : Text → Text → Option Text
strip_prefix [] t = some t
strip_prefix (p ∷ ps) [] = none
strip_prefix (p ∷ ps) (c ∷ t) = let rest = strip_prefix ps t in if p == c then rest else none

unfoldable pub starts_with : Text → Text → Bool
unfolding strip_prefix
starts_with t prefix = elim (strip_prefix prefix t) [ none ↦ false | some _ ↦ true ]

unfoldable pub ends_with : Text → Text → Bool
unfolding starts_with
ends_with t suffix = starts_with (reverse t) (reverse suffix)

-- `contains`
unfoldable pub contains : Text → Text → Bool
unfolding starts_with
contains [] pattern_text = starts_with [] pattern_text
contains (c ∷ t) pattern_text = starts_with (c ∷ t) pattern_text || contains t pattern_text

-- `split` at a character: always at least one piece.
abbrev pub push_front : ℕ → List Text → List Text
push_front c [] = (c ∷ []) ∷ []
push_front c (p ∷ ps) = (c ∷ p) ∷ ps

unfoldable pub split : ℕ → Text → List Text
split sep [] = [] ∷ []
split sep (c ∷ t) = let rest = split sep t in if c == sep then [] ∷ rest else push_front c rest

unfoldable pub split_once : ℕ → Text → Option (Text × Text)
split_once sep [] = none
split_once sep (c ∷ t) =
    let rest = split_once sep t in
    if c == sep then some ([], t) else option_map (λ (a, b). (c ∷ a, b)) rest

-- `lines` drops the last piece if it is empty, and one carriage return at the end of each line.
abbrev pub strip_cr : Text → Text
strip_cr [] = []
strip_cr (c ∷ []) = if c == 13 then [] else c ∷ []
strip_cr (c ∷ (d ∷ t)) = c ∷ strip_cr (d ∷ t)

abbrev pub drop_last_empty : List Text → List Text
drop_last_empty [] = []
drop_last_empty ([] ∷ []) = []
drop_last_empty ((c ∷ t) ∷ []) = (c ∷ t) ∷ []
drop_last_empty (l ∷ (m ∷ ls)) = l ∷ drop_last_empty (m ∷ ls)

-- The piece behind the last line break keeps its carriage return.
abbrev pub strip_all_but_last : List Text → List Text
strip_all_but_last [] = []
strip_all_but_last (l ∷ []) = l ∷ []
strip_all_but_last (l ∷ (m ∷ ls)) = strip_cr l ∷ strip_all_but_last (m ∷ ls)

unfoldable pub lines : Text → List Text
unfolding split
lines t = drop_last_empty (strip_all_but_last (split 10 t))

unfoldable pub join : Text → List Text → Text
join sep [] = []
join sep (t ∷ []) = t
join sep (t ∷ (u ∷ ts)) = t ++ sep ++ join sep (u ∷ ts)

-- `replace` of one character by a text.
unfoldable pub replace_char : ℕ → Text → Text → Text
replace_char from to [] = []
replace_char from to (c ∷ t) =
    let rest = replace_char from to t in if c == from then to ++ rest else c ∷ rest

-- `splitn`: at most `n` pieces, the last one with what is left.
unfoldable pub splitn : ℕ → ℕ → Text → List Text
unfolding split_once
splitn zero sep t = []
splitn (suc zero) sep t = t ∷ []
splitn (suc (suc n)) sep t = elim (split_once sep t) [
  | none ↦ t ∷ []
  | some (a, b) ↦ a ∷ splitn (suc n) sep b
]
