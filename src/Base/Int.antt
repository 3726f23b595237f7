-- ===== src/Base/Int.antt =====
-- Signed integers over the native numbers. Sums and orders go through the two parts of an integer.
use Prim.Native.Nat.{ℕ, suc, ◌+◌, ◌-◌, ◌^◌, ◌≤◌}
use mathlib.Core.Path.{◌≡◌, sym, ◌∙◌}
use mathlib.Core.Bool.{Bool}
use native.Mathlib.Omega.{arith}
use octty.Base.Tests.{ltb, leb, ◌==◌, if◌then◌else◌}

-- `negsuc n` is -(n + 1).
pub data ℤ : Type 0 where
  pos : ℕ → ℤ
  negsuc : ℕ → ℤ

abbrev pub pos_part : ℤ → ℕ
pos_part (pos n) = n
pos_part (negsuc n) = 0

abbrev pub neg_part : ℤ → ℕ
neg_part (pos n) = 0
neg_part (negsuc n) = suc n

-- a - b, as an integer.
abbrev pub sub_ℕ : ℕ → ℕ → ℤ
sub_ℕ a b = if leb b a then pos (a - b) else negsuc (b - a - 1)

infixl 65 ◌+ℤ◌ ◌-ℤ◌
infix 50 ◌≤ℤ◌
unfoldable pub ◌+ℤ◌ : ℤ → ℤ → ℤ
a +ℤ b = sub_ℕ (pos_part a + pos_part b) (neg_part a + neg_part b)

unfoldable pub ◌-ℤ◌ : ℤ → ℤ → ℤ
a -ℤ b = sub_ℕ (pos_part a + neg_part b) (neg_part a + pos_part b)

abbrev pub ◌≤ℤ◌ : ℤ → ℤ → Type 0
a ≤ℤ b = pos_part a + neg_part b ≤ pos_part b + neg_part a

abbrev pub ltb_ℤ : ℤ → ℤ → Bool
ltb_ℤ a b = ltb (pos_part a + neg_part b) (pos_part b + neg_part a)

abbrev pub leb_ℤ : ℤ → ℤ → Bool
leb_ℤ a b = leb (pos_part a + neg_part b) (pos_part b + neg_part a)

abbrev pub eq_ℤ : ℤ → ℤ → Bool
eq_ℤ a b = (pos_part a + neg_part b) == (pos_part b + neg_part a)

-- `i64::max`
abbrev pub max_ℤ : ℤ → ℤ → ℤ
max_ℤ a b = if ltb_ℤ b a then a else b

pub -ℤ_parts :
    (a b : ℤ)
    → pos_part (a -ℤ b) + neg_part a + pos_part b ≡ neg_part (a -ℤ b) + pos_part a + neg_part b
unfolding ◌-ℤ◌
-ℤ_parts a b = ground arith

pub eq_of_parts : (a b : ℤ) → pos_part a + neg_part b ≡ pos_part b + neg_part a → a ≡ b
eq_of_parts a b h = ground arith

-- The bounds of `i64`.
abbrev pub i64_max : ℤ
i64_max = pos (2 ^ 63 - 1)

abbrev pub i64_min : ℤ
i64_min = negsuc (2 ^ 63 - 1)

-- `i64::saturating_sub`
unfoldable pub saturating_sub : ℤ → ℤ → ℤ
saturating_sub a b =
    let d = a -ℤ b in if ltb_ℤ i64_max d then i64_max else if ltb_ℤ d i64_min then i64_min else d

-- Under a bound that an `i64` can hold, the saturated difference is compared as the true one.
pub leb-saturating_sub :
    (a b w : ℤ)
    → i64_min ≤ℤ w
    → ltb_ℤ w i64_max ≡ Bool.true
    → leb_ℤ (saturating_sub a b) w ≡ leb_ℤ (a -ℤ b) w
unfolding saturating_sub
leb-saturating_sub a b w lo hi = ground arith

leb_ℤ-sub : (a b c w : ℤ) → a ≤ℤ b → leb_ℤ (b -ℤ c) w ≡ Bool.true → leb_ℤ (a -ℤ c) w ≡ Bool.true
leb_ℤ-sub a b c w h k = ground (arith, -ℤ_parts a c, -ℤ_parts b c)

-- A later difference within a window shows that an earlier one is within it.
pub saturating_sub_mono :
    (a b c w : ℤ)
    → i64_min ≤ℤ w
    → ltb_ℤ w i64_max ≡ Bool.true
    → a ≤ℤ b
    → leb_ℤ (saturating_sub b c) w ≡ Bool.true
    → leb_ℤ (saturating_sub a c) w ≡ Bool.true
saturating_sub_mono a b c w lo hi h k =
    leb-saturating_sub a c w lo hi ∙ leb_ℤ-sub a b c w h (sym (leb-saturating_sub b c w lo hi) ∙ k)
