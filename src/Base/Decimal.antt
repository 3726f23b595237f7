-- ===== src/Base/Decimal.antt =====
-- Numbers in decimal, as `format!` writes and `str::parse::<i64>` reads them.
use Prim.Native.Nat.{ℕ, zero, suc, ◌+◌, ◌-◌, ◌*◌, ◌/◌, ◌%◌, ◌^◌, ◌<◌, ◌≤◌}
use mathlib.Core.Path.{◌≡◌, refl, ◌∙◌}
use mathlib.Core.Logic.{inl, inr}
use mathlib.Core.Bool.{Bool, ◌&&◌}
use mathlib.Core.Option.{Option, none, some}
use mathlib.Core.List.{[], ◌∷◌}
use native.Mathlib.Omega.{arith}
use octty.Base.Tests.{ltb, leb, ◌==◌, if◌then◌else◌, Bool-cases}
use octty.Base.Int.{ℤ, pos, negsuc}
use octty.Base.Strings.{Text}

-- The digits of `n` before `acc`. Each round divides by ten, so `n + 1` rounds are enough.
show_loop : ℕ → ℕ → Text → Text
show_loop zero n acc = acc
show_loop (suc fuel) n acc =
    let rest = show_loop fuel (n / 10) ((48 + n % 10) ∷ acc) in
    if ltb n 10 then (48 + n) ∷ acc else rest

unfoldable pub show : ℕ → Text
unfolding show_loop
show n = show_loop (suc n) n []

unfoldable pub show_ℤ : ℤ → Text
unfolding show
show_ℤ (pos n) = show n
show_ℤ (negsuc n) = b'-' ∷ show (suc n)

abbrev is_digit : ℕ → Bool
is_digit c = leb 48 c && leb c 57

-- The value of a run of digits read after `acc`, and `none` at anything else.
read_loop : ℕ → Text → Option ℕ
read_loop acc [] = some acc
read_loop acc (c ∷ t) =
    let rest = read_loop (acc * 10 + (c - 48)) t in if is_digit c then rest else none

read_digits : Text → Option ℕ
unfolding read_loop
read_digits [] = none
read_digits (c ∷ t) = read_loop 0 (c ∷ t)

abbrev in_i64_pos : Option ℕ → Option ℤ
in_i64_pos none = none
in_i64_pos (some n) = if ltb n (2 ^ 63) then some (pos n) else none

abbrev in_i64_neg : Option ℕ → Option ℤ
in_i64_neg none = none
in_i64_neg (some zero) = some (pos 0)
in_i64_neg (some (suc n)) = if ltb n (2 ^ 63) then some (negsuc n) else none

-- `parse::<i64>`: an optional sign, at least one digit, and no overflow.
unfoldable pub parse_i64 : Text → Option ℤ
unfolding read_digits
parse_i64 [] = none
parse_i64 (c ∷ t) =
    if c == b'-'
    then in_i64_neg (read_digits t)
    else if c == b'+'
    then in_i64_pos (read_digits t)
    else in_i64_pos (read_digits (c ∷ t))

read_loop-show_loop :
    (fuel n : ℕ) (acc : Text) (start : ℕ)
    → n < fuel
    → (m : ℕ) × (read_loop start (show_loop fuel n acc) ≡ read_loop m acc) × (start ≡ 0 → m ≡ n)
unfolding read_loop show_loop
read_loop-show_loop zero n acc start h = absurd (omega arith)
read_loop-show_loop (suc fuel) n acc start h = elim (Bool-cases (ltb n 10)) [
  | inl small ↦ rw small (start * 10 + n, ground arith, λ z. ground arith)
  | inr big ↦
      let r = read_loop-show_loop fuel (n / 10) ((48 + n % 10) ∷ acc) start (ground arith) in
      rw big (r.0 * 10 + n % 10, r.1 ∙ ground arith, λ z. omega (arith, r.2 z))
]

show_loop_cons :
    (fuel n : ℕ) (acc : Text)
    → n < fuel
    → (c : ℕ) × (t : Text) × (show_loop fuel n acc ≡ c ∷ t) × (48 ≤ c)
unfolding show_loop
show_loop_cons zero n acc h = absurd (omega arith)
show_loop_cons (suc fuel) n acc h = elim (Bool-cases (ltb n 10)) [
  | inl small ↦ rw small (48 + n, acc, refl, omega arith)
  | inr big ↦ rw big (show_loop_cons fuel (n / 10) ((48 + n % 10) ∷ acc) (ground arith))
]

-- Reading what `show` writes gives the number back, if an `i64` can hold it.
pub parse_i64-show : (n : ℕ) → n < 2 ^ 63 → parse_i64 (show n) ≡ some (pos n)
unfolding show parse_i64
parse_i64-show n h =
    let value = read_loop-show_loop (suc n) n [] 0 (omega arith) in
    let shape = show_loop_cons (suc n) n [] (omega arith) in
    rw shape.2 (ground (arith, shape.2, value.1, value.2 refl))

-- `parse::<i32>`: what fits an `i32` of what `parse::<i64>` reads.
unfoldable pub parse_i32 : Text → Option ℤ
unfolding parse_i64
parse_i32 t = elim (parse_i64 t) [ none ↦ none | some z ↦ in_i32 z ]
  where
    in_i32 : ℤ → Option ℤ
    in_i32 (pos n) = if ltb n (2 ^ 31) then some (pos n) else none
    in_i32 (negsuc n) = if ltb n (2 ^ 31) then some (negsuc n) else none

abbrev in_usize : Option ℕ → Option ℕ
in_usize none = none
in_usize (some n) = if ltb n (2 ^ 64) then some n else none

-- `parse::<usize>` on a machine of 64 bits: an optional plus, at least one digit, no overflow.
unfoldable pub parse_usize : Text → Option ℕ
unfolding read_digits
parse_usize [] = none
parse_usize (c ∷ t) = in_usize (read_digits (if c == b'+' then t else c ∷ t))
