-- ===== src/Base/Float.antt =====
-- `f64`, which the model takes as a type with its operations; and a small type that has them.
use Prim.Native.Nat.{ℕ, ◌*◌, ◌/◌}
use mathlib.Core.Bool.{Bool}
use octty.Base.Tests.{if◌then◌else◌}
use octty.Base.Int.{ℤ, pos, ◌+ℤ◌, ◌-ℤ◌, pos_part, neg_part, sub_ℕ, ltb_ℤ}

pub record Float : Type 1 where
  pub F : Type 0
  pub of_ℕ : ℕ → F
  pub add : F → F → F
  pub sub : F → F → F
  pub mul : F → F → F
  pub div : F → F → F
  pub abs : F → F
  pub lt : F → F → Bool
  pub epsilon : F

-- `f64::clamp`
abbrev pub clamp : (fl : Float) → fl.F → fl.F → fl.F → fl.F
clamp fl x lo hi =
    let at_least = if fl.lt x lo then lo else x in if fl.lt hi at_least then hi else at_least

-- Whole numbers with these operations, for concrete runs.
abbrev pub whole : Float
whole = record {
  F = ℤ;
  of_ℕ = pos;
  add = ◌+ℤ◌;
  sub = ◌-ℤ◌;
  mul = λ a b. sub_ℕ (pos_part a * pos_part b) (neg_part a * pos_part b);
  div = λ a b. pos (pos_part a / pos_part b);
  abs = λ a. pos (pos_part a);
  lt = ltb_ℤ;
  epsilon = pos 1;
}
