-- ===== src/App/Workspaces/Cycle.antt =====
-- crates/octty-app/src/app_core.rs: moving to the next and the previous workspace.
use octty.Base.{ℕ, zero, suc, ◌+◌, ◌-◌, ◌%◌, ◌<◌, ==_dec, inl, inr, ◌≡◌, ap, ◌∙◌, arith}
use octty.App.Workspaces.{previous, next, navigation_target}

mod_small : (x n : ℕ) → x < n → x % n ≡ x
mod_small x n h = grind arith

next_inside : (current count : ℕ) → current + 1 < count → (current + 1) % count ≡ current + 1
next_inside current count h = grind arith

next_last : (count : ℕ) → 0 < count → (count - 1 + 1) % count ≡ 0
next_last count h =
    ap (λ n. n % count) (let e : count - 1 + 1 ≡ count = omega arith in e) ∙ grind arith

back_and_on : (x n : ℕ) → 0 < x → x < n → (x - 1 + 1) % n ≡ x
back_and_on x n p h = ap (λ k. k % n) (let e : x - 1 + 1 ≡ x = omega arith in e) ∙ mod_small x n h

previous-next :
    (count current : ℕ)
    → current < count
    → navigation_target previous (navigation_target next current count) count ≡ current
unfolding navigation_target
previous-next count current h = elim (==_dec (current + 1) count) [
  | inl e ↦
      let v : (current + 1) % count ≡ 0 = ap (λ n. n % count) e ∙ grind arith in rw v (omega arith)
  | inr e ↦ let v = mod_small (current + 1) count (omega arith) in rw v (ground arith)
]

next-previous :
    (count current : ℕ)
    → current < count
    → navigation_target next (navigation_target previous current count) count ≡ current
unfolding navigation_target
next-previous count current h = ground (arith, next_last count, back_and_on current count)

-- A number of moves to the next one.
abbrev pub moves : ℕ → ℕ → ℕ → ℕ
moves zero current count = current
moves (suc n) current count = moves n (navigation_target next current count) count

-- Moves that do not come to the end.
moves_within : (n current count : ℕ) → current + n < count → moves n current count ≡ current + n
unfolding navigation_target
moves_within zero current count h = omega arith
moves_within (suc n) current count h =
    ap (λ c. moves n c count) (next_inside current count (omega arith))
    ∙ moves_within n (current + 1) count (omega arith)
    ∙ omega arith

-- To move to the next workspace and then to the previous one leads back, and so does the other order;
-- and from the first workspace the moves to the next one lead to every workspace, in their order, and
-- from the last one to the first.
pub navigation_cycle :
    (count current : ℕ)
    → current < count
    → (navigation_target next current count < count)
      × (navigation_target previous current count < count)
      × (navigation_target previous (navigation_target next current count) count ≡ current)
      × (navigation_target next (navigation_target previous current count) count ≡ current)
      × (moves current 0 count ≡ current)
      × (navigation_target next (count - 1) count ≡ 0)
unfolding navigation_target
navigation_cycle count current h = (
  omega arith,
  ground arith,
  previous-next count current h,
  next-previous count current h,
  moves_within current 0 count (omega arith) ∙ omega arith,
  next_last count (omega arith),
)
